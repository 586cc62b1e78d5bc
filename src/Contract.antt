-- ===== src/Contract.antt =====
-- packages/contract-client/src/registry.ts and index.ts: receipt-core's stages as those of the
-- contract, and the request that anchors an event.
pub mod Requests
use submittedit.Common.{
  ℕ, zero, suc, Bool, true, false, not, ◌&&◌, ◌||◌, Option, none, some, ◌∷◌, map, ltb, leb, ◌==◌,
  if◌then◌else◌,
}
use submittedit.Common.Lists.{all, length}
use submittedit.Text.{Text, text_eq, is_digit, to_lower}
use submittedit.Types.{
  EventStage, attempted, site_confirmed, authority_accepted, authority_rejected, LifecycleStage,
  no_event, at, zero_hash,
}
use submittedit.Protocol.{ChainAnchorPayload}

-- `CONTRACT_RECEIPT_STAGES` of an event.
unfoldable pub to_contract_receipt_stage : EventStage → ℕ
to_contract_receipt_stage attempted = 1
to_contract_receipt_stage site_confirmed = 2
to_contract_receipt_stage authority_accepted = 3
to_contract_receipt_stage authority_rejected = 4

-- `none` where the code throws.
unfoldable pub from_contract_receipt_stage : ℕ → Option LifecycleStage
from_contract_receipt_stage zero = some no_event
from_contract_receipt_stage (suc zero) = some (at attempted)
from_contract_receipt_stage (suc (suc zero)) = some (at site_confirmed)
from_contract_receipt_stage (suc (suc (suc zero))) = some (at authority_accepted)
from_contract_receipt_stage (suc (suc (suc (suc zero)))) = some (at authority_rejected)
from_contract_receipt_stage _ = none

abbrev is_lower_hex : ℕ → Bool
is_lower_hex c = is_digit c || leb b'a' c && leb c b'f'

-- `BYTES32_PATTERN`.
unfoldable pub is_bytes32 : Text → Bool
unfolding is_digit
is_bytes32 (zero_char ∷ x_char ∷ digits) =
    zero_char == b'0' && x_char == b'x' && length digits == 64 && all is_lower_hex digits
is_bytes32 _ = false

-- `RECEIPT_SCHEMA_VERSION_PATTERN`.
unfoldable pub is_schema_version_1 : Text → Bool
unfolding is_digit
is_schema_version_1 (one ∷ dot ∷ minor) =
    one == b'1' && dot == b'.' && ltb 0 (length minor) && all is_digit minor
is_schema_version_1 _ = false

-- The arguments of `anchorEvent`, and where it is sent. The ABI and the function's name are fixed.
pub record AnchorRequest : Type 0 where
  pub address : Text
  pub receipt_id : Text
  pub event_hash : Text
  pub previous_event_hash : Text
  pub extension_key_hash : Text
  pub authority_key_hash : Text
  pub stage : ℕ
  pub chain_id : ℕ
  pub schema_version : Text

abbrev pub is_authority_stage : EventStage → Bool
is_authority_stage authority_accepted = true
is_authority_stage authority_rejected = true
is_authority_stage _ = false

-- The request that is returned.
unfoldable pub request_of : ChainAnchorPayload → Text → Text → AnchorRequest
unfolding to_contract_receipt_stage
request_of p extension_key_hash authority_key_hash = record {
  address = p.contract_address;
  receipt_id = p.receipt_id;
  event_hash = p.event_hash;
  previous_event_hash = p.previous_event_hash;
  extension_key_hash = extension_key_hash;
  authority_key_hash = authority_key_hash;
  stage = to_contract_receipt_stage p.stage;
  chain_id = p.chain_id;
  schema_version = p.schema_version;
}

-- `isAddress(value, { strict: true })` of viem is a parameter. A configured chain is a safe integer,
-- and a projection has the keys of its type.
module _ (is_address : Text → Bool) where
  unfoldable pub projection_is_valid : ChainAnchorPayload → Text → Text → ℕ → Text → Bool
  unfolding is_bytes32 is_schema_version_1
  projection_is_valid p extension_key_hash authority_key_hash target_chain target_address =
      is_schema_version_1 p.schema_version
      && ltb 0 target_chain
      && is_address target_address
      && p.chain_id == target_chain
      && is_address p.contract_address
      && text_eq (map to_lower p.contract_address) (map to_lower target_address)
      && is_bytes32 p.receipt_id
      && is_bytes32 p.event_hash
      && is_bytes32 p.previous_event_hash
      && is_bytes32 extension_key_hash
      && is_bytes32 authority_key_hash
      && not (text_eq extension_key_hash zero_hash)
      && (if is_authority_stage p.stage
          then not (text_eq authority_key_hash zero_hash)
          else text_eq authority_key_hash zero_hash)

  -- `createSubmissionReceiptRegistryAnchorRequestForTarget`; `none` where it throws.
  unfoldable pub create_anchor_request_for_target :
      ChainAnchorPayload → Text → Text → ℕ → Text → Option AnchorRequest
  unfolding projection_is_valid request_of
  create_anchor_request_for_target p extension_key_hash authority_key_hash chain target =
      if projection_is_valid p extension_key_hash authority_key_hash chain target
      then some (request_of p extension_key_hash authority_key_hash)
      else none
