-- ===== src/Protocol.antt =====
-- packages/receipt-core/src/protocol.ts: event hashes, event envelopes, and the payloads that are
-- signed and anchored.
pub mod Payloads
use submittedit.Common.{ℕ, pos, not, Option, none, some}
use submittedit.Text.{Text, u, text_eq}
use submittedit.Result.{
  Result, ok, throw, throw_if, ◌>>=◌, ◌>>◌, root, prop, event_hash_mismatch,
  authority_payload_stage,
}
use submittedit.Value.{Value, str, num, obj, end, field}
use submittedit.Host.{Host}
use submittedit.Types.{
  HashHex, EventStage, Outcome, EventDetails, acceptance, rejection, AuthorityAcknowledgment,
  LifecycleEventCore, stage, LifecycleEventEnvelope,
}
use submittedit.Types.EnumNames.{stage_name, outcome_name}
use submittedit.Types.Values.{core_value, envelope_value}
use submittedit.Normalize.{normalize_address, normalize_positive_safe_integer}
use submittedit.Schema.Core.{parse_event_core}
use submittedit.Schema.Envelope.{parse_event_envelope}
use submittedit.Hash
use submittedit.Hash.{hash_canonical}

pub record ExtensionSignaturePayload : Type 0 where
  pub event_hash : HashHex
  pub receipt_id : HashHex
  pub schema_version : Text
  pub stage : EventStage

pub record AuthoritySignaturePayload : Type 0 where
  pub authority_id : Text
  pub event_hash : HashHex
  pub outcome : Outcome
  pub receipt_id : HashHex
  pub schema_version : Text
  pub stage : EventStage

pub record ChainAnchorPayload : Type 0 where
  pub chain_id : ℕ
  pub contract_address : Text
  pub event_hash : HashHex
  pub previous_event_hash : HashHex
  pub receipt_id : HashHex
  pub schema_version : Text
  pub stage : EventStage

unfoldable pub extension_payload_value : ExtensionSignaturePayload → Value
extension_payload_value p = obj (
    field (u "eventHash") (str p.event_hash) (
      field (u "receiptId") (str p.receipt_id) (
        field (u "schemaVersion") (str p.schema_version)
          (field (u "stage") (str (stage_name p.stage)) end))))

unfoldable pub authority_payload_value : AuthoritySignaturePayload → Value
authority_payload_value p = obj (
    field (u "authorityId") (str p.authority_id) (
      field (u "eventHash") (str p.event_hash) (
        field (u "outcome") (str (outcome_name p.outcome)) (
          field (u "receiptId") (str p.receipt_id) (
            field (u "schemaVersion") (str p.schema_version)
              (field (u "stage") (str (stage_name p.stage)) end))))))

unfoldable pub anchor_payload_value : ChainAnchorPayload → Value
anchor_payload_value p = obj (
    field (u "chainId") (num (pos p.chain_id)) (
      field (u "contractAddress") (str p.contract_address) (
        field (u "eventHash") (str p.event_hash) (
          field (u "previousEventHash") (str p.previous_event_hash) (
            field (u "receiptId") (str p.receipt_id) (
              field (u "schemaVersion") (str p.schema_version)
                (field (u "stage") (str (stage_name p.stage)) end)))))))

-- The acknowledgment of an authority event.
abbrev pub acknowledgment_of : EventDetails → Option AuthorityAcknowledgment
acknowledgment_of (acceptance a) = some a
acknowledgment_of (rejection a) = some a
acknowledgment_of _ = none

module _ (host : Host) where
  unfoldable pub canonical_event_core : Value → Result LifecycleEventCore
  canonical_event_core input = parse_event_core host input (prop root "core")

  unfoldable pub hash_event_core : Value → Result HashHex
  hash_event_core input = do
    core ← parse_event_core host input (prop root "core")
    hash_canonical host Hash.event (core_value core)

  unfoldable pub parse_hashed_event_envelope :
      LifecycleEventEnvelope → Result LifecycleEventEnvelope
  parse_hashed_event_envelope input = do
    event ← parse_event_envelope host (envelope_value input) (prop root "event")
    recomputed ← hash_event_core (core_value event.core)
    throw_if (not (text_eq event.event_hash recomputed)) event_hash_mismatch (prop root "eventHash")
    ok event

  unfoldable pub create_event_envelope : Value → Result LifecycleEventEnvelope
  create_event_envelope input = do
    core ← parse_event_core host input (prop root "core")
    hash ← hash_event_core (core_value core)
    ok (record {
      authority_signature = none;
      chain_anchor = none;
      core = core;
      event_hash = hash;
      extension_signature = none;
    })

  unfoldable pub create_extension_signature_payload :
      LifecycleEventEnvelope → Result ExtensionSignaturePayload
  create_extension_signature_payload input = do
    event ← parse_hashed_event_envelope input
    ok (record {
      event_hash = event.event_hash;
      receipt_id = event.core.receipt_id;
      schema_version = event.core.schema_version;
      stage = stage event.core;
    })

  unfoldable pub hash_extension_signature_payload : LifecycleEventEnvelope → Result HashHex
  hash_extension_signature_payload input = do
    payload ← create_extension_signature_payload input
    hash_canonical host Hash.extension_signature (extension_payload_value payload)

  -- The end of `createAuthoritySignaturePayload`, with the acknowledgment that the stage gives.
  unfoldable pub authority_payload_of :
      LifecycleEventEnvelope → Option AuthorityAcknowledgment → Result AuthoritySignaturePayload
  authority_payload_of event none = throw authority_payload_stage (prop (prop root "core") "stage")
  authority_payload_of event (some a) = ok (record {
    authority_id = a.authority_id;
    event_hash = event.event_hash;
    outcome = a.outcome;
    receipt_id = event.core.receipt_id;
    schema_version = event.core.schema_version;
    stage = stage event.core;
  })

  unfoldable pub create_authority_signature_payload :
      LifecycleEventEnvelope → Result AuthoritySignaturePayload
  unfolding authority_payload_of
  create_authority_signature_payload input = do
    event ← parse_hashed_event_envelope input
    authority_payload_of event (acknowledgment_of event.core.details)

  unfoldable pub hash_authority_signature_payload : LifecycleEventEnvelope → Result HashHex
  hash_authority_signature_payload input = do
    payload ← create_authority_signature_payload input
    hash_canonical host Hash.authority_signature (authority_payload_value payload)

  unfoldable pub create_chain_anchor_payload :
      LifecycleEventEnvelope → Value → Value → Result ChainAnchorPayload
  create_chain_anchor_payload input chain_id contract_address = do
    event ← parse_hashed_event_envelope input
    chain ← normalize_positive_safe_integer chain_id (prop root "chainId")
    address ← normalize_address contract_address (prop root "contractAddress")
    ok (record {
      chain_id = chain;
      contract_address = address;
      event_hash = event.event_hash;
      previous_event_hash = event.core.previous_event_hash;
      receipt_id = event.core.receipt_id;
      schema_version = event.core.schema_version;
      stage = stage event.core;
    })

  unfoldable pub hash_chain_anchor_payload : LifecycleEventEnvelope → Value → Value → Result HashHex
  hash_chain_anchor_payload input chain_id contract_address = do
    payload ← create_chain_anchor_payload input chain_id contract_address
    hash_canonical host Hash.chain_anchor (anchor_payload_value payload)
