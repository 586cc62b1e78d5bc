-- ===== src/Contract/Requests.antt =====
-- packages/contract-client/src/index.ts: stages as numbers and back, and what an anchor request holds.
use submittedit.Common.{
  ℕ, zero, suc, ◌≡◌, ◌≢◌, ◌↔◌, refl, ap, ◌∙◌, subst, not, ◌&&◌, Bool, true, false, none, some, map,
  ltb, ◌==◌, arith, if◌then◌else◌,
}
use submittedit.Text.{Text, text_eq, to_lower}
use submittedit.Text.Order.{text_eq_iff, text_eq-eq-false}
use submittedit.Types.{
  EventStage, attempted, site_confirmed, authority_accepted, authority_rejected, at, zero_hash,
}
use submittedit.Protocol.{ChainAnchorPayload}
use submittedit.Contract.{
  to_contract_receipt_stage, from_contract_receipt_stage, is_bytes32, is_schema_version_1,
  is_authority_stage, AnchorRequest, projection_is_valid, request_of,
  create_anchor_request_for_target,
}

-- The number `n` is read as the stage of an event exactly when it is that stage's number.
pub from_contract_receipt_stage_iff :
    (n : ℕ) (s : EventStage)
    → (from_contract_receipt_stage n ≡ some (at s)) ↔ (n ≡ to_contract_receipt_stage s)
unfolding from_contract_receipt_stage to_contract_receipt_stage
from_contract_receipt_stage_iff n s =
    (stage_number n s, λ e. ap from_contract_receipt_stage e ∙ number_stage s)
  where
    number_stage :
        (s : EventStage) → from_contract_receipt_stage (to_contract_receipt_stage s) ≡ some (at s)
    number_stage s = ground arith

    stage_number :
        (n : ℕ) (s : EventStage)
        → from_contract_receipt_stage n ≡ some (at s)
        → n ≡ to_contract_receipt_stage s
    stage_number zero s h = cc
    stage_number (suc zero) s h = ground arith
    stage_number (suc (suc zero)) s h = ground arith
    stage_number (suc (suc (suc zero))) s h = ground arith
    stage_number (suc (suc (suc (suc zero)))) s h = ground arith
    stage_number (suc (suc (suc (suc (suc n))))) s h = cc

-- The key of an authority: not zero for a decision of an authority, zero for the other stages.
abbrev pub FitsStage : EventStage → Text → Type 0
FitsStage authority_accepted key = key ≢ zero_hash
FitsStage authority_rejected key = key ≢ zero_hash
FitsStage _ key = key ≡ zero_hash

-- What a request holds of the projection, the keys and the target.
pub record IsAnchorOf (p : ChainAnchorPayload) (key authority_key : Text) (chain : ℕ)
    (target : Text) (r : AnchorRequest) : Type 0 where
  pub same_receipt : r.receipt_id ≡ p.receipt_id
  pub same_event : r.event_hash ≡ p.event_hash
  pub same_previous : r.previous_event_hash ≡ p.previous_event_hash
  pub same_version : r.schema_version ≡ p.schema_version
  pub key_set : r.extension_key_hash ≡ key
  pub key_nonzero : key ≢ zero_hash
  pub authority_set : r.authority_key_hash ≡ authority_key
  pub authority_fits : FitsStage p.stage authority_key
  pub on_chain : r.chain_id ≡ chain
  pub at_contract : r.address ≡ p.contract_address
  pub at_target : map to_lower r.address ≡ map to_lower target
  pub stage_read : from_contract_receipt_stage r.stage ≡ some (at p.stage)
  pub receipt_is_bytes32 : is_bytes32 r.receipt_id ≡ true
  pub event_is_bytes32 : is_bytes32 r.event_hash ≡ true
  pub previous_is_bytes32 : is_bytes32 r.previous_event_hash ≡ true
  pub key_is_bytes32 : is_bytes32 r.extension_key_hash ≡ true
  pub authority_is_bytes32 : is_bytes32 r.authority_key_hash ≡ true

-- The tests that a valid projection passes.
record IsPicked (d f g h i j k : Bool) (l m : Bool) : Type 0 where
  same_chain : d ≡ true
  same_address : f ≡ true
  receipt_hash : g ≡ true
  event_digest : h ≡ true
  previous_hash : i ≡ true
  key_hash : j ≡ true
  authority_hash : k ≡ true
  key_zero : l ≡ false
  authority_zero : m ≡ true

picked :
    (a b c d e f g h i j k l m : Bool)
    → (a && b && c && d && e && f && g && h && i && j && k && not l && m) ≡ true
    → IsPicked d f g h i j k l m
picked a b c d e f g h i j k l m q = record {
  same_chain = ground arith;
  same_address = ground arith;
  receipt_hash = ground arith;
  event_digest = ground arith;
  previous_hash = ground arith;
  key_hash = ground arith;
  authority_hash = ground arith;
  key_zero = ground arith;
  authority_zero = ground arith;
}

made_as :
    (b : Bool) (made r : AnchorRequest)
    → (if b then some made else none) ≡ some r
    → (b ≡ true) × (made ≡ r)
made_as true made r h = (refl, cc)
made_as false made r h = cc

authority_key-FitsStage :
    (s : EventStage) (key : Text)
    → (if is_authority_stage s then not (text_eq key zero_hash) else text_eq key zero_hash) ≡ true
    → FitsStage s key
authority_key-FitsStage attempted key h = (text_eq_iff key zero_hash).0 h
authority_key-FitsStage site_confirmed key h = (text_eq_iff key zero_hash).0 h
authority_key-FitsStage authority_accepted key h = text_eq-eq-false key zero_hash (ground arith)
authority_key-FitsStage authority_rejected key h = text_eq-eq-false key zero_hash (ground arith)

equal_numbers : (a b : ℕ) → (a == b) ≡ true → a ≡ b
equal_numbers a b h = ground arith

-- If `createSubmissionReceiptRegistryAnchorRequestForTarget` returns a request, then it anchors the
-- projection's event of the projection's receipt and version, after its previous event, for the given
-- key, which is not zero, and the given key of an authority, which is zero exactly where the stage is
-- not an authority's decision; it goes to the projection's contract, which has the target's address
-- up to case, on the target's chain; all its five hashes are 32 bytes, and its number of a stage is
-- read as the projection's stage.
pub create_anchor_request_for_target-IsAnchorOf :
    (is_address : Text → Bool) (p : ChainAnchorPayload) (key authority_key : Text) (chain : ℕ)
    (target : Text) (r : AnchorRequest)
    → create_anchor_request_for_target is_address p key authority_key chain target ≡ some r
    → IsAnchorOf p key authority_key chain target r
unfolding create_anchor_request_for_target request_of projection_is_valid
create_anchor_request_for_target-IsAnchorOf is_address p key authority_key chain target r made =
    let (valid, same) = made_as _ (request_of p key authority_key) r made in
    let tests =
      picked (is_schema_version_1 p.schema_version) (ltb 0 chain) (is_address target)
        (p.chain_id == chain) (is_address p.contract_address)
        (text_eq (map to_lower p.contract_address) (map to_lower target)) (is_bytes32 p.receipt_id)
        (is_bytes32 p.event_hash) (is_bytes32 p.previous_event_hash) (is_bytes32 key)
        (is_bytes32 authority_key) (text_eq key zero_hash) _ valid in
    subst (IsAnchorOf p key authority_key chain target) same (record {
      same_receipt = refl;
      same_event = refl;
      same_previous = refl;
      same_version = refl;
      key_set = refl;
      key_nonzero = text_eq-eq-false key zero_hash tests.key_zero;
      authority_set = refl;
      authority_fits = authority_key-FitsStage p.stage authority_key tests.authority_zero;
      on_chain = equal_numbers p.chain_id chain tests.same_chain;
      at_contract = refl;
      at_target = (text_eq_iff _ _).0 tests.same_address;
      stage_read =
          (from_contract_receipt_stage_iff (to_contract_receipt_stage p.stage) p.stage).1 refl;
      receipt_is_bytes32 = tests.receipt_hash;
      event_is_bytes32 = tests.event_digest;
      previous_is_bytes32 = tests.previous_hash;
      key_is_bytes32 = tests.key_hash;
      authority_is_bytes32 = tests.authority_hash;
    })
