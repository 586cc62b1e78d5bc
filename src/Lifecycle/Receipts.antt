-- ===== src/Lifecycle/Receipts.antt =====
-- packages/receipt-core/src/lifecycle.ts: `validateEnvelopePayloads`, `validateReceipt` and
-- `createReceipt`.
use submittedit.Common.{
  ℕ, suc, Bool, true, false, not, ◌&&◌, Option, none, some, List, [], ◌∷◌, map,
}
use submittedit.Common.Lists.{any, get_last?}
use submittedit.Text.{Text, text_eq}
use submittedit.Result.{
  Result, ok, throw_if, ◌>>=◌, ◌>>◌, JsonPath, root, prop, index, map_indexed,
  extension_key_mismatch, signature_payload_mismatch, receipt_id_mismatch, schema_version_mismatch,
  claimed_stage_mismatch, claimed_status_mismatch, missing_authority_signature,
}
use submittedit.Value.{Value}
use submittedit.Host.{Host}
use submittedit.Types.{
  LifecycleStage, no_event, at, DerivedReceiptStatus, prepared, pending_acceptance, accepted,
  rejected, verification_failed, schema, event_hash, event_link, extension_signature,
  authority_signature, chain_anchor, SignatureEnvelope, LifecycleEventEnvelope, Receipt,
  ReceiptInput,
}
use submittedit.Types.Values.{envelope_value, receipt_value}
use submittedit.Schema.Envelope.{parse_event_envelope, is_authority_stage, is_present}
use submittedit.Schema.State.{parse_receipt_structure}
use submittedit.Protocol.{hash_extension_signature_payload, hash_authority_signature_payload}
use submittedit.Lifecycle.Transitions.{stage_eq}
use submittedit.Lifecycle.Status.{require_passed_check, is_verified, derive_receipt_status}
use submittedit.Lifecycle.Chain.{EventChainResult, validate_event_chain}

abbrev pub lifecycle_stage_eq : LifecycleStage → LifecycleStage → Bool
lifecycle_stage_eq no_event no_event = true
lifecycle_stage_eq (at a) (at b) = stage_eq a b
lifecycle_stage_eq _ _ = false

abbrev pub status_eq : DerivedReceiptStatus → DerivedReceiptStatus → Bool
status_eq prepared prepared = true
status_eq pending_acceptance pending_acceptance = true
status_eq accepted accepted = true
status_eq rejected rejected = true
status_eq verification_failed verification_failed = true
status_eq _ _ = false

abbrev pub is_terminal : LifecycleStage → Bool
is_terminal no_event = false
is_terminal (at s) = is_authority_stage s

-- `chain.receiptId && chain.receiptId !== receipt.receiptId`.
abbrev pub names_another : Option Text → Text → Bool
names_another none id = false
names_another (some chain_id) id = not (text_eq chain_id id)

abbrev pub has_authority_signature : Option LifecycleEventEnvelope → Bool
has_authority_signature none = false
has_authority_signature (some e) = is_present e.authority_signature

-- `if (test) requirePassedCheck(…)`.
abbrev pub require_if : Bool → Result (Unit {0}) → Result (Unit {0})
require_if true r = r
require_if false r = ok tt

module _ (host : Host) where
  unfoldable pub validate_extension_payload :
      LifecycleEventEnvelope → Option SignatureEnvelope → Text → JsonPath → Result (Unit {0})
  validate_extension_payload event none key_id path = ok tt
  validate_extension_payload event (some s) key_id path = do
    throw_if (not (text_eq s.key_id key_id)) extension_key_mismatch
        (prop (prop path "extensionSignature") "keyId")
    payload ← hash_extension_signature_payload host event
    throw_if (not (text_eq s.payload_hash payload)) signature_payload_mismatch
        (prop (prop path "extensionSignature") "payloadHash")

  unfoldable pub validate_authority_payload :
      LifecycleEventEnvelope → Option SignatureEnvelope → JsonPath → Result (Unit {0})
  validate_authority_payload event none path = ok tt
  validate_authority_payload event (some s) path = do
    payload ← hash_authority_signature_payload host event
    throw_if (not (text_eq s.payload_hash payload)) signature_payload_mismatch
        (prop (prop path "authoritySignature") "payloadHash")

  unfoldable pub validate_envelope_payloads :
      LifecycleEventEnvelope → Text → JsonPath → Result (Unit {0})
  validate_envelope_payloads event key_id path = do
    validate_extension_payload event event.extension_signature key_id path
    validate_authority_payload event event.authority_signature path

  -- One round of the loop over `receipt.events.entries()`.
  unfoldable pub validate_receipt_event :
      Receipt → LifecycleEventEnvelope → JsonPath → Result (Unit {0})
  validate_receipt_event receipt event path = do
    throw_if (not (text_eq event.core.receipt_id receipt.receipt_id)) receipt_id_mismatch
        (prop (prop path "core") "receiptId")
    throw_if (not (text_eq event.core.schema_version receipt.schema_version))
        schema_version_mismatch (prop (prop path "core") "schemaVersion")
    validate_envelope_payloads event receipt.extension_public_key.key_id path

  unfoldable pub validate_receipt_events :
      Receipt → ℕ → List LifecycleEventEnvelope → Result (Unit {0})
  validate_receipt_events receipt i [] = ok tt
  validate_receipt_events receipt i (event ∷ events) = do
    validate_receipt_event receipt event (index (prop root "events") i)
    validate_receipt_events receipt (suc i) events

-- The last part of `validateReceipt`: what a `VERIFIED` receipt requires.
unfoldable pub require_verification : Receipt → LifecycleStage → Result (Unit {0})
require_verification receipt current_stage = do
  let path = prop (prop root "verification") "checks"
  require_passed_check receipt.verification schema path
  require_passed_check receipt.verification event_hash path
  require_passed_check receipt.verification event_link path
  require_if (any (λ e. is_present e.extension_signature) receipt.events)
      (require_passed_check receipt.verification extension_signature path)
  require_if (any (λ e. is_present e.chain_anchor) receipt.events)
      (require_passed_check receipt.verification chain_anchor path)
  require_if (is_terminal current_stage)
      (require_passed_check receipt.verification authority_signature path)

-- What `validateReceipt` tests once the chain is known.
unfoldable pub validate_claims : Receipt → EventChainResult → Result (Unit {0})
unfolding require_verification
validate_claims receipt chain = do
  throw_if (not (lifecycle_stage_eq receipt.current_stage chain.current_stage))
      claimed_stage_mismatch (prop root "currentStage")
  throw_if
      (not (
        status_eq receipt.derived_status
          (derive_receipt_status chain.current_stage receipt.verification)))
      claimed_status_mismatch (prop root "derivedStatus")
  throw_if
      (is_terminal chain.current_stage && not (has_authority_signature (get_last? receipt.events)))
      missing_authority_signature (prop root "events")
  require_if (is_verified receipt.verification.result)
      (require_verification receipt chain.current_stage)

module _ (host : Host) where
  unfoldable pub validate_receipt : Value → Result Receipt
  validate_receipt input = do
    receipt ← parse_receipt_structure host input root
    chain ← validate_event_chain host (map envelope_value receipt.events)
    throw_if (names_another chain.receipt_id receipt.receipt_id) receipt_id_mismatch
        (prop root "receiptId")
    validate_receipt_events host receipt 0 receipt.events
    validate_claims receipt chain
    ok receipt

  unfoldable pub create_receipt : ReceiptInput → Result Receipt
  create_receipt input = do
    events ←
        map_indexed (parse_event_envelope host) (prop root "events")
          (map envelope_value input.events)
    chain ← validate_event_chain host (map envelope_value events)
    let receipt : Receipt = record {
      created_at = input.created_at;
      current_stage = chain.current_stage;
      derived_status = derive_receipt_status chain.current_stage input.verification;
      events = events;
      extension_public_key = input.extension_public_key;
      receipt_id = input.receipt_id;
      schema_version = input.schema_version;
      verification = input.verification;
    }
    validate_receipt (receipt_value receipt)
