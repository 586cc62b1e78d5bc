-- ===== src/Lifecycle/Claims.antt =====
-- packages/receipt-core/src/lifecycle.ts, `validateReceipt`: what a receipt claims of its events.
use submittedit.Common.{
  not, false, ◌&&◌, ◌⊎◌, inl, inr, Bool-cases, ◌≡◌, subst, arith, true, List, [], ◌∷◌, map, ℕ, suc,
}
use submittedit.Common.Lists.{All, any, get_last?}
use submittedit.Text.Order.{text_eq_iff}
use submittedit.Result.{ok, root, invert}
use submittedit.Value.{Value}
use submittedit.Host.{Host}
use submittedit.Types.{
  LifecycleStage, DerivedReceiptStatus, schema, event_hash, event_link, extension_signature,
  chain_anchor, authority_signature, LifecycleEventEnvelope, Receipt,
}
use submittedit.Types.Values.{envelope_value}
use submittedit.Schema.Envelope.{is_present}
use submittedit.Schema.State.{parse_receipt_structure}
use submittedit.Lifecycle.Status.{
  check_passed, is_verified, require_passed_check, derive_receipt_status,
}
use submittedit.Lifecycle.Chain.{EventChainResult, validate_event_chain}
use submittedit.Lifecycle.Receipts.{
  lifecycle_stage_eq, status_eq, is_terminal, require_if, has_authority_signature,
  validate_receipt_event, validate_receipt_events, require_verification, validate_claims,
  validate_receipt,
}

-- What a receipt with the verified result must have passed.
pub record IsBacked (r : Receipt) : Type 0 where
  pub schema_passed : check_passed r.verification schema ≡ true
  pub hash_passed : check_passed r.verification event_hash ≡ true
  pub link_passed : check_passed r.verification event_link ≡ true
  pub extension_passed :
      (any (λ e. is_present e.extension_signature) r.events
        && not (check_passed r.verification extension_signature))
      ≡ false
  pub anchor_passed :
      (any (λ e. is_present e.chain_anchor) r.events
        && not (check_passed r.verification chain_anchor))
      ≡ false
  pub authority_passed :
      (is_terminal r.current_stage && not (check_passed r.verification authority_signature)) ≡ false

-- The receipt tells of its events what their chain says.
pub record IsHonest (host : Host) (r : Receipt) : Type 0 where
  pub chain : EventChainResult
  pub is_chain : validate_event_chain host (map envelope_value r.events) ≡ ok chain
  pub stage_is_last : r.current_stage ≡ chain.current_stage
  pub status_follows : r.derived_status ≡ derive_receipt_status r.current_stage r.verification
  pub is_signed :
      (is_terminal r.current_stage && not (has_authority_signature (get_last? r.events))) ≡ false
  pub one_receipt :
      All
        (λ e. (e.core.receipt_id ≡ r.receipt_id) × (e.core.schema_version ≡ r.schema_version))
        r.events
  pub is_backed : (is_verified r.verification.result ≡ false) ⊎ IsBacked r

lifecycle_stage_eq_iff : (a b : LifecycleStage) → lifecycle_stage_eq a b ≡ true → a ≡ b
lifecycle_stage_eq_iff a b h = ground arith

status_eq_iff : (a b : DerivedReceiptStatus) → status_eq a b ≡ true → a ≡ b
status_eq_iff a b h = ground arith

require_verification-IsBacked :
    (r : Receipt) → require_verification r r.current_stage ≡ ok tt → IsBacked r
unfolding require_verification require_passed_check
require_verification-IsBacked r h = record {
  schema_passed = ground arith;
  hash_passed = ground arith;
  link_passed = ground arith;
  extension_passed = ground arith;
  anchor_passed = ground arith;
  authority_passed = ground arith;
}

backed_lem :
    (r : Receipt)
    → require_if (is_verified r.verification.result) (require_verification r r.current_stage)
      ≡ ok tt
    → (is_verified r.verification.result ≡ false) ⊎ IsBacked r
backed_lem r h = elim (Bool-cases (is_verified r.verification.result)) [
  | inl e ↦ inr (
      require_verification-IsBacked r
        (subst (λ b. require_if b (require_verification r r.current_stage) ≡ ok tt) e h))
  | inr e ↦ inl e
]

module _ (host : Host) where
  one_receipt_lem :
      (r : Receipt) (i : ℕ) (es : List LifecycleEventEnvelope)
      → validate_receipt_events host r i es ≡ ok tt
      → All
          (λ e. (e.core.receipt_id ≡ r.receipt_id) × (e.core.schema_version ≡ r.schema_version))
          es
  unfolding validate_receipt_events validate_receipt_event
  one_receipt_lem r i [] h = tt
  one_receipt_lem r i (e ∷ es) h = (
    (
      (text_eq_iff e.core.receipt_id r.receipt_id).0 (ground arith),
      (text_eq_iff e.core.schema_version r.schema_version).0 (ground arith),
    ),
    one_receipt_lem r (suc i) es (ground arith),
  )

  claims_lem :
      (r : Receipt) (c : EventChainResult)
      → validate_claims r c ≡ ok tt
      → (r.current_stage ≡ c.current_stage)
        × (r.derived_status ≡ derive_receipt_status c.current_stage r.verification)
        × ((is_terminal c.current_stage && not (has_authority_signature (get_last? r.events)))
            ≡ false)
        × (require_if (is_verified r.verification.result) (require_verification r c.current_stage)
            ≡ ok tt)
  unfolding validate_claims
  claims_lem r c h = (
    lifecycle_stage_eq_iff r.current_stage c.current_stage (ground arith),
    status_eq_iff r.derived_status (derive_receipt_status c.current_stage r.verification)
        (ground arith),
    ground arith,
    ground arith,
  )

  honest_lem :
      (r : Receipt) (c : EventChainResult)
      → validate_event_chain host (map envelope_value r.events) ≡ ok c
      → validate_receipt_events host r 0 r.events ≡ ok tt
      → validate_claims r c ≡ ok tt
      → IsHonest host r
  unfolding require_verification
  honest_lem r c chained shared claimed =
      let (stage_eq, status, signed, backed) = claims_lem r c claimed in
      record {
        chain = c;
        is_chain = chained;
        stage_is_last = stage_eq;
        status_follows = rw stage_eq status;
        is_signed = rw stage_eq signed;
        one_receipt = one_receipt_lem r 0 r.events shared;
        is_backed = backed_lem r (rw stage_eq backed);
      }

  -- If `validateReceipt` returns a receipt, then the chain of its events is valid, its stage is the
  -- chain's last stage, its status is the one derived from this stage and its verification, a final
  -- event has an authority's signature, all events have its identifier and version, and, where its
  -- verification's result is `VERIFIED`, every check that applies to it has passed.
  pub validate_receipt-IsHonest :
      (input : Value) (r : Receipt) → validate_receipt host input ≡ ok r → IsHonest host r
  unfolding validate_receipt
  validate_receipt-IsHonest input r h =
      invert (parse_receipt_structure host input root) _ h λ s read h.
        invert (validate_event_chain host (map envelope_value s.events)) _ h λ c chained h.
          subst (IsHonest host) (ground arith)
            (honest_lem s c chained (ground arith) (ground arith))
