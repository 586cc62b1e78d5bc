-- ===== src/Lifecycle/Decision.antt =====
-- packages/receipt-core/src/lifecycle.ts, `deriveReceiptStatus`, against what an authority's decision
-- requires.
use submittedit.Common.{◌≡◌, ◌↔◌, ◌⊎◌, true, ◌&&◌, List, [], ◌∷◌, arith}
use submittedit.Common.Lists.{any}
use submittedit.Types.{
  authority_accepted, authority_rejected, LifecycleStage, at, accepted, rejected,
  VerificationCheckName, schema, event_hash, event_link, authority_signature, passed,
  VerificationCheck, verified, VerificationState,
}
use submittedit.Schema.State.{has_passed}
use submittedit.Lifecycle.Status.{
  check_name_eq, check_passed, has_structural_verification, derive_receipt_status,
}

-- Some recorded check has the name and has passed.
abbrev pub SomePassed : VerificationCheckName → List VerificationCheck → Type 0
SomePassed name [] = ⊥
SomePassed name (c ∷ cs) = ((c.check ≡ name) × (c.result ≡ passed)) ⊎ SomePassed name cs

check_name_eq_iff : (a b : VerificationCheckName) → (check_name_eq a b ≡ true) ↔ (a ≡ b)
check_name_eq_iff a b = ground arith

any_sound :
    (name : VerificationCheckName) (cs : List VerificationCheck)
    → any (λ c. check_name_eq c.check name && has_passed c) cs ≡ true
    → SomePassed name cs
any_sound name [] h = cc
any_sound name (c ∷ cs) h = ground (arith, check_name_eq_iff c.check name, any_sound name cs)

any_complete :
    (name : VerificationCheckName) (cs : List VerificationCheck)
    → SomePassed name cs
    → any (λ c. check_name_eq c.check name && has_passed c) cs ≡ true
any_complete name [] h = absurd h
any_complete name (c ∷ cs) h = ground (arith, check_name_eq_iff c.check name, any_complete name cs)

-- `checkPassed` holds of a name exactly when some check of that name has passed.
pub check_passed_iff :
    (v : VerificationState) (name : VerificationCheckName)
    → (check_passed v name ≡ true) ↔ SomePassed name v.checks
unfolding check_passed
check_passed_iff v name = (any_sound name v.checks, any_complete name v.checks)

-- What an authority's decision needs before it counts.
pub record IsDecided (v : VerificationState) : Type 0 where
  pub is_verified : v.result ≡ verified
  pub schema_passed : SomePassed schema v.checks
  pub hash_passed : SomePassed event_hash v.checks
  pub link_passed : SomePassed event_link v.checks
  pub authority_passed : SomePassed authority_signature v.checks

module _ (v : VerificationState) where
  IsDecided-sound :
      (has_structural_verification v && check_passed v authority_signature) ≡ true → IsDecided v
  unfolding has_structural_verification
  IsDecided-sound h = record {
    is_verified = ground arith;
    schema_passed = (check_passed_iff v schema).0 (ground arith);
    hash_passed = (check_passed_iff v event_hash).0 (ground arith);
    link_passed = (check_passed_iff v event_link).0 (ground arith);
    authority_passed = (check_passed_iff v authority_signature).0 (ground arith);
  }

  IsDecided-complete :
      IsDecided v → (has_structural_verification v && check_passed v authority_signature) ≡ true
  unfolding has_structural_verification
  IsDecided-complete d =
      let a = (check_passed_iff v schema).1 d.schema_passed in
      let b = (check_passed_iff v event_hash).1 d.hash_passed in
      let c = (check_passed_iff v event_link).1 d.link_passed in
      let e = (check_passed_iff v authority_signature).1 d.authority_passed in
      let f = d.is_verified in ground arith

  accepted_sound :
      (s : LifecycleStage)
      → derive_receipt_status s v ≡ accepted
      → (s ≡ at authority_accepted) × IsDecided v
  unfolding derive_receipt_status
  accepted_sound s h = (ground arith, IsDecided-sound (ground arith))

  rejected_sound :
      (s : LifecycleStage)
      → derive_receipt_status s v ≡ rejected
      → (s ≡ at authority_rejected) × IsDecided v
  unfolding derive_receipt_status
  rejected_sound s h = (ground arith, IsDecided-sound (ground arith))

  -- The derived status is `ACCEPTED` exactly when the stage is the authority's acceptance, the
  -- verification's result is `VERIFIED`, and the checks of the schema, the hashes, the links and the
  -- authority's signature have passed; and `REJECTED` exactly when the stage is the authority's
  -- rejection and the same holds.
  pub derive_receipt_status_iff :
      (s : LifecycleStage)
      → ((derive_receipt_status s v ≡ accepted) ↔ ((s ≡ at authority_accepted) × IsDecided v))
        × ((derive_receipt_status s v ≡ rejected) ↔ ((s ≡ at authority_rejected) × IsDecided v))
  unfolding derive_receipt_status
  derive_receipt_status_iff s = (
    (
      accepted_sound s,
      λ (e, d). let yes' = IsDecided-complete d in let r = d.is_verified in ground arith,
    ),
    (
      rejected_sound s,
      λ (e, d). let yes' = IsDecided-complete d in let r = d.is_verified in ground arith,
    ),
  )
