-- ===== src/Lifecycle/Status.antt =====
-- packages/receipt-core/src/lifecycle.ts: `checkPassed`, `requirePassedCheck` and
-- `deriveReceiptStatus`.
use submittedit.Common.{Bool, true, false, not, ◌&&◌, if◌then◌else◌}
use submittedit.Common.Lists.{any}
use submittedit.Result.{Result, throw_if, JsonPath, missing_verification_check}
use submittedit.Types.{
  authority_accepted, authority_rejected, LifecycleStage, no_event, at, DerivedReceiptStatus,
  prepared, pending_acceptance, accepted, rejected, verification_failed, VerificationCheckName,
  decryption, schema, event_hash, event_link, extension_signature, authority_signature,
  chain_anchor, VerificationResult, verified, verification_failure, VerificationState,
}
use submittedit.Schema.State.{has_passed}

abbrev pub check_name_eq : VerificationCheckName → VerificationCheckName → Bool
check_name_eq decryption decryption = true
check_name_eq schema schema = true
check_name_eq event_hash event_hash = true
check_name_eq event_link event_link = true
check_name_eq extension_signature extension_signature = true
check_name_eq authority_signature authority_signature = true
check_name_eq chain_anchor chain_anchor = true
check_name_eq _ _ = false

unfoldable pub check_passed : VerificationState → VerificationCheckName → Bool
check_passed verification name =
    any (λ c. check_name_eq c.check name && has_passed c) verification.checks

unfoldable pub require_passed_check :
    VerificationState → VerificationCheckName → JsonPath → Result (Unit {0})
require_passed_check verification name path =
    throw_if (not (check_passed verification name)) missing_verification_check path

abbrev pub is_verified : VerificationResult → Bool
is_verified verified = true
is_verified _ = false

unfoldable pub has_structural_verification : VerificationState → Bool
has_structural_verification v =
    is_verified v.result
    && check_passed v schema
    && check_passed v event_hash
    && check_passed v event_link

abbrev is_failure : VerificationResult → Bool
is_failure verification_failure = true
is_failure _ = false

abbrev status_of_stage : LifecycleStage → VerificationState → DerivedReceiptStatus
status_of_stage no_event v = prepared
status_of_stage (at authority_accepted) v =
    if has_structural_verification v && check_passed v authority_signature
    then accepted
    else pending_acceptance
status_of_stage (at authority_rejected) v =
    if has_structural_verification v && check_passed v authority_signature
    then rejected
    else pending_acceptance
status_of_stage (at _) v = pending_acceptance

unfoldable pub derive_receipt_status : LifecycleStage → VerificationState → DerivedReceiptStatus
unfolding has_structural_verification
derive_receipt_status stage verification =
    if is_failure verification.result
    then verification_failed
    else status_of_stage stage verification
