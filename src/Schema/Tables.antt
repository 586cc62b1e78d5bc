-- ===== src/Schema/Tables.antt =====
-- The enumerations of packages/receipt-core/src/schema.ts as tables of names.
use submittedit.Common.{String, [], ◌∷◌, ◌++◌, map}
use submittedit.Text.{u}
use submittedit.Types.{
  Names, FormEncoding, urlencoded, multipart, text_plain, application_json, other_encoding,
  ValueControlType, text, textarea, hidden, checkbox, radio, select_one, select_multiple,
  FieldControlType, value_control, password, file, ExclusionReason, password_control,
  sensitive_hidden_token, autofill_secret, file_metadata_not_opted_in, explicitly_excluded,
  CheckResult, not_run, passed, failed, SubmissionTrigger, form_submit, request_observed,
  EvidenceType, confirmation_page, inline_message, redirect, download, Outcome, outcome_accepted,
  outcome_rejected, Signer, extension, authority, VerificationResult, not_verified, verified,
  verification_failure,
}

unfoldable pub form_encodings : Names FormEncoding
unfolding u
form_encodings =
    (u "APPLICATION_X_WWW_FORM_URLENCODED", urlencoded)
    ∷ (u "MULTIPART_FORM_DATA", multipart)
    ∷ (u "TEXT_PLAIN", text_plain)
    ∷ (u "APPLICATION_JSON", application_json)
    ∷ (u "OTHER", other_encoding)
    ∷ []

unfoldable pub value_control_types : Names ValueControlType
unfolding u
value_control_types =
    (u "TEXT", text)
    ∷ (u "TEXTAREA", textarea)
    ∷ (u "HIDDEN", hidden)
    ∷ (u "CHECKBOX", checkbox)
    ∷ (u "RADIO", radio)
    ∷ (u "SELECT_ONE", select_one)
    ∷ (u "SELECT_MULTIPLE", select_multiple)
    ∷ []

unfoldable pub field_control_types : Names FieldControlType
unfolding value_control_types
field_control_types =
    map (λ (n, t). (n, value_control t)) value_control_types
    ++ ((u "PASSWORD", password) ∷ (u "FILE", file) ∷ [])

unfoldable pub exclusion_reasons : Names ExclusionReason
unfolding u
exclusion_reasons =
    (u "PASSWORD", password_control)
    ∷ (u "SENSITIVE_HIDDEN_TOKEN", sensitive_hidden_token)
    ∷ (u "AUTOFILL_SECRET", autofill_secret)
    ∷ (u "FILE_METADATA_NOT_OPTED_IN", file_metadata_not_opted_in)
    ∷ (u "EXPLICITLY_EXCLUDED", explicitly_excluded)
    ∷ []

unfoldable pub verification_results : Names CheckResult
unfolding u
verification_results = (u "NOT_RUN", not_run) ∷ (u "PASSED", passed) ∷ (u "FAILED", failed) ∷ []

unfoldable pub submission_triggers : Names SubmissionTrigger
unfolding u
submission_triggers = (u "FORM_SUBMIT", form_submit) ∷ (u "REQUEST_OBSERVED", request_observed) ∷ []

unfoldable pub evidence_types : Names EvidenceType
unfolding u
evidence_types =
    (u "CONFIRMATION_PAGE", confirmation_page)
    ∷ (u "INLINE_MESSAGE", inline_message)
    ∷ (u "REDIRECT", redirect)
    ∷ (u "DOWNLOAD", download)
    ∷ []

unfoldable pub outcomes : Names Outcome
unfolding u
outcomes = (u "ACCEPTED", outcome_accepted) ∷ (u "REJECTED", outcome_rejected) ∷ []

unfoldable pub signers : Names Signer
unfolding u
signers = (u "EXTENSION", extension) ∷ (u "AUTHORITY", authority) ∷ []

unfoldable pub state_results : Names VerificationResult
unfolding u
state_results =
    (u "NOT_VERIFIED", not_verified)
    ∷ (u "VERIFIED", verified)
    ∷ (u "FAILED", verification_failure)
    ∷ []

-- A literal type with one value, such as an algorithm.
unfoldable pub only : String → Names (Unit {0})
unfolding u
only name = (u name, tt) ∷ []
