-- ===== src/Types/EnumNames.antt =====
-- The strings that stand for the values of the enumerations of packages/receipt-core/src/types.ts.
use submittedit.Text.{Text, u}
use submittedit.Types.Stages.{
  EventStage, attempted, site_confirmed, authority_accepted, authority_rejected, LifecycleStage,
  no_event, at, DerivedReceiptStatus, prepared, pending_acceptance, accepted, rejected,
  verification_failed, VerificationCheckName, decryption, schema, event_hash, event_link,
  extension_signature, authority_signature, chain_anchor,
}
use submittedit.Types.Capture.{
  FormEncoding, urlencoded, multipart, text_plain, application_json, other_encoding, text, textarea,
  hidden, checkbox, radio, select_one, select_multiple, FieldControlType, value_control, password,
  file, ExclusionReason, password_control, sensitive_hidden_token, autofill_secret,
  file_metadata_not_opted_in, explicitly_excluded,
}
use submittedit.Types.Events.{
  CheckResult, not_run, passed, failed, SubmissionTrigger, form_submit, request_observed,
  EvidenceType, confirmation_page, inline_message, redirect, download, Outcome, outcome_accepted,
  outcome_rejected, Signer, extension, authority, VerificationResult, not_verified, verified,
  verification_failure,
}

-- The members of `EVENT_STAGES`.
unfoldable pub stage_name : EventStage → Text
unfolding u
stage_name attempted = u "ATTEMPTED"
stage_name site_confirmed = u "SITE_CONFIRMED"
stage_name authority_accepted = u "AUTHORITY_ACCEPTED"
stage_name authority_rejected = u "AUTHORITY_REJECTED"

unfoldable pub lifecycle_stage_name : LifecycleStage → Text
unfolding u stage_name
lifecycle_stage_name no_event = u "NONE"
lifecycle_stage_name (at s) = stage_name s

-- The members of `DERIVED_RECEIPT_STATUSES`.
unfoldable pub status_name : DerivedReceiptStatus → Text
unfolding u
status_name prepared = u "PREPARED"
status_name pending_acceptance = u "PENDING_ACCEPTANCE"
status_name accepted = u "ACCEPTED"
status_name rejected = u "REJECTED"
status_name verification_failed = u "VERIFICATION_FAILED"

-- The members of `VERIFICATION_CHECK_NAMES`.
unfoldable pub check_name_text : VerificationCheckName → Text
unfolding u
check_name_text decryption = u "DECRYPTION"
check_name_text schema = u "SCHEMA"
check_name_text event_hash = u "EVENT_HASH"
check_name_text event_link = u "EVENT_LINK"
check_name_text extension_signature = u "EXTENSION_SIGNATURE"
check_name_text authority_signature = u "AUTHORITY_SIGNATURE"
check_name_text chain_anchor = u "CHAIN_ANCHOR"

-- The name of a control type in the records.
unfoldable pub control_type_name : FieldControlType → Text
unfolding u
control_type_name (value_control text) = u "TEXT"
control_type_name (value_control textarea) = u "TEXTAREA"
control_type_name (value_control hidden) = u "HIDDEN"
control_type_name (value_control checkbox) = u "CHECKBOX"
control_type_name (value_control radio) = u "RADIO"
control_type_name (value_control select_one) = u "SELECT_ONE"
control_type_name (value_control select_multiple) = u "SELECT_MULTIPLE"
control_type_name password = u "PASSWORD"
control_type_name file = u "FILE"

-- The members of `FormEncoding`.
unfoldable pub form_encoding_name : FormEncoding → Text
unfolding u
form_encoding_name urlencoded = u "APPLICATION_X_WWW_FORM_URLENCODED"
form_encoding_name multipart = u "MULTIPART_FORM_DATA"
form_encoding_name text_plain = u "TEXT_PLAIN"
form_encoding_name application_json = u "APPLICATION_JSON"
form_encoding_name other_encoding = u "OTHER"

-- The members of `ExclusionReason`.
unfoldable pub reason_name : ExclusionReason → Text
unfolding u
reason_name password_control = u "PASSWORD"
reason_name sensitive_hidden_token = u "SENSITIVE_HIDDEN_TOKEN"
reason_name autofill_secret = u "AUTOFILL_SECRET"
reason_name file_metadata_not_opted_in = u "FILE_METADATA_NOT_OPTED_IN"
reason_name explicitly_excluded = u "EXPLICITLY_EXCLUDED"

-- The members of `trigger`.
unfoldable pub trigger_name : SubmissionTrigger → Text
unfolding u
trigger_name form_submit = u "FORM_SUBMIT"
trigger_name request_observed = u "REQUEST_OBSERVED"

-- The members of `evidenceType`.
unfoldable pub evidence_name : EvidenceType → Text
unfolding u
evidence_name confirmation_page = u "CONFIRMATION_PAGE"
evidence_name inline_message = u "INLINE_MESSAGE"
evidence_name redirect = u "REDIRECT"
evidence_name download = u "DOWNLOAD"

-- The members of `outcome`.
unfoldable pub outcome_name : Outcome → Text
unfolding u
outcome_name outcome_accepted = u "ACCEPTED"
outcome_name outcome_rejected = u "REJECTED"

-- The members of `signer`.
unfoldable pub signer_name : Signer → Text
unfolding u
signer_name extension = u "EXTENSION"
signer_name authority = u "AUTHORITY"

-- The members of `VerificationCheckResult`.
unfoldable pub check_result_name : CheckResult → Text
unfolding u
check_result_name not_run = u "NOT_RUN"
check_result_name passed = u "PASSED"
check_result_name failed = u "FAILED"

-- The members of `VerificationState.result`.
unfoldable pub state_result_name : VerificationResult → Text
unfolding u
state_result_name not_verified = u "NOT_VERIFIED"
state_result_name verified = u "VERIFIED"
state_result_name verification_failure = u "FAILED"
