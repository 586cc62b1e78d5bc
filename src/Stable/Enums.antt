-- ===== src/Stable/Enums.antt =====
-- packages/receipt-core/src/schema.ts, `parseEnum`: the names of enumeration values, read again.
use submittedit.Common.{◌≡◌, refl, arith, some}
use submittedit.Text.{Text, text_eq}
use submittedit.Result.{Result, ok, JsonPath}
use submittedit.Value.{Value, str, Fields, get}
use submittedit.Value.Read.{parse_enum, parse_optional}
use submittedit.Types.{
  EventStage, attempted, site_confirmed, authority_accepted, authority_rejected, event_stages,
  LifecycleStage, no_event, at, lifecycle_stages, DerivedReceiptStatus, prepared,
  derived_receipt_statuses, VerificationCheckName, decryption, verification_check_names,
  FormEncoding, urlencoded, text, textarea, hidden, checkbox, radio, select_one, select_multiple,
  FieldControlType, value_control, password, file, ExclusionReason, password_control, CheckResult,
  not_run, SubmissionTrigger, form_submit, EvidenceType, confirmation_page, Outcome,
  outcome_accepted, Signer, extension, VerificationResult, not_verified,
}
use submittedit.Types.EnumNames.{
  stage_name, lifecycle_stage_name, status_name, check_name_text, control_type_name,
  form_encoding_name, reason_name, trigger_name, evidence_name, outcome_name, signer_name,
  check_result_name, state_result_name,
}
use submittedit.Schema.Tables.{
  form_encodings, field_control_types, exclusion_reasons, verification_results, submission_triggers,
  evidence_types, outcomes, signers, state_results,
}

pub parse-stage_name :
    (e : EventStage) (q : JsonPath) → parse_enum (str (stage_name e)) event_stages q ≡ ok e
unfolding parse_enum stage_name event_stages text_eq
parse-stage_name attempted q = refl
parse-stage_name _ q = refl

pub parse-lifecycle_stage_name :
    (e : LifecycleStage) (q : JsonPath)
    → parse_enum (str (lifecycle_stage_name e)) lifecycle_stages q ≡ ok e
unfolding parse_enum lifecycle_stage_name lifecycle_stages text_eq
parse-lifecycle_stage_name no_event q = refl
parse-lifecycle_stage_name (at attempted) q = refl
parse-lifecycle_stage_name (at site_confirmed) q = refl
parse-lifecycle_stage_name (at authority_accepted) q = refl
parse-lifecycle_stage_name (at authority_rejected) q = refl

pub parse-status_name :
    (e : DerivedReceiptStatus) (q : JsonPath)
    → parse_enum (str (status_name e)) derived_receipt_statuses q ≡ ok e
unfolding parse_enum status_name derived_receipt_statuses text_eq
parse-status_name prepared q = refl
parse-status_name _ q = refl

pub parse-check_name_text :
    (e : VerificationCheckName) (q : JsonPath)
    → parse_enum (str (check_name_text e)) verification_check_names q ≡ ok e
unfolding parse_enum check_name_text verification_check_names text_eq
parse-check_name_text decryption q = refl
parse-check_name_text _ q = refl

pub parse-control_type_name :
    (e : FieldControlType) (q : JsonPath)
    → parse_enum (str (control_type_name e)) field_control_types q ≡ ok e
unfolding parse_enum control_type_name field_control_types text_eq
parse-control_type_name (value_control text) q = refl
parse-control_type_name (value_control textarea) q = refl
parse-control_type_name (value_control hidden) q = refl
parse-control_type_name (value_control checkbox) q = refl
parse-control_type_name (value_control radio) q = refl
parse-control_type_name (value_control select_one) q = refl
parse-control_type_name (value_control select_multiple) q = refl
parse-control_type_name password q = refl
parse-control_type_name file q = refl

pub parse-form_encoding_name :
    (e : FormEncoding) (q : JsonPath)
    → parse_enum (str (form_encoding_name e)) form_encodings q ≡ ok e
unfolding parse_enum form_encoding_name form_encodings text_eq
parse-form_encoding_name urlencoded q = refl
parse-form_encoding_name _ q = refl

pub parse-reason_name :
    (e : ExclusionReason) (q : JsonPath)
    → parse_enum (str (reason_name e)) exclusion_reasons q ≡ ok e
unfolding parse_enum reason_name exclusion_reasons text_eq
parse-reason_name password_control q = refl
parse-reason_name _ q = refl

pub parse-trigger_name :
    (e : SubmissionTrigger) (q : JsonPath)
    → parse_enum (str (trigger_name e)) submission_triggers q ≡ ok e
unfolding parse_enum trigger_name submission_triggers text_eq
parse-trigger_name form_submit q = refl
parse-trigger_name _ q = refl

pub parse-evidence_name :
    (e : EvidenceType) (q : JsonPath) → parse_enum (str (evidence_name e)) evidence_types q ≡ ok e
unfolding parse_enum evidence_name evidence_types text_eq
parse-evidence_name confirmation_page q = refl
parse-evidence_name _ q = refl

pub parse-outcome_name :
    (e : Outcome) (q : JsonPath) → parse_enum (str (outcome_name e)) outcomes q ≡ ok e
unfolding parse_enum outcome_name outcomes text_eq
parse-outcome_name outcome_accepted q = refl
parse-outcome_name _ q = refl

pub parse-signer_name :
    (e : Signer) (q : JsonPath) → parse_enum (str (signer_name e)) signers q ≡ ok e
unfolding parse_enum signer_name signers text_eq
parse-signer_name extension q = refl
parse-signer_name _ q = refl

pub parse-check_result_name :
    (e : CheckResult) (q : JsonPath)
    → parse_enum (str (check_result_name e)) verification_results q ≡ ok e
unfolding parse_enum check_result_name verification_results text_eq
parse-check_result_name not_run q = refl
parse-check_result_name _ q = refl

pub parse-state_result_name :
    (e : VerificationResult) (q : JsonPath)
    → parse_enum (str (state_result_name e)) state_results q ≡ ok e
unfolding parse_enum state_result_name state_results text_eq
parse-state_result_name not_verified q = refl
parse-state_result_name _ q = refl

-- An optional field that is there was read from its value.
pub parse_optional-eq-some {ℓ} :
    {A : Type ℓ} (key : Text) (fs : Fields) (f : Value → Result A) (a : A)
    → parse_optional key fs f ≡ ok (some a)
    → f (get key fs) ≡ ok a
unfolding parse_optional
parse_optional-eq-some key fs f a h = ground arith
