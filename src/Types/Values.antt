-- ===== src/Types/Values.antt =====
-- The records of packages/receipt-core/src/types.ts as the JavaScript objects that they are: a
-- typed value that is handed to a reader again, or hashed, is looked at in this form.
use submittedit.Common.{pos, true, Option, none, some, List, map}
use submittedit.Text.{Text, u}
use submittedit.Value.{Value, bool, num, str, arr, obj, Fields, end, field, of_list}
use submittedit.Types.Capture.{
  OriginDescriptor, FormDescriptor, value_control, file, CapturedFileMetadata, CapturedField,
  value_field, file_field, ExcludedFieldDescriptor, PrivacyFlags,
}
use submittedit.Types.Events.{
  SubmissionAttempt, SiteConfirmation, AuthorityAcknowledgment, EventDetails, attempt, confirmation,
  acceptance, rejection, LifecycleEventCore, stage_of_details, PublicKeyDescriptor,
  SignatureEnvelope, ChainAnchorMetadata, LifecycleEventEnvelope, VerificationCheck,
  VerificationState, Receipt,
}
use submittedit.Types.EnumNames.{
  stage_name, lifecycle_stage_name, status_name, check_name_text, control_type_name,
  form_encoding_name, reason_name, trigger_name, evidence_name, outcome_name, signer_name,
  check_result_name, state_result_name,
}

-- `...(a ? { key: a } : {})`.
abbrev pub optional_field {ℓ} : {A : Type ℓ} → Text → (A → Value) → Option A → Fields → Fields
optional_field key f none rest = rest
optional_field key f (some a) rest = field key (f a) rest

abbrev pub array_value {ℓ} : {A : Type ℓ} → (A → Value) → List A → Value
array_value f xs = arr (of_list (map f xs))

unfoldable pub origin_value : OriginDescriptor → Value
origin_value o = obj (field (u "origin") (str o.origin) (field (u "pageUrl") (str o.page_url) end))

unfoldable pub form_value : FormDescriptor → Value
form_value f = obj (
    field (u "actionUrl") (str f.action_url) (
      field (u "encoding") (str (form_encoding_name f.encoding)) (
        optional_field (u "formId") str f.form_id
          (optional_field (u "formName") str f.form_name (field (u "method") (str f.method) end)))))

unfoldable pub file_metadata_value : CapturedFileMetadata → Value
file_metadata_value m = obj (
    optional_field (u "lastModified") str m.last_modified (
      optional_field (u "mediaType") str m.media_type
        (field (u "name") (str m.name) (field (u "size") (num (pos m.size)) end))))

unfoldable pub captured_value : CapturedField → Value
captured_value (value_field f) = obj (
    field (u "controlType") (str (control_type_name (value_control f.control_type))) (
      field (u "fieldId") (str f.field_id)
        (field (u "name") (str f.name) (field (u "values") (array_value str f.values) end))))
captured_value (file_field f) = obj (
    field (u "controlType") (str (control_type_name file)) (
      field (u "fieldId") (str f.field_id) (
        field (u "files") (array_value file_metadata_value f.files)
          (field (u "name") (str f.name) end))))

unfoldable pub excluded_value : ExcludedFieldDescriptor → Value
excluded_value f = obj (
    field (u "controlType") (str (control_type_name f.control_type)) (
      field (u "fieldId") (str f.field_id) (
        optional_field (u "name") str f.name
          (field (u "reason") (str (reason_name f.reason)) end))))

unfoldable pub privacy_value : PrivacyFlags → Value
privacy_value p = obj (
    field (u "fileMetadataIncluded") (bool p.file_metadata_included) (
      field (u "rawValuesOffchain") (bool true)
        (field (u "sensitiveFieldsExcluded") (bool true) end)))

unfoldable pub submission_value : SubmissionAttempt → Value
submission_value a = obj (
    field (u "encoding") (str (form_encoding_name a.encoding)) (
      field (u "method") (str a.method) (
        field (u "targetUrl") (str a.target_url)
          (field (u "trigger") (str (trigger_name a.trigger)) end))))

unfoldable pub confirmation_value : SiteConfirmation → Value
confirmation_value c = obj (
    field (u "evidenceType") (str (evidence_name c.evidence_type)) (
      optional_field (u "message") str c.message (
        field (u "pageUrl") (str c.page_url) (optional_field (u "reference") str c.reference end))))

unfoldable pub acknowledgment_value : AuthorityAcknowledgment → Value
acknowledgment_value a = obj (
    field (u "acknowledgedAt") (str a.acknowledged_at) (
      field (u "authorityId") (str a.authority_id) (
        field (u "outcome") (str (outcome_name a.outcome)) (
          optional_field (u "reason") str a.reason
            (optional_field (u "reference") str a.reference end)))))

-- What the details add to the fields of the base.
unfoldable pub details_fields : EventDetails → Fields
details_fields (attempt d) =
    field (u "capturedFields") (array_value captured_value d.captured_fields) (
      field (u "excludedFields") (array_value excluded_value d.excluded_fields) (
        field (u "formDescriptor") (form_value d.form_descriptor) (
          field (u "origin") (origin_value d.origin) (
            field (u "privacyFlags") (privacy_value d.privacy_flags)
              (field (u "submissionAttempt") (submission_value d.submission_attempt) end)))))
details_fields (confirmation c) = field (u "siteConfirmation") (confirmation_value c) end
details_fields (acceptance a) = field (u "authorityAcknowledgment") (acknowledgment_value a) end
details_fields (rejection a) = field (u "authorityAcknowledgment") (acknowledgment_value a) end

unfoldable pub core_value : LifecycleEventCore → Value
core_value c = obj (
    field (u "occurredAt") (str c.occurred_at) (
      field (u "previousEventHash") (str c.previous_event_hash) (
        field (u "receiptId") (str c.receipt_id) (
          field (u "schemaVersion") (str c.schema_version) (
            field (u "stage") (str (stage_name (stage_of_details c.details)))
              (details_fields c.details))))))

unfoldable pub public_key_value : PublicKeyDescriptor → Value
public_key_value k = obj (
    field (u "algorithm") (str (u "ECDSA_P256_SHA256")) (
      field (u "encoding") (str (u "SPKI_BASE64URL"))
        (field (u "keyId") (str k.key_id) (field (u "value") (str k.value) end))))

unfoldable pub signature_value : SignatureEnvelope → Value
signature_value s = obj (
    field (u "algorithm") (str (u "ECDSA_P256_SHA256")) (
      field (u "encoding") (str (u "P1363_BASE64URL")) (
        field (u "keyId") (str s.key_id) (
          field (u "payloadHash") (str s.payload_hash) (
            field (u "signature") (str s.signature)
              (field (u "signer") (str (signer_name s.signer)) end))))))

unfoldable pub anchor_value : ChainAnchorMetadata → Value
anchor_value a = obj (
    field (u "anchoredAt") (str a.anchored_at) (
      field (u "blockNumber") (str a.block_number) (
        field (u "chainId") (num (pos a.chain_id)) (
          field (u "contractAddress") (str a.contract_address)
            (field (u "transactionHash") (str a.transaction_hash) end)))))

unfoldable pub envelope_value : LifecycleEventEnvelope → Value
envelope_value e = obj (
    optional_field (u "authoritySignature") signature_value e.authority_signature (
      optional_field (u "chainAnchor") anchor_value e.chain_anchor (
        field (u "core") (core_value e.core) (
          field (u "eventHash") (str e.event_hash)
            (optional_field (u "extensionSignature") signature_value e.extension_signature end)))))

unfoldable pub check_value : VerificationCheck → Value
check_value c = obj (
    field (u "check") (str (check_name_text c.check)) (
      optional_field (u "detail") str c.detail
        (field (u "result") (str (check_result_name c.result)) end)))

unfoldable pub verification_value : VerificationState → Value
verification_value s = obj (
    field (u "checks") (array_value check_value s.checks) (
      field (u "result") (str (state_result_name s.result))
        (optional_field (u "verifiedAt") str s.verified_at end)))

unfoldable pub receipt_value : Receipt → Value
receipt_value r = obj (
    field (u "createdAt") (str r.created_at) (
      field (u "currentStage") (str (lifecycle_stage_name r.current_stage)) (
        field (u "derivedStatus") (str (status_name r.derived_status)) (
          field (u "events") (array_value envelope_value r.events) (
            field (u "extensionPublicKey") (public_key_value r.extension_public_key) (
              field (u "receiptId") (str r.receipt_id) (
                field (u "schemaVersion") (str r.schema_version)
                  (field (u "verification") (verification_value r.verification) end))))))))
