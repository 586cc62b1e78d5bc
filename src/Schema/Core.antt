-- ===== src/Schema/Core.antt =====
-- packages/receipt-core/src/schema.ts, `parseSiteConfirmation` to `parseEventCore`: the cores of
-- lifecycle events, which are what is hashed.
use submittedit.Common.{Bool, true, false, not, ◌&&◌, List, [], ◌∷◌, ◌++◌, map}
use submittedit.Common.Lists.{any}
use submittedit.Text.{Text, u, contains}
use submittedit.Result.{
  Result, ok, throw_if, ◌>>=◌, ◌>>◌, JsonPath, prop, file_metadata_without_consent,
  capture_exclusion_overlap, authority_outcome_mismatch,
}
use submittedit.Value.{Value, Fields, get}
use submittedit.Value.Read.{as_record, assert_keys, parse_enum, parse_optional}
use submittedit.Host.{Host}
use submittedit.Types.{
  EventStage, attempted, site_confirmed, authority_accepted, authority_rejected, event_stages,
  CapturedField, value_field, file_field, ExcludedFieldDescriptor, SiteConfirmation, Outcome,
  outcome_accepted, outcome_rejected, AuthorityAcknowledgment, EventCoreBase, AttemptedDetails,
  EventDetails, attempt, confirmation, acceptance, rejection, LifecycleEventCore,
}
use submittedit.Normalize.{
  normalize_url, normalize_non_empty_text, normalize_optional_text, normalize_hash,
  normalize_schema_version,
}
use submittedit.Normalize.Timestamp.{normalize_timestamp}
use submittedit.Schema.Tables.{evidence_types, outcomes}
use submittedit.Schema.Form.{
  parse_captured_fields, parse_excluded_fields, parse_privacy_flags, parse_form_descriptor,
  parse_origin_descriptor, parse_submission_attempt, captured_id, excluded_id,
}

module _ (host : Host) where
  unfoldable pub parse_site_confirmation : Value → JsonPath → Result SiteConfirmation
  parse_site_confirmation input path = do
    value ← as_record input path
    assert_keys value (u "evidenceType" ∷ u "pageUrl" ∷ []) (u "message" ∷ u "reference" ∷ []) path
    evidence_type ←
        parse_enum (get (u "evidenceType") value) evidence_types (prop path "evidenceType")
    message ←
        parse_optional (u "message") value λ v. normalize_optional_text host v (prop path "message")
    page_url ← normalize_url host (get (u "pageUrl") value) (prop path "pageUrl")
    reference ←
        parse_optional (u "reference") value
          λ v. normalize_optional_text host v (prop path "reference")
    ok (record {
      evidence_type = evidence_type;
      message = message;
      page_url = page_url;
      reference = reference;
    })

  unfoldable pub parse_authority_acknowledgment : Value → JsonPath → Result AuthorityAcknowledgment
  parse_authority_acknowledgment input path = do
    value ← as_record input path
    assert_keys value (u "acknowledgedAt" ∷ u "authorityId" ∷ u "outcome" ∷ [])
        (u "reason" ∷ u "reference" ∷ []) path
    acknowledged_at ←
        normalize_timestamp (get (u "acknowledgedAt") value) (prop path "acknowledgedAt")
    authority_id ←
        normalize_non_empty_text host (get (u "authorityId") value) (prop path "authorityId")
    outcome ← parse_enum (get (u "outcome") value) outcomes (prop path "outcome")
    reason ←
        parse_optional (u "reason") value λ v. normalize_optional_text host v (prop path "reason")
    reference ←
        parse_optional (u "reference") value
          λ v. normalize_optional_text host v (prop path "reference")
    ok (record {
      acknowledged_at = acknowledged_at;
      authority_id = authority_id;
      outcome = outcome;
      reason = reason;
      reference = reference;
    })

unfoldable pub parse_event_base : Fields → JsonPath → Result EventCoreBase
parse_event_base value path = do
  occurred_at ← normalize_timestamp (get (u "occurredAt") value) (prop path "occurredAt")
  previous ← normalize_hash (get (u "previousEventHash") value) (prop path "previousEventHash")
  receipt_id ← normalize_hash (get (u "receiptId") value) (prop path "receiptId")
  schema_version ←
      normalize_schema_version (get (u "schemaVersion") value) (prop path "schemaVersion")
  ok (record {
    occurred_at = occurred_at;
    previous_event_hash = previous;
    receipt_id = receipt_id;
    schema_version = schema_version;
  })

abbrev pub base_keys : List Text
base_keys =
    u "occurredAt" ∷ u "previousEventHash" ∷ u "receiptId" ∷ u "schemaVersion" ∷ u "stage" ∷ []

abbrev pub is_file : CapturedField → Bool
is_file (value_field f) = false
is_file (file_field f) = true

-- Some excluded field has the identifier of a captured one.
unfoldable pub overlaps : List CapturedField → List ExcludedFieldDescriptor → Bool
unfolding contains
overlaps captured excluded = any (λ f. contains (map captured_id captured) (excluded_id f)) excluded

abbrev pub expected_outcome : EventStage → Outcome
expected_outcome authority_accepted = outcome_accepted
expected_outcome _ = outcome_rejected

abbrev pub is_outcome : Outcome → Outcome → Bool
is_outcome outcome_accepted outcome_accepted = true
is_outcome outcome_rejected outcome_rejected = true
is_outcome _ _ = false

module _ (host : Host) where
  -- The branch of `parseEventCore` for the stage `ATTEMPTED`.
  unfoldable pub parse_attempted : Fields → JsonPath → Result AttemptedDetails
  parse_attempted value path = do
    assert_keys value
        (base_keys
          ++ (u "capturedFields"
              ∷ u "excludedFields"
              ∷ u "formDescriptor"
              ∷ u "origin"
              ∷ u "privacyFlags"
              ∷ u "submissionAttempt"
              ∷ []))
        [] path
    captured ←
        parse_captured_fields host (get (u "capturedFields") value) (prop path "capturedFields")
    excluded ←
        parse_excluded_fields host (get (u "excludedFields") value) (prop path "excludedFields")
    flags ← parse_privacy_flags (get (u "privacyFlags") value) (prop path "privacyFlags")
    throw_if (any is_file captured && not flags.file_metadata_included)
        file_metadata_without_consent path
    throw_if (overlaps captured excluded) capture_exclusion_overlap path
    form ← parse_form_descriptor host (get (u "formDescriptor") value) (prop path "formDescriptor")
    origin ← parse_origin_descriptor host (get (u "origin") value) (prop path "origin")
    submission ←
        parse_submission_attempt host (get (u "submissionAttempt") value)
          (prop path "submissionAttempt")
    ok (record {
      captured_fields = captured;
      excluded_fields = excluded;
      form_descriptor = form;
      origin = origin;
      privacy_flags = flags;
      submission_attempt = submission;
    })

  -- The branch for the two authority stages, with the stage's expected outcome.
  unfoldable pub parse_authority_event :
      EventStage → Fields → JsonPath → Result AuthorityAcknowledgment
  parse_authority_event stage value path = do
    assert_keys value (base_keys ++ (u "authorityAcknowledgment" ∷ [])) [] path
    acknowledgment ←
        parse_authority_acknowledgment host (get (u "authorityAcknowledgment") value)
          (prop path "authorityAcknowledgment")
    throw_if (not (is_outcome acknowledgment.outcome (expected_outcome stage)))
        authority_outcome_mismatch (prop (prop path "authorityAcknowledgment") "outcome")
    ok acknowledgment

  unfoldable pub parse_details : EventStage → Fields → JsonPath → Result EventDetails
  parse_details attempted value path = do details ← parse_attempted value path; ok (attempt details)
  parse_details site_confirmed value path = do
    assert_keys value (base_keys ++ (u "siteConfirmation" ∷ [])) [] path
    c ←
        parse_site_confirmation host (get (u "siteConfirmation") value)
          (prop path "siteConfirmation")
    ok (confirmation c)
  parse_details authority_accepted value path = do
    a ← parse_authority_event authority_accepted value path
    ok (acceptance a)
  parse_details authority_rejected value path = do
    a ← parse_authority_event authority_rejected value path
    ok (rejection a)

  unfoldable pub parse_event_core : Value → JsonPath → Result LifecycleEventCore
  parse_event_core input path = do
    value ← as_record input path
    stage ← parse_enum (get (u "stage") value) event_stages (prop path "stage")
    base ← parse_event_base value path
    details ← parse_details stage value path
    ok (record { base = base; details = details })
