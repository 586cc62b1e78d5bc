-- ===== src/Stable/Events.antt =====
-- packages/receipt-core/src/schema.ts, `parseEventCore`, applied to what it has returned.
use submittedit.Common.{◌≡◌, arith, true, false, not, ◌&&◌}
use submittedit.Common.Lists.{any}
use submittedit.Text.{u}
use submittedit.Result.{ok, JsonPath, prop, invert}
use submittedit.Value.{Value, str, obj, Fields, field, get}
use submittedit.Value.Read.{reading, as_record, parse_enum}
use submittedit.Host.{Host, IsLawful}
use submittedit.Types.{
  EventStage, attempted, site_confirmed, authority_accepted, authority_rejected, event_stages,
  SiteConfirmation, outcome_accepted, outcome_rejected, AuthorityAcknowledgment, EventCoreBase,
  AttemptedDetails, EventDetails, attempt, confirmation, acceptance, rejection, LifecycleEventCore,
  stage_of_details,
}
use submittedit.Types.EnumNames.{stage_name}
use submittedit.Types.Values.{
  captured_value, excluded_value, array_value, form_value, origin_value, privacy_value,
  submission_value, confirmation_value, acknowledgment_value, details_fields, core_value,
}
use submittedit.Normalize.{normalize_hash, normalize_schema_version}
use submittedit.Normalize.Timestamp.{normalize_timestamp}
use submittedit.Normalize.Instants.{normalize_timestamp_stable}
use submittedit.Normalize.Stable.{normalize_hash_stable, normalize_schema_version_stable}
use submittedit.Schema.Form.{
  parse_captured_fields, parse_excluded_fields, parse_privacy_flags, parse_form_descriptor,
  parse_origin_descriptor, parse_submission_attempt,
}
use submittedit.Schema.Core.{
  parse_site_confirmation, parse_authority_acknowledgment, parse_event_base, is_file, overlaps,
  is_outcome, parse_attempted, parse_authority_event, parse_details, parse_event_core,
}
use submittedit.Stable.Enums.{parse-stage_name}
use submittedit.Stable.Core.{parse_site_confirmation_stable, parse_authority_acknowledgment_stable}
use submittedit.Stable.Form.{parse_form_descriptor-IsStable, parse_origin_descriptor-IsStable}
use submittedit.Stable.Fields.{parse_submission_attempt_stable, parse_privacy_flags_stable}
use submittedit.Stable.Sorted.{parse_captured_fields_stable, parse_excluded_fields_stable}

-- The fields of a core that has the base `b` and the details `d`.
unfoldable core_fields : EventCoreBase → EventDetails → Fields
core_fields b d = field (u "occurredAt") (str b.occurred_at) (
    field (u "previousEventHash") (str b.previous_event_hash) (
      field (u "receiptId") (str b.receipt_id) (
        field (u "schemaVersion") (str b.schema_version)
          (field (u "stage") (str (stage_name (stage_of_details d))) (details_fields d)))))

-- Each field of the base reads as itself.
record BaseIsStable (b : EventCoreBase) : Type 0 where
  occurred : (q : JsonPath) → normalize_timestamp (str b.occurred_at) q ≡ ok b.occurred_at
  previous :
      (q : JsonPath) → normalize_hash (str b.previous_event_hash) q ≡ ok b.previous_event_hash
  receipt : (q : JsonPath) → normalize_hash (str b.receipt_id) q ≡ ok b.receipt_id
  version : (q : JsonPath) → normalize_schema_version (str b.schema_version) q ≡ ok b.schema_version

parse_event_base_stable :
    (fs : Fields) (p : JsonPath) (b : EventCoreBase) → parse_event_base fs p ≡ ok b → BaseIsStable b
unfolding parse_event_base
parse_event_base_stable fs p b h = record {
  occurred = λ q.
      normalize_timestamp_stable (get (u "occurredAt") fs) (prop p "occurredAt") q b.occurred_at
        (ground arith);
  previous = λ q.
      normalize_hash_stable (get (u "previousEventHash") fs) (prop p "previousEventHash") q
        b.previous_event_hash (ground arith);
  receipt = λ q.
      normalize_hash_stable (get (u "receiptId") fs) (prop p "receiptId") q b.receipt_id
        (ground arith);
  version = λ q.
      normalize_schema_version_stable (get (u "schemaVersion") fs) (prop p "schemaVersion") q
        b.schema_version (ground arith);
}

module _ (host : Host) where
  reparse_event_core :
      (b : EventCoreBase) (d : EventDetails) (q : JsonPath)
      → BaseIsStable b
      → parse_details host (stage_of_details d) (core_fields b d) q ≡ ok d
      → let c : LifecycleEventCore = record { base = b; details = d } in
        parse_event_core host (core_value c) q ≡ ok c
  unfolding parse_event_core core_value core_fields parse_event_base reading
  reparse_event_core b d q s h = simp (
    parse-stage_name,
    s.occurred (prop q "occurredAt"),
    s.previous (prop q "previousEventHash"),
    s.receipt (prop q "receiptId"),
    s.version (prop q "schemaVersion"),
    h,
  )

  reparse_attempted :
      (b : EventCoreBase) (d : AttemptedDetails) (q : JsonPath)
      → ((r : JsonPath)
          → parse_captured_fields host (array_value captured_value d.captured_fields) r
            ≡ ok d.captured_fields)
      → ((r : JsonPath)
          → parse_excluded_fields host (array_value excluded_value d.excluded_fields) r
            ≡ ok d.excluded_fields)
      → ((r : JsonPath)
          → parse_privacy_flags (privacy_value d.privacy_flags) r ≡ ok d.privacy_flags)
      → (any is_file d.captured_fields && not d.privacy_flags.file_metadata_included) ≡ false
      → overlaps d.captured_fields d.excluded_fields ≡ false
      → ((r : JsonPath)
          → parse_form_descriptor host (form_value d.form_descriptor) r ≡ ok d.form_descriptor)
      → ((r : JsonPath) → parse_origin_descriptor host (origin_value d.origin) r ≡ ok d.origin)
      → ((r : JsonPath)
          → parse_submission_attempt host (submission_value d.submission_attempt) r
            ≡ ok d.submission_attempt)
      → parse_details host attempted (core_fields b (attempt d)) q ≡ ok (attempt d)
  unfolding parse_details parse_attempted core_fields details_fields reading form_value origin_value
      privacy_value submission_value
  reparse_attempted b d q cs es fs no_file no_overlap form origin submission = simp (
    cs (prop q "capturedFields"),
    es (prop q "excludedFields"),
    fs (prop q "privacyFlags"),
    no_file,
    no_overlap,
    form (prop q "formDescriptor"),
    origin (prop q "origin"),
    submission (prop q "submissionAttempt"),
  )

  reparse_confirmed :
      (b : EventCoreBase) (c : SiteConfirmation) (q : JsonPath)
      → ((r : JsonPath) → parse_site_confirmation host (confirmation_value c) r ≡ ok c)
      → parse_details host site_confirmed (core_fields b (confirmation c)) q ≡ ok (confirmation c)
  unfolding parse_details core_fields details_fields reading confirmation_value
  reparse_confirmed b c q s = simp (s (prop q "siteConfirmation"))

  reparse_accepted :
      (b : EventCoreBase) (a : AuthorityAcknowledgment) (q : JsonPath)
      → ((r : JsonPath) → parse_authority_acknowledgment host (acknowledgment_value a) r ≡ ok a)
      → is_outcome a.outcome outcome_accepted ≡ true
      → parse_details host authority_accepted (core_fields b (acceptance a)) q ≡ ok (acceptance a)
  unfolding parse_details parse_authority_event core_fields details_fields reading
      acknowledgment_value
  reparse_accepted b a q s e = simp (s (prop q "authorityAcknowledgment"), e)

  reparse_rejected :
      (b : EventCoreBase) (a : AuthorityAcknowledgment) (q : JsonPath)
      → ((r : JsonPath) → parse_authority_acknowledgment host (acknowledgment_value a) r ≡ ok a)
      → is_outcome a.outcome outcome_rejected ≡ true
      → parse_details host authority_rejected (core_fields b (rejection a)) q ≡ ok (rejection a)
  unfolding parse_details parse_authority_event core_fields details_fields reading
      acknowledgment_value
  reparse_rejected b a q s e = simp (s (prop q "authorityAcknowledgment"), e)

module _ (host : Host) (lawful : IsLawful host) where
  attempted_stable :
      (fs : Fields) (p : JsonPath) (d : AttemptedDetails) (b : EventCoreBase) (q : JsonPath)
      → parse_attempted host fs p ≡ ok d
      → parse_details host attempted (core_fields b (attempt d)) q ≡ ok (attempt d)
  unfolding parse_attempted
  attempted_stable fs p d b q h =
      reparse_attempted host b d q
        (parse_captured_fields_stable host lawful (get (u "capturedFields") fs)
          (prop p "capturedFields") d.captured_fields (ground arith))
        (parse_excluded_fields_stable host lawful (get (u "excludedFields") fs)
          (prop p "excludedFields") d.excluded_fields (ground arith))
        (parse_privacy_flags_stable d.privacy_flags) (ground arith) (ground arith)
        (parse_form_descriptor-IsStable host lawful (get (u "formDescriptor") fs)
          (prop p "formDescriptor") d.form_descriptor (ground arith))
        (parse_origin_descriptor-IsStable host lawful (get (u "origin") fs) (prop p "origin")
          d.origin (ground arith))
        (parse_submission_attempt_stable host lawful (get (u "submissionAttempt") fs)
          (prop p "submissionAttempt") d.submission_attempt (ground arith))

  details_stable :
      (s : EventStage) (fs : Fields) (p : JsonPath) (d : EventDetails) (b : EventCoreBase)
      (q : JsonPath)
      → parse_details host s fs p ≡ ok d
      → parse_details host (stage_of_details d) (core_fields b d) q ≡ ok d
  unfolding parse_details parse_authority_event
  details_stable attempted fs p (attempt d) b q h = attempted_stable fs p d b q (ground arith)
  details_stable site_confirmed fs p (confirmation c) b q h = reparse_confirmed host b c q (
      parse_site_confirmation_stable host lawful (get (u "siteConfirmation") fs)
        (prop p "siteConfirmation") c (ground arith))
  details_stable authority_accepted fs p (acceptance a) b q h =
      reparse_accepted host b a q
        (parse_authority_acknowledgment_stable host lawful (get (u "authorityAcknowledgment") fs)
          (prop p "authorityAcknowledgment") a (ground arith))
        (ground arith)
  details_stable authority_rejected fs p (rejection a) b q h =
      reparse_rejected host b a q
        (parse_authority_acknowledgment_stable host lawful (get (u "authorityAcknowledgment") fs)
          (prop p "authorityAcknowledgment") a (ground arith))
        (ground arith)
  details_stable _ fs p _ b q h = ground arith

  -- If `parseEventCore` reads `v` as the core `c`, then it reads `c` as `c`, at any path.
  pub parse_event_core_stable :
      (v : Value) (p : JsonPath) (c : LifecycleEventCore)
      → parse_event_core host v p ≡ ok c
      → (q : JsonPath) → parse_event_core host (core_value c) q ≡ ok c
  unfolding parse_event_core as_record
  parse_event_core_stable (obj fs) p c h q =
      invert (parse_enum (get (u "stage") fs) event_stages (prop p "stage")) _ h λ s read h.
        reparse_event_core host c.base c.details q
          (parse_event_base_stable fs p c.base (ground arith))
          (details_stable s fs p c.details c.base q (ground arith))
  parse_event_core_stable _ p c h q = cc
