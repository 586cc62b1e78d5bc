-- ===== src/Tests/Examples.antt =====
-- The code run on the samples, and the theorems at them.
use submittedit.Common.{◌≡◌, ◌≢◌, ◌≤◌, ◌↔◌, ◌+◌, refl, true, List, [], ◌∷◌, ◌++◌}
use submittedit.Common.Lists.{All, length}
use submittedit.Text.{Text, u}
use submittedit.Result.{ok, root, prop}
use submittedit.Value.{Value, str}
use submittedit.Types.{
  CapturedField, text, value_field, outcome_accepted, authority_accepted, authority_rejected, at,
  accepted, rejected, LifecycleEventEnvelope,
}
use submittedit.Types.Values.{
  array_value, captured_value, excluded_value, core_value, envelope_value, receipt_value,
}
use submittedit.Normalize.{normalize_text}
use submittedit.Normalize.Timestamp.{normalize_timestamp}
use submittedit.Normalize.Instants.{
  SameInstant, normalize_timestamp-SameInstant, normalize_timestamp_stable,
}
use submittedit.Normalize.Stable.{normalize_text_idem}
use submittedit.Schema.Form.{parse_captured_fields, parse_excluded_fields}
use submittedit.Schema.Core.{parse_event_core}
use submittedit.Canonical.Json.{canonicalize}
use submittedit.Hash
use submittedit.Hash.{create_domain_separated_preimage}
use submittedit.Hash.Domains.{preimage_injective}
use submittedit.Protocol.Payloads.{IsBound, create_authority_signature_payload-IsBound}
use submittedit.Protocol.{
  AuthoritySignaturePayload, create_authority_signature_payload, hash_event_core,
  create_event_envelope, parse_hashed_event_envelope,
}
use submittedit.Lifecycle.Status.{derive_receipt_status}
use submittedit.Lifecycle.Chain.{EventChainResult, validate_event_chain}
use submittedit.Lifecycle.Receipts.{validate_receipt}
use submittedit.Lifecycle.Linked.{ReadsAs, validate_event_chain_iff}
use submittedit.Lifecycle.Links.{IsLinked, chain_result}
use submittedit.Lifecycle.Terminal.{length-validate_event_chain, validate_event_chain_final}
use submittedit.Lifecycle.Decision.{IsDecided, derive_receipt_status_iff}
use submittedit.Lifecycle.Claims.{IsHonest, validate_receipt-IsHonest}
use submittedit.Capture.Policy.{CapturePolicyResult, apply_capture_policy}
use submittedit.Capture.Conserved.{apply_capture_policy-IsPrivate}
use submittedit.Capture.Placed.{HasConsent, IsHarmless}
use submittedit.Stable.Ordered.{IsOrderOf, parse_captured_fields-IsOrderOf}
use submittedit.Stable.Sorted.{parse_captured_fields_stable, parse_excluded_fields_stable}
use submittedit.Stable.Events.{parse_event_core_stable}
use submittedit.Stable.Hashes.{
  hash_event_core_stable, create_event_envelope_verifies, create_event_envelope_starts,
}
use submittedit.Tests.Running.{running}
use submittedit.Tests.Platform.{sample_host, sample-IsLawful}
use submittedit.Tests.Samples.{
  attempt_core, attempt_input, attempt_event, acceptance_event, attempt_receipt, candidates,
  captured, excluded, all_passed,
}

attempt_reads : parse_event_core sample_host attempt_input (prop root "core") ≡ ok attempt_core
unfolding running
attempt_reads = refl

attempt_created : create_event_envelope sample_host attempt_input ≡ ok attempt_event
unfolding running
attempt_created = refl

abbrev chain : List Value
chain = envelope_value attempt_event ∷ envelope_value acceptance_event ∷ []

abbrev chain_end : EventChainResult
chain_end = chain_result (attempt_event ∷ acceptance_event ∷ [])

chain_valid : validate_event_chain sample_host chain ≡ ok chain_end
unfolding running
chain_valid = refl

validate_event_chain_iff_example : (validate_event_chain sample_host chain ≡ ok chain_end) ↔ (
    (events : List LifecycleEventEnvelope) × ReadsAs sample_host chain events
    × IsLinked sample_host events
    × (chain_end ≡ chain_result events))
validate_event_chain_iff_example = validate_event_chain_iff sample_host chain chain_end

receipt_valid : validate_receipt sample_host (receipt_value attempt_receipt) ≡ ok attempt_receipt
unfolding running
receipt_valid = refl

validate_receipt-IsHonest_example : IsHonest sample_host attempt_receipt
validate_receipt-IsHonest_example =
    validate_receipt-IsHonest sample_host (receipt_value attempt_receipt) attempt_receipt
      receipt_valid

parse_event_core_stable_example :
    parse_event_core sample_host (core_value attempt_core) (prop root "again") ≡ ok attempt_core
parse_event_core_stable_example =
    parse_event_core_stable sample_host sample-IsLawful attempt_input (prop root "core")
      attempt_core attempt_reads (prop root "again")

abbrev policy_result : CapturePolicyResult
policy_result = record {
  captured_fields = captured;
  excluded_fields = excluded;
  privacy_flags = record { file_metadata_included = true };
}

policy_runs : apply_capture_policy sample_host candidates true ≡ ok policy_result
unfolding running
policy_runs = refl

apply_capture_policy-IsPrivate_example :
    (length captured + length excluded ≡ length candidates)
    × All (λ f. HasConsent true f × IsHarmless sample_host f) captured
apply_capture_policy-IsPrivate_example =
    apply_capture_policy-IsPrivate sample_host candidates true policy_result policy_runs

create_event_envelope_verifies_example :
    parse_hashed_event_envelope sample_host attempt_event ≡ ok attempt_event
create_event_envelope_verifies_example =
    create_event_envelope_verifies sample_host sample-IsLawful attempt_input attempt_event
      attempt_created

create_event_envelope_starts_example :
    validate_event_chain sample_host (envelope_value attempt_event ∷ [])
    ≡ ok (chain_result (attempt_event ∷ []))
create_event_envelope_starts_example =
    create_event_envelope_starts sample_host sample-IsLawful attempt_input attempt_event
      attempt_created refl refl

derive_receipt_status_iff_example :
    ((derive_receipt_status (at authority_accepted) all_passed ≡ accepted)
      ↔ ((at authority_accepted ≡ at authority_accepted) × IsDecided all_passed))
    × ((derive_receipt_status (at authority_accepted) all_passed ≡ rejected)
        ↔ ((at authority_accepted ≡ at authority_rejected) × IsDecided all_passed))
derive_receipt_status_iff_example = derive_receipt_status_iff all_passed (at authority_accepted)

time_runs :
    normalize_timestamp (str (u "2024-02-29T23:30:05.7-01:45")) root
    ≡ ok (u "2024-03-01T01:15:05.700Z")
unfolding running
time_runs = refl

normalize_timestamp-SameInstant_example :
    SameInstant (u "2024-02-29T23:30:05.7-01:45") (u "2024-03-01T01:15:05.700Z")
normalize_timestamp-SameInstant_example =
    normalize_timestamp-SameInstant (u "2024-02-29T23:30:05.7-01:45") root
      (u "2024-03-01T01:15:05.700Z") time_runs

normalize_timestamp_stable_example :
    normalize_timestamp (str (u "2024-03-01T01:15:05.700Z")) root
    ≡ ok (u "2024-03-01T01:15:05.700Z")
normalize_timestamp_stable_example =
    normalize_timestamp_stable (str (u "2024-02-29T23:30:05.7-01:45")) root root
      (u "2024-03-01T01:15:05.700Z") time_runs

abbrev acceptance_payload : AuthoritySignaturePayload
acceptance_payload = record {
  authority_id = u "a.gov";
  event_hash = acceptance_event.event_hash;
  outcome = outcome_accepted;
  receipt_id = acceptance_event.core.receipt_id;
  schema_version = u "1.0";
  stage = authority_accepted;
}

payload_runs :
    create_authority_signature_payload sample_host acceptance_event ≡ ok acceptance_payload
unfolding running
payload_runs = refl

create_authority_signature_payload-IsBound_example :
    (event : LifecycleEventEnvelope) × (parse_hashed_event_envelope sample_host acceptance_event
      ≡ ok event)
    × IsBound sample_host event acceptance_payload
create_authority_signature_payload-IsBound_example =
    create_authority_signature_payload-IsBound sample_host acceptance_event acceptance_payload
      payload_runs

validate_event_chain_final_example :
    validate_event_chain sample_host (chain ++ (envelope_value attempt_event ∷ [])) ≢ ok chain_end
validate_event_chain_final_example =
    validate_event_chain_final sample_host chain (envelope_value attempt_event) [] chain_end
      chain_end chain_valid refl

length-validate_event_chain_example : length chain ≤ 3
length-validate_event_chain_example =
    length-validate_event_chain sample_host chain chain_end chain_valid

hash_event_core_stable_example :
    hash_event_core sample_host (core_value attempt_core)
    ≡ hash_event_core sample_host attempt_input
hash_event_core_stable_example =
    hash_event_core_stable sample_host sample-IsLawful attempt_input attempt_core attempt_reads

abbrev preimage : Text
preimage = u "SUBMITTEDIT/RECEIPT-EVENT/1" ++ (0 ∷ 34 ∷ 92 ∷ b'n' ∷ 34 ∷ [])

-- A line feed and a carriage return are written alike.
feed_preimage :
    create_domain_separated_preimage sample_host Hash.event (str (10 ∷ [])) ≡ ok preimage
unfolding running
feed_preimage = refl

return_preimage :
    create_domain_separated_preimage sample_host Hash.event (str (13 ∷ [])) ≡ ok preimage
unfolding running
return_preimage = refl

preimage_injective_example :
    (Hash.event ≡ Hash.event)
    × (canonicalize sample_host (str (10 ∷ [])) ≡ canonicalize sample_host (str (13 ∷ [])))
preimage_injective_example =
    preimage_injective sample_host Hash.event Hash.event (str (10 ∷ [])) (str (13 ∷ [])) preimage
      feed_preimage return_preimage

captured_reads :
    parse_captured_fields sample_host (array_value captured_value captured) root ≡ ok captured
unfolding running
captured_reads = refl

parse_captured_fields_stable_example :
    parse_captured_fields sample_host (array_value captured_value captured) (prop root "again")
    ≡ ok captured
parse_captured_fields_stable_example =
    parse_captured_fields_stable sample_host sample-IsLawful (array_value captured_value captured)
      root captured captured_reads (prop root "again")

excluded_reads :
    parse_excluded_fields sample_host (array_value excluded_value excluded) root ≡ ok excluded
unfolding running
excluded_reads = refl

parse_excluded_fields_stable_example :
    parse_excluded_fields sample_host (array_value excluded_value excluded) (prop root "again")
    ≡ ok excluded
parse_excluded_fields_stable_example =
    parse_excluded_fields_stable sample_host sample-IsLawful (array_value excluded_value excluded)
      root excluded excluded_reads (prop root "again")

normalize_text_idem_example :
    normalize_text sample_host (normalize_text sample_host (97 ∷ 13 ∷ 10 ∷ []))
    ≡ normalize_text sample_host (97 ∷ 13 ∷ 10 ∷ [])
normalize_text_idem_example = normalize_text_idem sample_host sample-IsLawful (97 ∷ 13 ∷ 10 ∷ [])

abbrev town : CapturedField
town = value_field (record { control_type = text; field_id = u "f3"; name = u "town"; values = [] })

towns_read :
    parse_captured_fields sample_host (array_value captured_value (town ∷ captured)) root
    ≡ ok (captured ++ town ∷ [])
unfolding running
towns_read = refl

parse_captured_fields-IsOrderOf_example :
    IsOrderOf sample_host
      (array_value captured_value (town ∷ captured))
      root
      (captured ++ town ∷ [])
parse_captured_fields-IsOrderOf_example =
    parse_captured_fields-IsOrderOf sample_host (array_value captured_value (town ∷ captured)) root
      (captured ++ town ∷ []) towns_read
