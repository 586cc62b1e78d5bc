-- ===== src/Tests/Running.antt =====
-- The names that a proof unfolds in order to run the code on a concrete value: it unfolds `running`.
use submittedit.Canonical.{
  is_safe_integer, is_array_index, set_entry, collect_entries, sort_entries,
  normalize_canonical_value, normalize_items, normalize_fields,
}
use submittedit.Canonical.Json.{
  hex_digit, unicode_escape, escape_unit, escape_text, quote, print_integer, stringify,
  stringify_items, stringify_entries, utf8_unit, utf8_pair, utf8, to_canonical_value, canonicalize,
  encode_canonical_utf8,
}
use submittedit.Capture.Candidate.{
  assert_allowed_keys, parse_control_type, parse_file_metadata_candidate, parse_candidate_files,
  normalize_candidate,
}
use submittedit.Capture.Policy.{
  exclusion, exclusion_reason, capture_field, place_candidate, policy_step, policy_from,
  apply_capture_policy,
}
use submittedit.Hash.{hash_domains, create_domain_separated_preimage, hash_canonical}
use submittedit.Host.{is_printable}
use submittedit.Lifecycle.Chain.{
  check_link, chain_event, chain_step, chain_from, validate_event_chain,
}
use submittedit.Lifecycle.Receipts.{
  validate_extension_payload, validate_authority_payload, validate_envelope_payloads,
  validate_receipt_event, validate_receipt_events, require_verification, validate_claims,
  validate_receipt, create_receipt,
}
use submittedit.Lifecycle.Status.{
  check_passed, require_passed_check, has_structural_verification, derive_receipt_status,
}
use submittedit.Lifecycle.Transitions.{
  allowed_transitions, is_valid_transition, assert_valid_transition,
}
use submittedit.Normalize.{
  unify_newlines, normalize_text, is_prefixed_hex, is_token_char, is_base64url_char, is_run_of,
  split_dot, is_space, has_outer_space, normalize_non_empty_text, normalize_optional_text,
  normalize_schema_version, normalize_hash, normalize_address, parse_http_url, normalize_origin,
  normalize_url, normalize_http_method, normalize_base64_url, normalize_decimal_string,
  normalize_non_negative_safe_integer, normalize_positive_safe_integer,
}
use submittedit.Normalize.Calendar.{
  is_leap_year, days_in_month, day_from_year, days_before_month, search_down, year_of_day,
  month_of_day,
}
use submittedit.Normalize.Timestamp.{
  take_digits, expect, take_fraction_digits, take_fraction, take_zone, match_rfc3339,
  has_invalid_date, has_invalid_offset, local_time, utc_time, stamp_of_time, to_iso_string,
  normalize_timestamp,
}
use submittedit.Protocol.{
  extension_payload_value, authority_payload_value, anchor_payload_value, canonical_event_core,
  hash_event_core, parse_hashed_event_envelope, create_event_envelope,
  create_extension_signature_payload, hash_extension_signature_payload, authority_payload_of,
  create_authority_signature_payload, hash_authority_signature_payload, create_chain_anchor_payload,
  hash_chain_anchor_payload,
}
use submittedit.Result.{map_indexed_from, map_indexed}
use submittedit.Schema.Core.{
  parse_site_confirmation, parse_authority_acknowledgment, parse_event_base, overlaps,
  parse_attempted, parse_authority_event, parse_details, parse_event_core,
}
use submittedit.Schema.Envelope.{
  parse_public_key_descriptor, parse_signature_envelope, parse_chain_anchor_metadata,
  parse_event_envelope,
}
use submittedit.Schema.Form.{
  parse_origin_descriptor, parse_form_descriptor, parse_string_values, parse_file_metadata,
  parse_file_field, parse_value_field, parse_captured_control, parse_captured_field,
  parse_excluded_field, compare_fields, sort_captured, sort_excluded, parse_captured_fields,
  parse_excluded_fields, parse_privacy_flags, parse_submission_attempt,
}
use submittedit.Schema.Sorting.{insert_by, sort_by, repeats_from, has_repeated}
use submittedit.Schema.State.{
  contradicts_checks, sort_checks, parse_verification_check, parse_verification_state,
  parse_receipt_structure,
}
use submittedit.Schema.Tables.{
  form_encodings, value_control_types, field_control_types, exclusion_reasons, verification_results,
  submission_triggers, evidence_types, outcomes, signers, state_results, only,
}
use submittedit.Sensitive.{
  is_boundary, sensitive_words, strip_word, matches_words, matches_here, matches_after_boundary,
  test_hidden_name, sensitive_compact_names, keep_alphanumeric, test_compact_name, split_spaces,
  autofill_secret_tokens, is_secret_token, is_sensitive_hidden_field_name, is_autofill_secret,
}
use submittedit.Text.{
  u, text_eq, starts_with, includes, contains, is_digit, is_lower, is_upper, is_hex, to_lower,
  to_upper, decimal_value, is_canonical_decimal,
}
use submittedit.Text.Decimal.{pad_digits, print_decimal_from, print_decimal}
use submittedit.Text.Order.{compare_canonical_text}
use submittedit.Types.EnumNames.{
  stage_name, lifecycle_stage_name, status_name, check_name_text, control_type_name,
  form_encoding_name, reason_name, trigger_name, evidence_name, outcome_name, signer_name,
  check_result_name, state_result_name,
}
use submittedit.Types.{
  event_stages, lifecycle_stages, derived_receipt_statuses, verification_check_names, zero_hash,
}
use submittedit.Types.Values.{
  origin_value, form_value, file_metadata_value, captured_value, excluded_value, privacy_value,
  submission_value, confirmation_value, acknowledgment_value, details_fields, core_value,
  public_key_value, signature_value, anchor_value, envelope_value, check_value, verification_value,
  receipt_value,
}
use submittedit.Value.{has_own, get, is_undefined}
use submittedit.Value.Read.{
  as_record, has_unknown, has_missing, has_explicit_undefined, assert_keys, parse_array,
  value_of_name, parse_enum, parse_boolean, parse_literal_true, parse_optional, reading,
}
use submittedit.Tests.Platform.{parse_site_url, digits, checksum}

unfoldable pub running : Unit {0}
unfolding parse_site_url digits checksum is_safe_integer is_array_index set_entry collect_entries
    sort_entries normalize_canonical_value normalize_items normalize_fields hex_digit unicode_escape
    escape_unit escape_text quote print_integer stringify stringify_items stringify_entries
    utf8_unit utf8_pair utf8 to_canonical_value canonicalize encode_canonical_utf8
    assert_allowed_keys parse_control_type parse_file_metadata_candidate parse_candidate_files
    normalize_candidate exclusion exclusion_reason capture_field place_candidate policy_step
    policy_from apply_capture_policy hash_domains create_domain_separated_preimage hash_canonical
    is_printable check_link chain_event chain_step chain_from validate_event_chain
    validate_extension_payload validate_authority_payload validate_envelope_payloads
    validate_receipt_event validate_receipt_events require_verification validate_claims
    validate_receipt create_receipt check_passed require_passed_check has_structural_verification
    derive_receipt_status allowed_transitions is_valid_transition assert_valid_transition
    unify_newlines normalize_text is_prefixed_hex is_token_char is_base64url_char is_run_of
    split_dot is_space has_outer_space normalize_non_empty_text normalize_optional_text
    normalize_schema_version normalize_hash normalize_address parse_http_url normalize_origin
    normalize_url normalize_http_method normalize_base64_url normalize_decimal_string
    normalize_non_negative_safe_integer normalize_positive_safe_integer is_leap_year days_in_month
    day_from_year days_before_month search_down year_of_day month_of_day take_digits expect
    take_fraction_digits take_fraction take_zone match_rfc3339 has_invalid_date has_invalid_offset
    local_time utc_time stamp_of_time to_iso_string normalize_timestamp extension_payload_value
    authority_payload_value anchor_payload_value canonical_event_core hash_event_core
    parse_hashed_event_envelope create_event_envelope create_extension_signature_payload
    hash_extension_signature_payload authority_payload_of create_authority_signature_payload
    hash_authority_signature_payload create_chain_anchor_payload hash_chain_anchor_payload
    map_indexed_from map_indexed parse_site_confirmation parse_authority_acknowledgment
    parse_event_base overlaps parse_attempted parse_authority_event parse_details parse_event_core
    parse_public_key_descriptor parse_signature_envelope parse_chain_anchor_metadata
    parse_event_envelope parse_origin_descriptor parse_form_descriptor parse_string_values
    parse_file_metadata parse_file_field parse_value_field parse_captured_control
    parse_captured_field parse_excluded_field compare_fields sort_captured sort_excluded
    parse_captured_fields parse_excluded_fields parse_privacy_flags parse_submission_attempt
    insert_by sort_by repeats_from has_repeated contradicts_checks sort_checks
    parse_verification_check parse_verification_state parse_receipt_structure form_encodings
    value_control_types field_control_types exclusion_reasons verification_results
    submission_triggers evidence_types outcomes signers state_results only is_boundary
    sensitive_words strip_word matches_words matches_here matches_after_boundary test_hidden_name
    sensitive_compact_names keep_alphanumeric test_compact_name split_spaces autofill_secret_tokens
    is_secret_token is_sensitive_hidden_field_name is_autofill_secret u text_eq starts_with includes
    contains is_digit is_lower is_upper is_hex to_lower to_upper decimal_value is_canonical_decimal
    pad_digits print_decimal_from print_decimal compare_canonical_text stage_name
    lifecycle_stage_name status_name check_name_text control_type_name form_encoding_name
    reason_name trigger_name evidence_name outcome_name signer_name check_result_name
    state_result_name event_stages lifecycle_stages derived_receipt_statuses
    verification_check_names zero_hash origin_value form_value file_metadata_value captured_value
    excluded_value privacy_value submission_value confirmation_value acknowledgment_value
    details_fields core_value public_key_value signature_value anchor_value envelope_value
    check_value verification_value receipt_value has_own get is_undefined as_record has_unknown
    has_missing has_explicit_undefined assert_keys parse_array value_of_name parse_enum
    parse_boolean parse_literal_true parse_optional reading
running = tt
