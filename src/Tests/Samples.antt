-- ===== src/Tests/Samples.antt =====
-- Values that the tests share: an attempt, an authority's acceptance, and a receipt of the attempt.
use submittedit.Common.{true, none, some, List, [], ◌∷◌}
use submittedit.Text.{Text, u}
use submittedit.Value.{Value, str, arr, obj, nil, cons, end, field}
use submittedit.Types.{
  zero_hash, urlencoded, hidden, text, value_control, value_field, sensitive_hidden_token,
  form_submit, outcome_accepted, LifecycleEventCore, attempt, acceptance, LifecycleEventEnvelope,
  Receipt, at, attempted, pending_acceptance, not_verified, CapturedField, ExcludedFieldDescriptor,
  VerificationCheckName, VerificationCheck, VerificationState, passed, schema, event_hash,
  event_link, authority_signature, verified,
}
use submittedit.Types.Values.{core_value}

abbrev pub receipt_id : Text
receipt_id = u "0x1111111111111111111111111111111111111111111111111111111111111111"

abbrev pub captured : List CapturedField
captured =
    value_field
      (record { control_type = text; field_id = u "f1"; name = u "name"; values = u "Ada" ∷ [] })
    ∷ []

abbrev pub excluded : List ExcludedFieldDescriptor
excluded =
    record {
      control_type = value_control hidden;
      field_id = u "f2";
      name = some (u "csrf");
      reason = sensitive_hidden_token;
    }
    ∷ []

abbrev pub attempt_core : LifecycleEventCore
attempt_core = record {
  base = record {
    occurred_at = u "2024-02-29T23:59:59.500Z";
    previous_event_hash = zero_hash;
    receipt_id = receipt_id;
    schema_version = u "1.0";
  };
  details = attempt (record {
    captured_fields = captured;
    excluded_fields = excluded;
    form_descriptor = record {
      action_url = u "https://a.gov/form";
      encoding = urlencoded;
      form_id = none;
      form_name = some (u "main");
      method = u "POST";
    };
    origin = record { origin = u "https://a.gov"; page_url = u "https://a.gov/form" };
    privacy_flags = record { file_metadata_included = true };
    submission_attempt = record {
      encoding = urlencoded;
      method = u "POST";
      target_url = u "https://a.gov/form";
      trigger = form_submit;
    };
  });
}

abbrev pub attempt_input : Value
attempt_input = core_value attempt_core

abbrev pub attempt_event : LifecycleEventEnvelope
attempt_event = record {
  authority_signature = none;
  chain_anchor = none;
  core = attempt_core;
  event_hash = u "0x7a21483300000000000000000000000000000000000000000000000000000000";
  extension_signature = none;
}

abbrev pub acceptance_core : LifecycleEventCore
acceptance_core = record {
  base = record {
    occurred_at = u "2024-03-01T08:00:00.000Z";
    previous_event_hash = attempt_event.event_hash;
    receipt_id = receipt_id;
    schema_version = u "1.0";
  };
  details = acceptance (record {
    acknowledged_at = u "2024-03-01T08:00:00.000Z";
    authority_id = u "a.gov";
    outcome = outcome_accepted;
    reason = none;
    reference = some (u "R-7");
  });
}

abbrev pub acceptance_event : LifecycleEventEnvelope
acceptance_event = record {
  authority_signature = none;
  chain_anchor = none;
  core = acceptance_core;
  event_hash = u "0x0b509b3000000000000000000000000000000000000000000000000000000000";
  extension_signature = none;
}

abbrev pub attempt_receipt : Receipt
attempt_receipt = record {
  created_at = u "2024-03-01T00:00:00.000Z";
  current_stage = at attempted;
  derived_status = pending_acceptance;
  events = attempt_event ∷ [];
  extension_public_key = record { key_id = u "key-1"; value = u "MFkw" };
  receipt_id = receipt_id;
  schema_version = u "1.0";
  verification = record { checks = []; result = not_verified; verified_at = none };
}

-- `{ controlType, fieldId, name, values: [value] }`.
abbrev candidate : Text → Text → Text → Text → Value
candidate control id name value = obj (
    field (u "controlType") (str control) (
      field (u "fieldId") (str id)
        (field (u "name") (str name) (field (u "values") (arr (cons (str value) nil)) end))))

-- A text field, and a hidden field with a token.
abbrev pub candidates : List Value
candidates =
    candidate (u "TEXT") (u "f1") (u "name") (u "Ada")
    ∷ candidate (u "HIDDEN") (u "f2") (u "csrf") (u "x")
    ∷ []

abbrev check_of : VerificationCheckName → VerificationCheck
check_of name = record { check = name; detail = none; result = passed }

abbrev pub all_passed : VerificationState
all_passed = record {
  checks =
      check_of schema
      ∷ check_of event_hash
      ∷ check_of event_link
      ∷ check_of authority_signature
      ∷ [];
  result = verified;
  verified_at = some (u "2024-03-02T00:00:00.000Z");
}
