-- ===== src/Capture/Policy.antt =====
-- packages/receipt-core/src/capture-policy.ts, `applyCapturePolicy`: one decision for each
-- candidate, and the loop over the candidates.
use submittedit.Common.{
  ℕ, suc, Bool, true, false, not, ◌&&◌, Option, none, some, List, [], ◌∷◌, ◌++◌, if◌then◌else◌,
}
use submittedit.Text.{Text, contains}
use submittedit.Result.{
  Result, ok, throw, throw_if, ◌>>=◌, ◌>>◌, JsonPath, root, prop, index, duplicate_field_id,
  missing_field_name, sensitive_field_captured,
}
use submittedit.Value.{Value}
use submittedit.Host.{Host}
use submittedit.Types.{
  hidden, FieldControlType, value_control, password, file, CapturedField, value_field, file_field,
  ExclusionReason, password_control, sensitive_hidden_token, autofill_secret,
  file_metadata_not_opted_in, explicitly_excluded, ExcludedFieldDescriptor, PrivacyFlags,
}
use submittedit.Types.Values.{captured_value, excluded_value, array_value}
use submittedit.Sensitive.{is_autofill_secret, is_sensitive_hidden_field_name}
use submittedit.Schema.Form.{parse_captured_fields, parse_excluded_fields}
use submittedit.Capture.Candidate.{RawFieldCandidate, normalize_candidate}

pub record CapturePolicyResult : Type 0 where
  pub captured_fields : List CapturedField
  pub excluded_fields : List ExcludedFieldDescriptor
  pub privacy_flags : PrivacyFlags

-- The lists and the set that the loop fills.
pub record PolicyState : Type 0 where
  pub captured : List CapturedField
  pub excluded : List ExcludedFieldDescriptor
  pub ids : List Text

abbrev is_true : Option Bool → Bool
is_true (some true) = true
is_true _ = false

abbrev list_or_empty {ℓ} : {A : Type ℓ} → Option (List A) → List A
list_or_empty none = []
list_or_empty (some xs) = xs

-- `...(name ? { name } : {})`.
abbrev truthy_name : Option Text → Option Text
truthy_name (some []) = none
truthy_name name = name

abbrev is_password : FieldControlType → Bool
is_password password = true
is_password _ = false

abbrev is_hidden_control : FieldControlType → Bool
is_hidden_control (value_control hidden) = true
is_hidden_control _ = false

abbrev is_file_control : FieldControlType → Bool
is_file_control file = true
is_file_control _ = false

unfoldable pub exclusion :
    Text → FieldControlType → ExclusionReason → Option Text → ExcludedFieldDescriptor
exclusion field_id control_type reason name = record {
  control_type = control_type;
  field_id = field_id;
  name = truthy_name name;
  reason = reason;
}

module _ (host : Host) where
  -- `name !== undefined && isSensitiveHiddenFieldName(name)`.
  abbrev pub has_sensitive_name : Option Text → Bool
  has_sensitive_name none = false
  has_sensitive_name (some name) = is_sensitive_hidden_field_name host name

  -- The ladder of tests that sets `reason`.
  unfoldable pub exclusion_reason : RawFieldCandidate → Bool → Option ExclusionReason
  exclusion_reason candidate include_file_metadata =
      if is_true candidate.explicitly_excluded
      then some explicitly_excluded
      else if is_password candidate.control_type
      then some password_control
      else if is_autofill_secret host candidate.autocomplete
      then some autofill_secret
      else if is_hidden_control candidate.control_type && has_sensitive_name candidate.name
      then some sensitive_hidden_token
      else if is_file_control candidate.control_type && not include_file_metadata
      then some file_metadata_not_opted_in
      else none

-- What a candidate that is not excluded is captured as.
unfoldable pub capture_field : RawFieldCandidate → JsonPath → Result CapturedField
capture_field candidate path = do
  name ← elim candidate.name [ none ↦ throw missing_field_name path | some name ↦ ok name ]
  elim candidate.control_type [
    | file ↦ ok (
        file_field (record {
          field_id = candidate.field_id;
          files = list_or_empty candidate.files;
          name = name;
        }))
    | password ↦ throw sensitive_field_captured path
    | value_control t ↦ ok (
        value_field (record {
          control_type = t;
          field_id = candidate.field_id;
          name = name;
          values = list_or_empty candidate.values;
        }))
  ]

-- The rest of a round, once the reason is known.
unfoldable pub place_candidate :
    Option ExclusionReason → RawFieldCandidate → PolicyState → JsonPath → Result PolicyState
unfolding exclusion capture_field
place_candidate (some reason) candidate s path = ok (record s {
  excluded =
      s.excluded
      ++ (exclusion candidate.field_id candidate.control_type reason candidate.name ∷ []);
})
place_candidate none candidate s path = do
  f ← capture_field candidate path
  ok (record s { captured = s.captured ++ (f ∷ []) })

module _ (host : Host) where
  unfoldable pub policy_step : Bool → ℕ → PolicyState → Value → Result PolicyState
  policy_step include_file_metadata i s raw = do
    let path = index (prop root "fields") i
    candidate ← normalize_candidate host raw path
    throw_if (contains s.ids candidate.field_id) duplicate_field_id (prop root "fields")
    place_candidate (exclusion_reason host candidate include_file_metadata) candidate
        (record s { ids = candidate.field_id ∷ s.ids }) path

  unfoldable pub policy_from : Bool → ℕ → PolicyState → List Value → Result PolicyState
  policy_from include_file_metadata i s [] = ok s
  policy_from include_file_metadata i s (raw ∷ input) = do
    next ← policy_step include_file_metadata i s raw
    policy_from include_file_metadata (suc i) next input

  unfoldable pub apply_capture_policy : List Value → Bool → Result CapturePolicyResult
  apply_capture_policy input include_file_metadata = do
    s ←
        policy_from include_file_metadata 0 (record { captured = []; excluded = []; ids = [] })
          input
    captured ←
        parse_captured_fields host (array_value captured_value s.captured)
          (prop root "capturedFields")
    excluded ←
        parse_excluded_fields host (array_value excluded_value s.excluded)
          (prop root "excludedFields")
    ok (record {
      captured_fields = captured;
      excluded_fields = excluded;
      privacy_flags = record { file_metadata_included = include_file_metadata };
    })
