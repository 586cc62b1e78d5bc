-- ===== src/Capture/Candidate.antt =====
-- packages/receipt-core/src/capture-policy.ts, `assertAllowedKeys` to `normalizeCandidate`: the
-- candidates that a page's form gives.
use submittedit.Common.{Bool, true, false, not, ◌&&◌, ◌||◌, Option, none, some, List, [], ◌∷◌}
use submittedit.Text.{Text, u}
use submittedit.Result.{
  Result, ok, throw, throw_if, ◌>>=◌, ◌>>◌, JsonPath, prop, map_indexed, unknown_property,
  missing_property, invalid_control_type, file_content_forbidden, file_value_forbidden,
  file_metadata_mismatch,
}
use submittedit.Value.{Value, str, Fields, keys, has_own, get}
use submittedit.Value.Read.{
  as_record, has_unknown, parse_array, parse_boolean, parse_optional, value_of_name,
}
use submittedit.Host.{Host}
use submittedit.Types.{FieldControlType, file, CapturedFileMetadata}
use submittedit.Normalize.{
  normalize_non_empty_text, normalize_optional_text, normalize_non_negative_safe_integer,
}
use submittedit.Normalize.Timestamp.{normalize_timestamp}
use submittedit.Schema.Tables.{field_control_types}
use submittedit.Schema.Form.{parse_string_values}
use submittedit.Schema.Envelope.{is_present}

-- `RawFieldCandidate`, as `normalizeCandidate` returns it.
pub record RawFieldCandidate : Type 0 where
  pub autocomplete : Option Text
  pub control_type : FieldControlType
  pub explicitly_excluded : Option Bool
  pub field_id : Text
  pub files : Option (List CapturedFileMetadata)
  pub name : Option Text
  pub values : Option (List Text)

unfoldable pub assert_allowed_keys : Fields → List Text → JsonPath → Result (Unit {0})
unfolding has_unknown
assert_allowed_keys value allowed path =
    throw_if (has_unknown allowed (keys value)) unknown_property path

abbrev or_throw_control : Option FieldControlType → JsonPath → Result FieldControlType
or_throw_control none path = throw invalid_control_type path
or_throw_control (some t) path = ok t

unfoldable pub parse_control_type : Value → JsonPath → Result FieldControlType
unfolding value_of_name field_control_types
parse_control_type (str s) path = or_throw_control (value_of_name field_control_types s) path
parse_control_type _ path = throw invalid_control_type path

abbrev is_file_control : FieldControlType → Bool
is_file_control file = true
is_file_control _ = false

module _ (host : Host) where
  unfoldable pub parse_file_metadata_candidate : Value → JsonPath → Result CapturedFileMetadata
  parse_file_metadata_candidate input path = do
    value ← as_record input path
    assert_allowed_keys value
        (u "content" ∷ u "lastModified" ∷ u "mediaType" ∷ u "name" ∷ u "size" ∷ []) path
    throw_if (has_own (u "content") value) file_content_forbidden (prop path "content")
    throw_if (not (has_own (u "name") value) || not (has_own (u "size") value)) missing_property
        path
    last_modified ←
        parse_optional (u "lastModified") value
          λ v. normalize_timestamp v (prop path "lastModified")
    media_type ←
        parse_optional (u "mediaType") value
          λ v. normalize_optional_text host v (prop path "mediaType")
    name ← normalize_non_empty_text host (get (u "name") value) (prop path "name")
    size ← normalize_non_negative_safe_integer (get (u "size") value) (prop path "size")
    ok (record { last_modified = last_modified; media_type = media_type; name = name; size = size })

  unfoldable pub parse_candidate_files : JsonPath → Value → Result (List CapturedFileMetadata)
  parse_candidate_files path v = do
    files ← parse_array v (prop path "files")
    map_indexed parse_file_metadata_candidate (prop path "files") files

  unfoldable pub normalize_candidate : Value → JsonPath → Result RawFieldCandidate
  normalize_candidate input path = do
    value ← as_record input path
    assert_allowed_keys value
        (u "autocomplete"
          ∷ u "controlType"
          ∷ u "explicitlyExcluded"
          ∷ u "fieldId"
          ∷ u "files"
          ∷ u "name"
          ∷ u "values"
          ∷ [])
        path
    throw_if (not (has_own (u "controlType") value) || not (has_own (u "fieldId") value))
        missing_property path
    control_type ← parse_control_type (get (u "controlType") value) (prop path "controlType")
    field_id ← normalize_non_empty_text host (get (u "fieldId") value) (prop path "fieldId")
    name ← parse_optional (u "name") value λ v. normalize_non_empty_text host v (prop path "name")
    autocomplete ←
        parse_optional (u "autocomplete") value
          λ v. normalize_optional_text host v (prop path "autocomplete")
    excluded ←
        parse_optional (u "explicitlyExcluded") value
          λ v. parse_boolean v (prop path "explicitlyExcluded")
    values ← parse_optional (u "values") value λ v. parse_string_values host v (prop path "values")
    files ← parse_optional (u "files") value (parse_candidate_files path)
    throw_if (is_file_control control_type && is_present values) file_value_forbidden path
    throw_if (not (is_file_control control_type) && is_present files) file_metadata_mismatch path
    ok (record {
      autocomplete = autocomplete;
      control_type = control_type;
      explicitly_excluded = excluded;
      field_id = field_id;
      files = files;
      name = name;
      values = values;
    })
