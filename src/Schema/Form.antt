-- ===== src/Schema/Form.antt =====
-- packages/receipt-core/src/schema.ts, `parseOriginDescriptor` to `parseSubmissionAttempt`: the form,
-- its captured fields and its excluded fields.
use submittedit.Common.{
  Bool, true, false, not, ◌&&◌, Option, none, some, List, [], ◌∷◌, map, Ordering,
}
use submittedit.Text.{Text, u, text_eq}
use submittedit.Text.Order.{compare_canonical_text}
use submittedit.Result.{
  Result, ok, throw, throw_if, ◌>>=◌, ◌>>◌, JsonPath, prop, map_indexed, origin_mismatch,
  sensitive_field_captured, duplicate_field_id, invalid_url,
}
use submittedit.Value.{Value, Fields, get}
use submittedit.Value.Read.{
  as_record, assert_keys, parse_array, parse_enum, parse_boolean, parse_literal_true,
  parse_optional,
}
use submittedit.Host.{Host, Url}
use submittedit.Types.{
  OriginDescriptor, FormDescriptor, ValueControlType, hidden, FieldControlType, value_control,
  password, file, CapturedFileMetadata, CapturedField, value_field, file_field,
  ExcludedFieldDescriptor, PrivacyFlags, SubmissionAttempt,
}
use submittedit.Types.EnumNames.{control_type_name}
use submittedit.Normalize.{
  normalize_origin, normalize_url, normalize_non_empty_text, normalize_optional_text,
  normalize_http_method, normalize_non_negative_safe_integer,
}
use submittedit.Normalize.Timestamp.{normalize_timestamp}
use submittedit.Sensitive.{is_sensitive_hidden_field_name}
use submittedit.Schema.Tables.{
  form_encodings, field_control_types, exclusion_reasons, submission_triggers,
}
use submittedit.Schema.Sorting.{sort_by, then_by, has_repeated}

-- `new URL(text).origin`, which throws where the text is no URL.
abbrev pub origin_of : Option Url → JsonPath → Result Text
origin_of none path = throw invalid_url path
origin_of (some url) path = ok url.origin

module _ (host : Host) where
  unfoldable pub parse_origin_descriptor : Value → JsonPath → Result OriginDescriptor
  parse_origin_descriptor input path = do
    value ← as_record input path
    assert_keys value (u "origin" ∷ u "pageUrl" ∷ []) [] path
    origin ← normalize_origin host (get (u "origin") value) (prop path "origin")
    page_url ← normalize_url host (get (u "pageUrl") value) (prop path "pageUrl")
    page_origin ← origin_of (host.parse_url page_url) path
    throw_if (not (text_eq page_origin origin)) origin_mismatch path
    ok (record { origin = origin; page_url = page_url })

  unfoldable pub parse_form_descriptor : Value → JsonPath → Result FormDescriptor
  parse_form_descriptor input path = do
    value ← as_record input path
    assert_keys value (u "actionUrl" ∷ u "encoding" ∷ u "method" ∷ [])
        (u "formId" ∷ u "formName" ∷ []) path
    action_url ← normalize_url host (get (u "actionUrl") value) (prop path "actionUrl")
    encoding ← parse_enum (get (u "encoding") value) form_encodings (prop path "encoding")
    form_id ←
        parse_optional (u "formId") value λ v. normalize_non_empty_text host v (prop path "formId")
    form_name ←
        parse_optional (u "formName") value
          λ v. normalize_non_empty_text host v (prop path "formName")
    method ← normalize_http_method host (get (u "method") value) (prop path "method")
    ok (record {
      action_url = action_url;
      encoding = encoding;
      form_id = form_id;
      form_name = form_name;
      method = method;
    })

  unfoldable pub parse_string_values : Value → JsonPath → Result (List Text)
  parse_string_values input path = do
    values ← parse_array input path
    map_indexed (normalize_optional_text host) path values

  unfoldable pub parse_file_metadata : Value → JsonPath → Result CapturedFileMetadata
  parse_file_metadata input path = do
    value ← as_record input path
    assert_keys value (u "name" ∷ u "size" ∷ []) (u "lastModified" ∷ u "mediaType" ∷ []) path
    last_modified ←
        parse_optional (u "lastModified") value
          λ v. normalize_timestamp v (prop path "lastModified")
    media_type ←
        parse_optional (u "mediaType") value
          λ v. normalize_optional_text host v (prop path "mediaType")
    name ← normalize_non_empty_text host (get (u "name") value) (prop path "name")
    size ← normalize_non_negative_safe_integer (get (u "size") value) (prop path "size")
    ok (record { last_modified = last_modified; media_type = media_type; name = name; size = size })

abbrev pub is_hidden : ValueControlType → Bool
is_hidden hidden = true
is_hidden _ = false

module _ (host : Host) where
  -- The rest of `parseCapturedField` for a file control.
  unfoldable pub parse_file_field : Fields → Text → Text → JsonPath → Result CapturedField
  parse_file_field value field_id name path = do
    assert_keys value (u "controlType" ∷ u "fieldId" ∷ u "files" ∷ u "name" ∷ []) [] path
    files ← parse_array (get (u "files") value) (prop path "files")
    files ← map_indexed (parse_file_metadata host) (prop path "files") files
    ok (file_field (record { field_id = field_id; files = files; name = name }))

  -- The rest of `parseCapturedField` for a control with string values.
  unfoldable pub parse_value_field :
      ValueControlType → Fields → Text → Text → JsonPath → Result CapturedField
  parse_value_field control_type value field_id name path = do
    assert_keys value (u "controlType" ∷ u "fieldId" ∷ u "name" ∷ u "values" ∷ []) [] path
    values ← parse_string_values host (get (u "values") value) (prop path "values")
    throw_if (is_hidden control_type && is_sensitive_hidden_field_name host name)
        sensitive_field_captured path
    ok (
        value_field (record {
          control_type = control_type;
          field_id = field_id;
          name = name;
          values = values;
        }))

  unfoldable pub parse_captured_control :
      FieldControlType → Fields → JsonPath → Result CapturedField
  unfolding parse_file_field parse_value_field
  parse_captured_control password value path = throw sensitive_field_captured path
  parse_captured_control file value path = do
    field_id ← normalize_non_empty_text host (get (u "fieldId") value) (prop path "fieldId")
    name ← normalize_non_empty_text host (get (u "name") value) (prop path "name")
    parse_file_field value field_id name path
  parse_captured_control (value_control control_type) value path = do
    field_id ← normalize_non_empty_text host (get (u "fieldId") value) (prop path "fieldId")
    name ← normalize_non_empty_text host (get (u "name") value) (prop path "name")
    parse_value_field control_type value field_id name path

  unfoldable pub parse_captured_field : Value → JsonPath → Result CapturedField
  unfolding parse_captured_control
  parse_captured_field input path = do
    value ← as_record input path
    control_type ←
        parse_enum (get (u "controlType") value) field_control_types (prop path "controlType")
    parse_captured_control control_type value path

  unfoldable pub parse_excluded_field : Value → JsonPath → Result ExcludedFieldDescriptor
  parse_excluded_field input path = do
    value ← as_record input path
    assert_keys value (u "controlType" ∷ u "fieldId" ∷ u "reason" ∷ []) (u "name" ∷ []) path
    control_type ←
        parse_enum (get (u "controlType") value) field_control_types (prop path "controlType")
    field_id ← normalize_non_empty_text host (get (u "fieldId") value) (prop path "fieldId")
    name ← parse_optional (u "name") value λ v. normalize_non_empty_text host v (prop path "name")
    reason ← parse_enum (get (u "reason") value) exclusion_reasons (prop path "reason")
    ok (record { control_type = control_type; field_id = field_id; name = name; reason = reason })

-- `field.fieldId`, `field.name` and `field.controlType` of either kind of captured field.
abbrev pub captured_id : CapturedField → Text
captured_id (value_field f) = f.field_id
captured_id (file_field f) = f.field_id

abbrev pub captured_name : CapturedField → Text
captured_name (value_field f) = f.name
captured_name (file_field f) = f.name

abbrev pub captured_control : CapturedField → FieldControlType
captured_control (value_field f) = value_control f.control_type
captured_control (file_field f) = file

abbrev pub name_or_empty : Option Text → Text
name_or_empty none = []
name_or_empty (some name) = name

-- `compareFields`, over the three texts that it reads.
unfoldable pub compare_fields : Text × Text × Text → Text × Text × Text → Ordering
unfolding compare_canonical_text
compare_fields (name, id, control) (name', id', control') =
    then_by (compare_canonical_text name name')
      (then_by (compare_canonical_text id id') (compare_canonical_text control control'))

abbrev pub captured_key : CapturedField → Text × Text × Text
captured_key f = (captured_name f, captured_id f, control_type_name (captured_control f))

abbrev pub excluded_key : ExcludedFieldDescriptor → Text × Text × Text
excluded_key f = (name_or_empty f.name, f.field_id, control_type_name f.control_type)

abbrev pub excluded_id : ExcludedFieldDescriptor → Text
excluded_id f = f.field_id

unfoldable pub sort_captured : List CapturedField → List CapturedField
unfolding sort_by compare_fields control_type_name
sort_captured = sort_by (λ f g. compare_fields (captured_key f) (captured_key g))

unfoldable pub sort_excluded : List ExcludedFieldDescriptor → List ExcludedFieldDescriptor
unfolding sort_by compare_fields control_type_name
sort_excluded = sort_by (λ f g. compare_fields (excluded_key f) (excluded_key g))

module _ (host : Host) where
  unfoldable pub parse_captured_fields : Value → JsonPath → Result (List CapturedField)
  parse_captured_fields input path = do
    fields ← parse_array input path
    fields ← map_indexed (parse_captured_field host) path fields
    let sorted = sort_captured fields
    throw_if (has_repeated (map captured_id sorted)) duplicate_field_id path
    ok sorted

  unfoldable pub parse_excluded_fields : Value → JsonPath → Result (List ExcludedFieldDescriptor)
  parse_excluded_fields input path = do
    fields ← parse_array input path
    fields ← map_indexed (parse_excluded_field host) path fields
    let sorted = sort_excluded fields
    throw_if (has_repeated (map excluded_id sorted)) duplicate_field_id path
    ok sorted

unfoldable pub parse_privacy_flags : Value → JsonPath → Result PrivacyFlags
parse_privacy_flags input path = do
  value ← as_record input path
  assert_keys value
      (u "fileMetadataIncluded" ∷ u "rawValuesOffchain" ∷ u "sensitiveFieldsExcluded" ∷ []) [] path
  included ← parse_boolean (get (u "fileMetadataIncluded") value) (prop path "fileMetadataIncluded")
  parse_literal_true (get (u "rawValuesOffchain") value) (prop path "rawValuesOffchain")
  parse_literal_true (get (u "sensitiveFieldsExcluded") value) (prop path "sensitiveFieldsExcluded")
  ok (record { file_metadata_included = included })

module _ (host : Host) where
  unfoldable pub parse_submission_attempt : Value → JsonPath → Result SubmissionAttempt
  parse_submission_attempt input path = do
    value ← as_record input path
    assert_keys value (u "encoding" ∷ u "method" ∷ u "targetUrl" ∷ u "trigger" ∷ []) [] path
    encoding ← parse_enum (get (u "encoding") value) form_encodings (prop path "encoding")
    method ← normalize_http_method host (get (u "method") value) (prop path "method")
    target_url ← normalize_url host (get (u "targetUrl") value) (prop path "targetUrl")
    trigger ← parse_enum (get (u "trigger") value) submission_triggers (prop path "trigger")
    ok (record { encoding = encoding; method = method; target_url = target_url; trigger = trigger })
