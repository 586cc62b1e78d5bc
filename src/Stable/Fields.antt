-- ===== src/Stable/Fields.antt =====
-- packages/receipt-core/src/schema.ts, `parseCapturedField`, `parseExcludedField`,
-- `parsePrivacyFlags` and `parseSubmissionAttempt`, applied to what they have returned.
use submittedit.Common.{◌≡◌, refl, arith, false, ◌&&◌, Option, none, some, List, ℕ, pos}
use submittedit.Common.Lists.{All}
use submittedit.Text.{Text, u}
use submittedit.Result.{ok, JsonPath, prop, invert, map_indexed}
use submittedit.Value.{Value, str, num, obj, Fields, get}
use submittedit.Value.Read.{
  reading, as_record, assert_keys, parse_array, parse_enum, parse_optional,
}
use submittedit.Host.{Host, IsLawful}
use submittedit.Types.{
  FieldControlType, value_control, password, file, CapturedFileMetadata, CapturedField, value_field,
  file_field, CapturedValueField, CapturedFileField, ExclusionReason, ExcludedFieldDescriptor,
  PrivacyFlags, SubmissionAttempt,
}
use submittedit.Types.Values.{
  file_metadata_value, captured_value, excluded_value, privacy_value, submission_value,
}
use submittedit.Normalize.{
  normalize_non_empty_text, normalize_optional_text, normalize_non_negative_safe_integer,
  normalize_url, normalize_http_method,
}
use submittedit.Normalize.Timestamp.{normalize_timestamp}
use submittedit.Normalize.Instants.{normalize_timestamp_stable}
use submittedit.Normalize.Stable.{
  normalize_non_empty_text_stable, normalize_optional_text_stable,
  normalize_non_negative_safe_integer_stable,
}
use submittedit.Normalize.Urls.{normalize_url_stable, normalize_http_method_stable}
use submittedit.Sensitive.{is_sensitive_hidden_field_name}
use submittedit.Schema.Tables.{field_control_types}
use submittedit.Schema.Form.{
  parse_file_metadata, parse_string_values, is_hidden, parse_file_field, parse_captured_control,
  parse_captured_field, parse_excluded_field, parse_privacy_flags, parse_submission_attempt,
}
use submittedit.Stable.Enums.{
  parse-control_type_name, parse-reason_name, parse-form_encoding_name, parse-trigger_name,
  parse_optional-eq-some,
}
use submittedit.Stable.Lists.{IsStable, IsStableOption, ReadsStable, map_stable, All-IsStable}
use submittedit.Stable.Form.{optional_name_stable, optional_text_stable}

pub optional_timestamp_stable :
    (key : Text) (fs : Fields) (p : JsonPath) (o : Option Text)
    → parse_optional key fs (λ v. normalize_timestamp v p) ≡ ok o
    → IsStableOption normalize_timestamp str o
optional_timestamp_stable key fs p none h = tt
optional_timestamp_stable key fs p (some t) h =
    λ q. normalize_timestamp_stable (get key fs) p q t (parse_optional-eq-some key fs _ t h)

module _ (host : Host) where
  reparse_file_metadata :
      (modified media : Option Text) (name : Text) (size : ℕ) (q : JsonPath)
      → IsStableOption normalize_timestamp str modified
      → IsStableOption (normalize_optional_text host) str media
      → normalize_non_empty_text host (str name) (prop q "name") ≡ ok name
      → normalize_non_negative_safe_integer (num (pos size)) (prop q "size") ≡ ok size
      → let m : CapturedFileMetadata = record {
        last_modified = modified;
        media_type = media;
        name = name;
        size = size;
      } in
        parse_file_metadata host (file_metadata_value m) q ≡ ok m
  unfolding parse_file_metadata file_metadata_value reading
  reparse_file_metadata none none n s q a b c d = simp (c, d)
  reparse_file_metadata none (some m) n s q a b c d = simp (b, c, d)
  reparse_file_metadata (some t) none n s q a b c d = simp (a, c, d)
  reparse_file_metadata (some t) (some m) n s q a b c d = simp (a, b, c, d)

  reparse_value_field :
      (f : CapturedValueField) (q : JsonPath)
      → normalize_non_empty_text host (str f.field_id) (prop q "fieldId") ≡ ok f.field_id
      → normalize_non_empty_text host (str f.name) (prop q "name") ≡ ok f.name
      → All (IsStable (normalize_optional_text host) str) f.values
      → (is_hidden f.control_type && is_sensitive_hidden_field_name host f.name) ≡ false
      → parse_captured_field host (captured_value (value_field f)) q ≡ ok (value_field f)
  unfolding parse_captured_field parse_string_values captured_value reading
  reparse_value_field f q a b c d = simp (
    parse-control_type_name,
    a,
    b,
    map_stable (normalize_optional_text host) str f.values (prop q "values") c,
    d,
  )

  reparse_file_field :
      (id name : Text) (files : List CapturedFileMetadata) (q : JsonPath)
      → normalize_non_empty_text host (str id) (prop q "fieldId") ≡ ok id
      → normalize_non_empty_text host (str name) (prop q "name") ≡ ok name
      → All (IsStable (parse_file_metadata host) file_metadata_value) files
      → let f = file_field (record { field_id = id; files = files; name = name }) in
        parse_captured_field host (captured_value f) q ≡ ok f
  unfolding parse_captured_field captured_value reading
  reparse_file_field id name files q a b c = simp (
    parse-control_type_name,
    a,
    b,
    map_stable (parse_file_metadata host) file_metadata_value files (prop q "files") c,
  )

  reparse_excluded :
      (control : FieldControlType) (id : Text) (name : Option Text) (reason : ExclusionReason)
      (q : JsonPath)
      → normalize_non_empty_text host (str id) (prop q "fieldId") ≡ ok id
      → IsStableOption (normalize_non_empty_text host) str name
      → let f : ExcludedFieldDescriptor = record {
        control_type = control;
        field_id = id;
        name = name;
        reason = reason;
      } in
        parse_excluded_field host (excluded_value f) q ≡ ok f
  unfolding parse_excluded_field excluded_value reading
  reparse_excluded c i none r q a b = simp (parse-control_type_name, parse-reason_name, a)
  reparse_excluded c i (some n) r q a b = simp (parse-control_type_name, parse-reason_name, a, b)

  reparse_submission :
      (a : SubmissionAttempt) (q : JsonPath)
      → normalize_http_method host (str a.method) (prop q "method") ≡ ok a.method
      → normalize_url host (str a.target_url) (prop q "targetUrl") ≡ ok a.target_url
      → parse_submission_attempt host (submission_value a) q ≡ ok a
  unfolding parse_submission_attempt submission_value reading
  reparse_submission a q m t = simp (parse-form_encoding_name, parse-trigger_name, m, t)

pub parse_privacy_flags_stable :
    (f : PrivacyFlags) (q : JsonPath) → parse_privacy_flags (privacy_value f) q ≡ ok f
unfolding parse_privacy_flags privacy_value reading
parse_privacy_flags_stable f q = refl

module _ (host : Host) (lawful : IsLawful host) where
  pub parse_file_metadata_stable : ReadsStable (parse_file_metadata host) file_metadata_value
  unfolding parse_file_metadata as_record
  parse_file_metadata_stable (obj fs) p m h q =
      reparse_file_metadata host m.last_modified m.media_type m.name m.size q
        (optional_timestamp_stable (u "lastModified") fs (prop p "lastModified") m.last_modified
          (ground arith))
        (optional_text_stable host lawful (u "mediaType") fs (prop p "mediaType") m.media_type
          (ground arith))
        (normalize_non_empty_text_stable host lawful (get (u "name") fs) (prop p "name")
          (prop q "name") m.name (ground arith))
        (normalize_non_negative_safe_integer_stable (get (u "size") fs) (prop p "size")
          (prop q "size") m.size (ground arith))
  parse_file_metadata_stable _ p m h q = cc

  parse_string_values-IsStable :
      (v : Value) (p : JsonPath) (ts : List Text)
      → parse_string_values host v p ≡ ok ts
      → All (IsStable (normalize_optional_text host) str) ts
  unfolding parse_string_values
  parse_string_values-IsStable v p ts h = invert (parse_array v p) _ h λ vs read mapped.
      All-IsStable (normalize_optional_text host) str
        (λ w p' t e q. normalize_optional_text_stable host lawful w p' q t e) vs p ts mapped

  files-IsStable :
      (fs : Fields) (id name : Text) (p : JsonPath) (g : CapturedFileField)
      → parse_file_field host fs id name p ≡ ok (file_field g)
      → All (IsStable (parse_file_metadata host) file_metadata_value) g.files
  unfolding parse_file_field
  files-IsStable fs id name p g h = invert (assert_keys fs _ _ _) _ h λ e k h.
      invert (parse_array (get (u "files") fs) (prop p "files")) _ h λ vs read h.
        invert (map_indexed (parse_file_metadata host) (prop p "files") vs) _ h λ files mapped made.
          All-IsStable (parse_file_metadata host) file_metadata_value parse_file_metadata_stable vs
            (prop p "files") g.files (ground arith)

  control-IsStable :
      (t : FieldControlType) (fs : Fields) (p : JsonPath) (f : CapturedField)
      → parse_captured_control host t fs p ≡ ok f
      → IsStable (parse_captured_field host) captured_value f
  unfolding parse_captured_control
  control-IsStable password fs p f h q = cc
  control-IsStable file fs p (value_field g) h q = ground arith
  control-IsStable (value_control t) fs p (file_field g) h q = ground arith
  control-IsStable file fs p (file_field g) h q =
      let id : normalize_non_empty_text host (get (u "fieldId") fs) (prop p "fieldId")
          ≡ ok g.field_id =
        ground arith in
      let name : normalize_non_empty_text host (get (u "name") fs) (prop p "name") ≡ ok g.name =
        ground arith in
      let files : All (IsStable (parse_file_metadata host) file_metadata_value) g.files =
        invert (normalize_non_empty_text host (get (u "fieldId") fs) (prop p "fieldId")) _ h
          λ id' e h.
            invert (normalize_non_empty_text host (get (u "name") fs) (prop p "name")) _ h
              λ name' e' h. files-IsStable fs id' name' p g h in
      reparse_file_field host g.field_id g.name g.files q
        (normalize_non_empty_text_stable host lawful (get (u "fieldId") fs) (prop p "fieldId")
          (prop q "fieldId") g.field_id id)
        (normalize_non_empty_text_stable host lawful (get (u "name") fs) (prop p "name")
          (prop q "name") g.name name)
        files
  control-IsStable (value_control t) fs p (value_field g) h q =
      reparse_value_field host g q
        (normalize_non_empty_text_stable host lawful (get (u "fieldId") fs) (prop p "fieldId")
          (prop q "fieldId") g.field_id (ground arith))
        (normalize_non_empty_text_stable host lawful (get (u "name") fs) (prop p "name")
          (prop q "name") g.name (ground arith))
        (parse_string_values-IsStable (get (u "values") fs) (prop p "values") g.values
          (ground arith))
        (ground arith)

  pub parse_captured_field_stable : ReadsStable (parse_captured_field host) captured_value
  unfolding parse_captured_field
  parse_captured_field_stable v p f h = invert (as_record v p) _ h λ fs is_object rest.
      invert (parse_enum (get (u "controlType") fs) field_control_types (prop p "controlType")) _
        rest λ t named body. control-IsStable t fs p f body

  pub parse_excluded_field_stable : ReadsStable (parse_excluded_field host) excluded_value
  unfolding parse_excluded_field as_record
  parse_excluded_field_stable (obj fs) p f h q =
      reparse_excluded host f.control_type f.field_id f.name f.reason q
        (normalize_non_empty_text_stable host lawful (get (u "fieldId") fs) (prop p "fieldId")
          (prop q "fieldId") f.field_id (ground arith))
        (optional_name_stable host lawful (u "name") fs (prop p "name") f.name (ground arith))
  parse_excluded_field_stable _ p f h q = cc

  pub parse_submission_attempt_stable : ReadsStable (parse_submission_attempt host) submission_value
  unfolding parse_submission_attempt as_record
  parse_submission_attempt_stable (obj fs) p a h q =
      reparse_submission host a q
        (normalize_http_method_stable host lawful (get (u "method") fs) (prop p "method")
          (prop q "method") a.method (ground arith))
        (normalize_url_stable host lawful (get (u "targetUrl") fs) (prop p "targetUrl")
          (prop q "targetUrl") a.target_url (ground arith))
  parse_submission_attempt_stable _ p a h q = cc
