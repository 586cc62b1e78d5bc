-- ===== src/Capture/Conserved.antt =====
-- packages/receipt-core/src/capture-policy.ts, `applyCapturePolicy`: how many fields it keeps, and
-- which it captures.
use submittedit.Common.{◌≡◌, ◌∙◌, refl, ap, subst, sym, arith, ◌+◌, Bool, List, [], map}
use submittedit.Common.Lists.{length, All}
use submittedit.Result.{
  ok, ok-injective, JsonPath, root, prop, invert, map_indexed, length-map_indexed,
}
use submittedit.Value.{Value, Fields, obj, str, get, elems, of_list}
use submittedit.Host.{Host}
use submittedit.Types.{
  CapturedField, value_field, file_field, FieldControlType, value_control, password, file,
  ExcludedFieldDescriptor,
}
use submittedit.Types.Values.{captured_value, excluded_value, array_value}
use submittedit.Schema.Form.{
  parse_captured_control, captured_control, parse_file_field, parse_value_field,
  parse_captured_field, parse_excluded_field, parse_captured_fields, parse_excluded_fields,
  sort_captured, sort_excluded,
}
use submittedit.Value.Read.{as_record, parse_enum, parse_array}
use submittedit.Text.{u, text_eq}
use submittedit.Stable.Lists.{elems-of_list, All-sort_by}
use submittedit.Schema.Tables.{field_control_types}
use submittedit.Types.EnumNames.{control_type_name}
use submittedit.Stable.Enums.{parse-control_type_name}
use submittedit.Capture.Policy.{PolicyState, CapturePolicyResult, policy_from, apply_capture_policy}
use submittedit.Capture.Placed.{
  length-sort_by, length-map, All-map_indexed_from, HasConsent, IsHarmless, policy_from-count,
  policy_from-HasConsent,
}

module _ (host : Host) where
  parse_captured_control_lem :
      (t : FieldControlType) (fs : Fields) (p : JsonPath) (g : CapturedField)
      → parse_captured_control host t fs p ≡ ok g
      → (captured_control g ≡ t) × IsHarmless host g
  unfolding parse_captured_control parse_file_field parse_value_field
  parse_captured_control_lem password fs p g h = cc
  parse_captured_control_lem file fs p (file_field g) h = (refl, tt)
  parse_captured_control_lem file fs p (value_field g) h = ground arith
  parse_captured_control_lem (value_control t) fs p (value_field g) h = ground arith
  parse_captured_control_lem (value_control t) fs p (file_field g) h = ground arith

  parse_captured_field_lem :
      (t : FieldControlType) (fs : Fields) (p : JsonPath) (g : CapturedField)
      → get (u "controlType") fs ≡ str (control_type_name t)
      → parse_captured_field host (obj fs) p ≡ ok g
      → (captured_control g ≡ t) × IsHarmless host g
  unfolding parse_captured_field as_record
  parse_captured_field_lem t fs p g e h =
      invert (parse_enum (get (u "controlType") fs) field_control_types (prop p "controlType")) _ h
        λ t' read rest.
          let (same, harmless) = parse_captured_control_lem t' fs p g rest in
          let named : parse_enum (str (control_type_name t)) field_control_types
                (prop p "controlType")
              ≡ ok t' =
            rw⁻¹ e read in
          (
            same ∙ ok-injective (sym named ∙ parse-control_type_name t (prop p "controlType")),
            harmless,
          )

  captured_field_allowed :
      (include : Bool) (f : CapturedField) (p : JsonPath) (g : CapturedField)
      → HasConsent include f
      → parse_captured_field host (captured_value f) p ≡ ok g
      → HasConsent include g × IsHarmless host g
  unfolding captured_value get u text_eq
  captured_field_allowed include (value_field f) p g c h =
      let (same, harmless) = parse_captured_field_lem (value_control f.control_type) _ p g refl h in
      (ground arith, harmless)
  captured_field_allowed include (file_field f) p g c h =
      let (same, harmless) = parse_captured_field_lem file _ p g refl h in (ground arith, harmless)

  parse_captured_fields_allowed :
      (include : Bool) (fs gs : List CapturedField) (p : JsonPath)
      → All (HasConsent include) fs
      → parse_captured_fields host (array_value captured_value fs) p ≡ ok gs
      → All (λ g. HasConsent include g × IsHarmless host g) gs × (length gs ≡ length fs)
  unfolding parse_captured_fields parse_array map_indexed sort_captured
  parse_captured_fields_allowed include fs gs p a h =
      let values = elems-of_list (map captured_value fs) in
      invert (map_indexed (parse_captured_field host) p (elems (of_list (map captured_value fs)))) _
        h
        λ hs read made.
          let plain : map_indexed (parse_captured_field host) p (map captured_value fs) ≡ ok hs =
            rw⁻¹ values read in
          let sorted : sort_captured hs ≡ gs = ground arith in
          let allowed =
            All-map_indexed_from (parse_captured_field host) captured_value (HasConsent include)
              (λ g. HasConsent include g × IsHarmless host g) (captured_field_allowed include) fs p
              0 hs a plain in
          (
            subst (All (λ g. HasConsent include g × IsHarmless host g)) sorted
                (All-sort_by _ (λ g. HasConsent include g × IsHarmless host g) hs allowed),
            ap length (sym sorted)
                ∙ length-sort_by _ hs
                ∙ length-map_indexed (parse_captured_field host) p (map captured_value fs) hs plain
                ∙ length-map captured_value fs,
          )

  parse_excluded_fields-length :
      (fs gs : List ExcludedFieldDescriptor) (p : JsonPath)
      → parse_excluded_fields host (array_value excluded_value fs) p ≡ ok gs
      → length gs ≡ length fs
  unfolding parse_excluded_fields parse_array sort_excluded
  parse_excluded_fields-length fs gs p h =
      let values = elems-of_list (map excluded_value fs) in
      invert (map_indexed (parse_excluded_field host) p (elems (of_list (map excluded_value fs)))) _
        h
        λ hs read made.
          let plain : map_indexed (parse_excluded_field host) p (map excluded_value fs) ≡ ok hs =
            rw⁻¹ values read in
          let sorted : sort_excluded hs ≡ gs = ground arith in
          ap length (sym sorted)
          ∙ length-sort_by _ hs
          ∙ length-map_indexed (parse_excluded_field host) p (map excluded_value fs) hs plain
          ∙ length-map excluded_value fs

  -- If `applyCapturePolicy` succeeds, the numbers of captured and excluded fields add up to the number
  -- of candidates, no file is captured without the opt-in, and no hidden field with a sensitive name
  -- is captured.
  pub apply_capture_policy-IsPrivate :
      (input : List Value) (include : Bool) (r : CapturePolicyResult)
      → apply_capture_policy host input include ≡ ok r
      → (length r.captured_fields + length r.excluded_fields ≡ length input)
        × All (λ f. HasConsent include f × IsHarmless host f) r.captured_fields
  unfolding apply_capture_policy
  apply_capture_policy-IsPrivate input include r h =
      let start : PolicyState = record { captured = []; excluded = []; ids = [] } in
      invert (policy_from host include 0 start input) _ h λ s ran h.
        invert
          (parse_captured_fields host (array_value captured_value s.captured)
            (prop root "capturedFields"))
          _ h
          λ cs captured h.
            invert
              (parse_excluded_fields host (array_value excluded_value s.excluded)
                (prop root "excludedFields"))
              _ h
              λ es excluded made.
                let consent = policy_from-HasConsent host include 0 start s input tt ran in
                let (allowed, kept) =
                  parse_captured_fields_allowed include s.captured cs (prop root "capturedFields")
                    consent captured in
                let left =
                  parse_excluded_fields-length s.excluded es (prop root "excludedFields")
                    excluded in
                let total = policy_from-count host include 0 start s input ran in
                subst
                  (λ (x : CapturePolicyResult).
                    (length x.captured_fields + length x.excluded_fields ≡ length input)
                    × All (λ f. HasConsent include f × IsHarmless host f) x.captured_fields)
                  (ok-injective made) (ground arith, allowed)
