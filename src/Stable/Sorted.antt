-- ===== src/Stable/Sorted.antt =====
-- packages/receipt-core/src/schema.ts, `parseCapturedFields` and `parseExcludedFields`: the sorted
-- lists, read again.
use submittedit.Common.{◌≡◌, subst, arith, true, false, List, map}
use submittedit.Common.Lists.{All}
use submittedit.Text.{Text}
use submittedit.Text.Order.{compare_flip}
use submittedit.Result.{ok, JsonPath, invert, map_indexed}
use submittedit.Value.{Value}
use submittedit.Value.Read.{parse_array}
use submittedit.Host.{Host, IsLawful}
use submittedit.Types.{CapturedField, ExcludedFieldDescriptor}
use submittedit.Types.EnumNames.{control_type_name}
use submittedit.Types.Values.{captured_value, excluded_value, array_value}
use submittedit.Schema.Sorting.{after, has_repeated}
use submittedit.Schema.Form.{
  parse_captured_field, parse_excluded_field, compare_fields, captured_key, excluded_key,
  captured_id, captured_name, captured_control, excluded_id, name_or_empty, sort_captured,
  sort_excluded, parse_captured_fields, parse_excluded_fields,
}
use submittedit.Stable.Lists.{IsStable, map_stable, All-IsStable, All-sort_by, sort_by_idem}
use submittedit.Stable.Fields.{parse_captured_field_stable, parse_excluded_field_stable}

compare_fields_asym :
    (n i c n' i' c' : Text)
    → after (compare_fields (n, i, c) (n', i', c')) ≡ true
    → after (compare_fields (n', i', c') (n, i, c)) ≡ false
unfolding compare_fields
compare_fields_asym n i c n' i' c' h =
    ground (arith, compare_flip n n', compare_flip i i', compare_flip c c')

pub captured_asym :
    (f g : CapturedField)
    → after (compare_fields (captured_key f) (captured_key g)) ≡ true
    → after (compare_fields (captured_key g) (captured_key f)) ≡ false
captured_asym f g =
    compare_fields_asym (captured_name f) (captured_id f) (control_type_name (captured_control f))
      (captured_name g) (captured_id g) (control_type_name (captured_control g))

sort_captured_idem : (fs : List CapturedField) → sort_captured (sort_captured fs) ≡ sort_captured fs
unfolding sort_captured
sort_captured_idem =
    sort_by_idem (λ f g. compare_fields (captured_key f) (captured_key g)) captured_asym

sort_excluded_idem :
    (fs : List ExcludedFieldDescriptor) → sort_excluded (sort_excluded fs) ≡ sort_excluded fs
unfolding sort_excluded
sort_excluded_idem =
    sort_by_idem (λ f g. compare_fields (excluded_key f) (excluded_key g))
      λ f g.
        compare_fields_asym (name_or_empty f.name) f.field_id (control_type_name f.control_type)
          (name_or_empty g.name) g.field_id (control_type_name g.control_type)

module _ (host : Host) where
  reparse_captured_fields :
      (fs : List CapturedField) (q : JsonPath)
      → All (IsStable (parse_captured_field host) captured_value) fs
      → sort_captured fs ≡ fs
      → has_repeated (map captured_id fs) ≡ false
      → parse_captured_fields host (array_value captured_value fs) q ≡ ok fs
  unfolding parse_captured_fields parse_array
  reparse_captured_fields fs q a s d =
      simp (map_stable (parse_captured_field host) captured_value fs q a, s, d)

  reparse_excluded_fields :
      (fs : List ExcludedFieldDescriptor) (q : JsonPath)
      → All (IsStable (parse_excluded_field host) excluded_value) fs
      → sort_excluded fs ≡ fs
      → has_repeated (map excluded_id fs) ≡ false
      → parse_excluded_fields host (array_value excluded_value fs) q ≡ ok fs
  unfolding parse_excluded_fields parse_array
  reparse_excluded_fields fs q a s d =
      simp (map_stable (parse_excluded_field host) excluded_value fs q a, s, d)

module _ (host : Host) (lawful : IsLawful host) where
  sort_captured-IsStable :
      (fs : List CapturedField)
      → All (IsStable (parse_captured_field host) captured_value) fs
      → All (IsStable (parse_captured_field host) captured_value) (sort_captured fs)
  unfolding sort_captured
  sort_captured-IsStable fs a = All-sort_by _ _ fs a

  sort_excluded-IsStable :
      (fs : List ExcludedFieldDescriptor)
      → All (IsStable (parse_excluded_field host) excluded_value) fs
      → All (IsStable (parse_excluded_field host) excluded_value) (sort_excluded fs)
  unfolding sort_excluded
  sort_excluded-IsStable fs a = All-sort_by _ _ fs a

  -- If `parseCapturedFields` returns the list `fs`, then it reads `fs` as `fs`, in the same order, at
  -- any path.
  pub parse_captured_fields_stable :
      (v : Value) (p : JsonPath) (fs : List CapturedField)
      → parse_captured_fields host v p ≡ ok fs
      → (q : JsonPath) → parse_captured_fields host (array_value captured_value fs) q ≡ ok fs
  unfolding parse_captured_fields
  parse_captured_fields_stable v p fs h q = invert (parse_array v p) _ h λ vs read h.
      invert (map_indexed (parse_captured_field host) p vs) _ h λ gs mapped h.
        let stable = sort_captured-IsStable gs (
          All-IsStable (parse_captured_field host) captured_value
            (parse_captured_field_stable host lawful) vs p gs mapped) in
        let made : sort_captured gs ≡ fs = ground arith in
        let unique : has_repeated (map captured_id (sort_captured gs)) ≡ false = ground arith in
        subst (λ l. parse_captured_fields host (array_value captured_value l) q ≡ ok l) made
          (reparse_captured_fields host (sort_captured gs) q stable (sort_captured_idem gs) unique)

  -- If `parseExcludedFields` returns the list `fs`, then it reads `fs` as `fs`, in the same order, at
  -- any path.
  pub parse_excluded_fields_stable :
      (v : Value) (p : JsonPath) (fs : List ExcludedFieldDescriptor)
      → parse_excluded_fields host v p ≡ ok fs
      → (q : JsonPath) → parse_excluded_fields host (array_value excluded_value fs) q ≡ ok fs
  unfolding parse_excluded_fields
  parse_excluded_fields_stable v p fs h q = invert (parse_array v p) _ h λ vs read h.
      invert (map_indexed (parse_excluded_field host) p vs) _ h λ gs mapped h.
        let stable = sort_excluded-IsStable gs (
          All-IsStable (parse_excluded_field host) excluded_value
            (parse_excluded_field_stable host lawful) vs p gs mapped) in
        let made : sort_excluded gs ≡ fs = ground arith in
        let unique : has_repeated (map excluded_id (sort_excluded gs)) ≡ false = ground arith in
        subst (λ l. parse_excluded_fields host (array_value excluded_value l) q ≡ ok l) made
          (reparse_excluded_fields host (sort_excluded gs) q stable (sort_excluded_idem gs) unique)
