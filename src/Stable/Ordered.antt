-- ===== src/Stable/Ordered.antt =====
-- packages/receipt-core/src/schema.ts, `compareFields` and `parseCapturedFields`: the order of the captured
-- fields.
use submittedit.Common.{
  ℕ, ◌<◌, ◌≡◌, inl, inr, refl, subst, false, List, [], ◌∷◌, Ordering, arith, ltb, Bool-cases,
}
use mathlib.Core.List.{Perm}
use mathlib.Core.List.Perm
use submittedit.Text.{Text}
use submittedit.Text.Order.{compare_canonical_text, compare_eq}
use submittedit.Result.{ok, JsonPath, invert, map_indexed}
use submittedit.Value.{Value}
use submittedit.Value.Read.{parse_array}
use submittedit.Host.{Host}
use submittedit.Types.{CapturedField}
use submittedit.Types.EnumNames.{control_type_name}
use submittedit.Schema.Sorting.{after, then_by, insert_by, sort_by}
use submittedit.Schema.Form.{
  parse_captured_field, compare_fields, captured_key, captured_id, captured_name, captured_control,
  sort_captured, parse_captured_fields,
}
use submittedit.Stable.Lists.{IsSorted, sort_by-IsSorted}
use submittedit.Stable.Sorted.{captured_asym}

-- The order of texts by their code units, in which a beginning of a text comes before it.
pub data IsBefore : Text → Text → Type 0 where
  ends_first : {b : ℕ} {t : Text} → IsBefore [] (b ∷ t)
  unit_first : {a b : ℕ} {s t : Text} → a < b → IsBefore (a ∷ s) (b ∷ t)
  same_unit : {a : ℕ} {s t : Text} → IsBefore s t → IsBefore (a ∷ s) (a ∷ t)

-- The order of two fields: by their names, where these are the same by their identifiers, and then by
-- the names of their control types.
pub data IsNotAfter (f g : CapturedField) : Type 0 where
  by_name : IsBefore (captured_name f) (captured_name g) → IsNotAfter f g
  by_id :
      captured_name f ≡ captured_name g → IsBefore (captured_id f) (captured_id g) → IsNotAfter f g
  by_control :
      captured_name f ≡ captured_name g
      → captured_id f ≡ captured_id g
      → IsBefore (control_type_name (captured_control f)) (control_type_name (captured_control g))
      → IsNotAfter f g
  same_field :
      captured_name f ≡ captured_name g
      → captured_id f ≡ captured_id g
      → control_type_name (captured_control f) ≡ control_type_name (captured_control g)
      → IsNotAfter f g

abbrev pub AreInOrder : List CapturedField → Type 0
AreInOrder [] = Unit
AreInOrder (f ∷ []) = Unit
AreInOrder (f ∷ g ∷ fs) = IsNotAfter f g × AreInOrder (g ∷ fs)

lt-IsBefore : (s t : Text) → compare_canonical_text s t ≡ Ordering.lt → IsBefore s t
unfolding compare_canonical_text
lt-IsBefore [] [] h = cc
lt-IsBefore [] (b ∷ t) h = ends_first
lt-IsBefore (a ∷ s) [] h = cc
lt-IsBefore (a ∷ s) (b ∷ t) h = elim (Bool-cases (ltb a b)) [
  | inl less ↦ unit_first (ground arith)
  | inr e ↦
      let same : a ≡ b = ground arith in
      let rest : compare_canonical_text s t ≡ Ordering.lt = ground arith in
      subst (λ c. IsBefore (a ∷ s) (c ∷ t)) same (same_unit (lt-IsBefore s t rest))
]

compared-IsNotAfter :
    (f g : CapturedField) (o p q : Ordering)
    → compare_canonical_text (captured_name f) (captured_name g) ≡ o
    → compare_canonical_text (captured_id f) (captured_id g) ≡ p
    → compare_canonical_text
        (control_type_name (captured_control f))
        (control_type_name (captured_control g))
      ≡ q
    → after (then_by o (then_by p q)) ≡ false
    → IsNotAfter f g
compared-IsNotAfter f g Ordering.lt p q n i c h = by_name (lt-IsBefore _ _ n)
compared-IsNotAfter f g Ordering.gt p q n i c h = cc
compared-IsNotAfter f g Ordering.eq Ordering.lt q n i c h =
    by_id (compare_eq _ _ n) (lt-IsBefore _ _ i)
compared-IsNotAfter f g Ordering.eq Ordering.gt q n i c h = cc
compared-IsNotAfter f g Ordering.eq Ordering.eq Ordering.lt n i c h =
    by_control (compare_eq _ _ n) (compare_eq _ _ i) (lt-IsBefore _ _ c)
compared-IsNotAfter f g Ordering.eq Ordering.eq Ordering.gt n i c h = cc
compared-IsNotAfter f g Ordering.eq Ordering.eq Ordering.eq n i c h =
    same_field (compare_eq _ _ n) (compare_eq _ _ i) (compare_eq _ _ c)

sorted-AreInOrder :
    (fs : List CapturedField)
    → IsSorted (λ f g. compare_fields (captured_key f) (captured_key g)) fs
    → AreInOrder fs
unfolding compare_fields
sorted-AreInOrder [] h = tt
sorted-AreInOrder (f ∷ []) h = tt
sorted-AreInOrder (f ∷ g ∷ fs) (low, h) =
    (compared-IsNotAfter f g _ _ _ refl refl refl low, sorted-AreInOrder (g ∷ fs) h)

module _ {ℓ} {A : Type ℓ} (compare_by : A → A → Ordering) where
  insert_by-Perm : (x : A) (ys : List A) → Perm (insert_by compare_by x ys) (x ∷ ys)
  unfolding insert_by
  insert_by-Perm x [] = Perm.refl _
  insert_by-Perm x (y ∷ ys) = elim (Bool-cases (after (compare_by x y))) [
    | inl e ↦ rw (e) (Perm.trans (Perm.cons y (insert_by-Perm x ys)) (Perm.swap x y ys))
    | inr e ↦ rw (e) (Perm.refl _)
  ]

  sort_by-Perm : (xs : List A) → Perm (sort_by compare_by xs) xs
  unfolding sort_by
  sort_by-Perm [] = Perm.refl _
  sort_by-Perm (x ∷ xs) =
      Perm.trans (insert_by-Perm x (sort_by compare_by xs)) (Perm.cons x (sort_by-Perm xs))

-- What the fields that are read of a value are put into.
pub record IsOrderOf (host : Host) (v : Value) (p : JsonPath) (fs : List CapturedField)
    : Type 0 where
  pub values : List Value
  pub given : List CapturedField
  pub array : parse_array v p ≡ ok values
  pub read : map_indexed (parse_captured_field host) p values ≡ ok given
  pub same_fields : Perm fs given
  pub in_order : AreInOrder fs

-- If `parseCapturedFields` returns `fs`, then the value is an array whose items read as fields, and
-- `fs` has just these fields, ordered by their names in code units, where the names are the same by
-- their identifiers, and where these are too by their control types.
pub parse_captured_fields-IsOrderOf :
    (host : Host) (v : Value) (p : JsonPath) (fs : List CapturedField)
    → parse_captured_fields host v p ≡ ok fs
    → IsOrderOf host v p fs
unfolding parse_captured_fields sort_captured
parse_captured_fields-IsOrderOf host v p fs h = invert (parse_array v p) _ h λ vs array h.
    invert (map_indexed (parse_captured_field host) p vs) _ h λ gs read h.
      let made : sort_captured gs ≡ fs = ground arith in
      subst (IsOrderOf host v p) made (record {
        values = vs;
        given = gs;
        array = array;
        read = read;
        same_fields = sort_by-Perm _ gs;
        in_order = sorted-AreInOrder _ (sort_by-IsSorted _ captured_asym gs);
      })
