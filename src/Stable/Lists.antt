-- ===== src/Stable/Lists.antt =====
-- packages/receipt-core/src/schema.ts: arrays of records that are read again, and sorting what is
-- sorted.
use submittedit.Common.{
  ◌≡◌, refl, ap, true, false, Option, none, some, List, [], ◌∷◌, map, ℕ, suc, Ordering, Bool-cases,
  inl, inr,
}
use submittedit.Common.Lists.{All}
use submittedit.Result.{
  Result, ok, JsonPath, index, map_indexed, map_indexed_from, map_indexed_from-cons,
}
use submittedit.Value.{Value, elems, of_list}
use submittedit.Schema.Sorting.{after, insert_by, sort_by}

-- A value reads as itself, wherever it stands.
abbrev pub IsStable {ℓ} : {A : Type ℓ} → (Value → JsonPath → Result A) → (A → Value) → A → Type ℓ
IsStable parse encode a = (q : JsonPath) → parse (encode a) q ≡ ok a

abbrev pub IsStableOption {ℓ} :
    {A : Type ℓ} → (Value → JsonPath → Result A) → (A → Value) → Option A → Type ℓ
IsStableOption parse encode none = Unit
IsStableOption parse encode (some a) = IsStable parse encode a

pub elems-of_list : (vs : List Value) → elems (of_list vs) ≡ vs
elems-of_list [] = refl
elems-of_list (v ∷ vs) = ap (λ t. v ∷ t) (elems-of_list vs)

module _ {ℓ} {A : Type ℓ} (parse : Value → JsonPath → Result A) (encode : A → Value) where
  -- Whatever the reader returns is stable.
  abbrev pub ReadsStable : Type ℓ
  ReadsStable = (v : Value) (p : JsonPath) (a : A) → parse v p ≡ ok a → IsStable parse encode a

  map_stable_from :
      (xs : List A) (q : JsonPath) (i : ℕ)
      → All (IsStable parse encode) xs
      → map_indexed_from parse q i (map encode xs) ≡ ok xs
  unfolding map_indexed_from
  map_stable_from [] q i h = refl
  map_stable_from (x ∷ xs) q i (s, h) = rw (s (index q i), map_stable_from xs q (suc i) h) refl

  pub map_stable :
      (xs : List A) (q : JsonPath)
      → All (IsStable parse encode) xs
      → map_indexed parse q (elems (of_list (map encode xs))) ≡ ok xs
  unfolding map_indexed
  map_stable xs q h = rw elems-of_list (map_stable_from xs q 0 h)

  All-IsStable_from :
      ReadsStable
      → (vs : List Value) (p : JsonPath) (i : ℕ) (xs : List A)
      → map_indexed_from parse p i vs ≡ ok xs
      → All (IsStable parse encode) xs
  unfolding map_indexed_from
  All-IsStable_from stable vs p i [] h = tt
  All-IsStable_from stable [] p i (x ∷ xs) h = cc
  All-IsStable_from stable (v ∷ vs) p i (x ∷ xs) h =
      let (first, rest) = map_indexed_from-cons parse p i v vs x xs h in
      (stable v (index p i) x first, All-IsStable_from stable vs p (suc i) xs rest)

  pub All-IsStable :
      ReadsStable
      → (vs : List Value) (p : JsonPath) (xs : List A) → map_indexed parse p vs ≡ ok xs
      → All (IsStable parse encode) xs
  unfolding map_indexed
  All-IsStable stable vs p xs h = All-IsStable_from stable vs p 0 xs h

module _ {ℓ} {A : Type ℓ} (compare_by : A → A → Ordering) where
  All-insert_by {κ} :
      (P : A → Type κ) (x : A) (ys : List A) → P x → All P ys → All P (insert_by compare_by x ys)
  unfolding insert_by
  All-insert_by P x [] p h = (p, tt)
  All-insert_by P x (y ∷ ys) p (q, h) = elim (Bool-cases (after (compare_by x y))) [
    | inl e ↦ rw e (q, All-insert_by P x ys p h)
    | inr e ↦ rw e (p, (q, h))
  ]

  pub All-sort_by {κ} : (P : A → Type κ) (xs : List A) → All P xs → All P (sort_by compare_by xs)
  unfolding sort_by
  All-sort_by P [] h = tt
  All-sort_by P (x ∷ xs) (p, h) = All-insert_by P x (sort_by compare_by xs) p (All-sort_by P xs h)

  -- No neighbour sorts strictly before the one in front of it.
  abbrev pub IsSorted : List A → Type 0
  IsSorted [] = Unit
  IsSorted (x ∷ []) = Unit
  IsSorted (x ∷ y ∷ ys) = (after (compare_by x y) ≡ false) × IsSorted (y ∷ ys)

  pub sort_by-eq_self : (xs : List A) → IsSorted xs → sort_by compare_by xs ≡ xs
  unfolding sort_by insert_by
  sort_by-eq_self [] h = refl
  sort_by-eq_self (x ∷ []) h = refl
  sort_by-eq_self (x ∷ y ∷ ys) (e, h) = rw (sort_by-eq_self (y ∷ ys) h, e) refl

  module _ (asym : (x y : A) → after (compare_by x y) ≡ true → after (compare_by y x) ≡ false) where
    insert_by-IsSorted : (x : A) (ys : List A) → IsSorted ys → IsSorted (insert_by compare_by x ys)
    unfolding insert_by
    insert_by-IsSorted x [] h = tt
    insert_by-IsSorted x (y ∷ []) h = elim (Bool-cases (after (compare_by x y))) [
      | inl e ↦ rw e (asym x y e, tt)
      | inr e ↦ rw e (e, tt)
    ]
    insert_by-IsSorted x (y ∷ z ∷ ys) (low, h) = elim (Bool-cases (after (compare_by x y))) [
      | inl e ↦
          let rest = insert_by-IsSorted x (z ∷ ys) h in
          elim (Bool-cases (after (compare_by x z))) [
            | inl later ↦ rw (e, later) (low, rw later at rest)
            | inr here ↦ rw (e, here) (asym x y e, rw here at rest)
          ]
      | inr e ↦ rw e (e, (low, h))
    ]

    pub sort_by-IsSorted : (xs : List A) → IsSorted (sort_by compare_by xs)
    unfolding sort_by
    sort_by-IsSorted [] = tt
    sort_by-IsSorted (x ∷ xs) = insert_by-IsSorted x (sort_by compare_by xs) (sort_by-IsSorted xs)

    -- Sorting is idempotent.
    pub sort_by_idem :
        (xs : List A) → sort_by compare_by (sort_by compare_by xs) ≡ sort_by compare_by xs
    sort_by_idem xs = sort_by-eq_self (sort_by compare_by xs) (sort_by-IsSorted xs)
