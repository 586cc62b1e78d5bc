-- ===== src/Capture/Placed.antt =====
-- packages/receipt-core/src/capture-policy.ts, `applyCapturePolicy`: the loop over the candidates.
use submittedit.Common.{
  not, ◌≡◌, refl, subst, arith, ℕ, suc, ◌+◌, Ordering, Bool, false, ◌&&◌, Option, none, some, List,
  [], ◌∷◌, ◌++◌, map,
}
use submittedit.Common.Lists.{length, length-append, All}
use submittedit.Result.{
  Result, ok, ok-injective, JsonPath, root, prop, invert, index, map_indexed_from,
  map_indexed_from-cons,
}
use submittedit.Value.{Value}
use submittedit.Host.{Host}
use submittedit.Types.{CapturedField, value_field, file_field, ExclusionReason}
use submittedit.Schema.Sorting.{insert_by, sort_by}
use submittedit.Schema.Form.{is_hidden}
use submittedit.Schema.Core.{is_file}
use submittedit.Sensitive.{is_sensitive_hidden_field_name}
use submittedit.Capture.Candidate.{RawFieldCandidate, normalize_candidate}
use submittedit.Capture.Policy.{
  exclusion, exclusion_reason, capture_field, PolicyState, place_candidate, policy_step,
  policy_from,
}

length-insert_by {ℓ} :
    {A : Type ℓ} (f : A → A → Ordering) (x : A) (xs : List A)
    → length (insert_by f x xs) ≡ suc (length xs)
unfolding insert_by
length-insert_by f x [] = refl
length-insert_by f x (y ∷ ys) = ground (arith, length-insert_by f x ys)

pub length-sort_by {ℓ} :
    {A : Type ℓ} (f : A → A → Ordering) (xs : List A) → length (sort_by f xs) ≡ length xs
unfolding sort_by
length-sort_by f [] = refl
length-sort_by f (x ∷ xs) = ground (arith, length-insert_by f x (sort_by f xs), length-sort_by f xs)

pub length-map {ℓ κ} :
    {A : Type ℓ} {B : Type κ} (f : A → B) (xs : List A) → length (map f xs) ≡ length xs
length-map f [] = refl
length-map f (x ∷ xs) = ground (arith, length-map f xs)

abbrev count : PolicyState → ℕ
count s = length s.captured + length s.excluded

module _ {ℓ κ} {A : Type ℓ} {B : Type κ} (parse : Value → JsonPath → Result B)
    (encode : A → Value) where
  pub All-map_indexed_from {μ ν} :
      (P : A → Type μ) (Q : B → Type ν)
      → ((a : A) (p : JsonPath) (b : B) → P a → parse (encode a) p ≡ ok b → Q b)
      → (xs : List A) (p : JsonPath) (i : ℕ) (bs : List B) → All P xs
      → map_indexed_from parse p i (map encode xs) ≡ ok bs
      → All Q bs
  unfolding map_indexed_from
  All-map_indexed_from P Q step xs p i [] h e = tt
  All-map_indexed_from P Q step [] p i (b ∷ bs) h e = cc
  All-map_indexed_from P Q step (a ∷ xs) p i (b ∷ bs) (h, hs) e =
      let (first, rest) = map_indexed_from-cons parse p i (encode a) (map encode xs) b bs e in
      (step a (index p i) b h first, All-map_indexed_from P Q step xs p (suc i) bs hs rest)

All-append {ℓ κ} :
    {A : Type ℓ} (P : A → Type κ) (xs : List A) (x : A) → All P xs → P x → All P (xs ++ (x ∷ []))
All-append P [] x h p = (p, tt)
All-append P (y ∷ ys) x (q, h) p = (q, All-append P ys x h p)

-- A file is captured only with the opt-in.
abbrev pub HasConsent : Bool → CapturedField → Type 0
HasConsent include f = (is_file f && not include) ≡ false

module _ (host : Host) where
  -- A hidden field with a sensitive name is not captured.
  abbrev pub IsHarmless : CapturedField → Type 0
  IsHarmless (value_field f) =
      (is_hidden f.control_type && is_sensitive_hidden_field_name host f.name) ≡ false
  IsHarmless (file_field f) = Unit

  place_candidate-count :
      (reason : Option ExclusionReason) (c : RawFieldCandidate) (s t : PolicyState) (p : JsonPath)
      → place_candidate reason c s p ≡ ok t
      → count t ≡ suc (count s)
  unfolding place_candidate
  place_candidate-count none c s t p h = invert (capture_field c p) _ h λ f taken made.
      subst (λ (x : PolicyState). count x ≡ suc (count s)) (ok-injective made)
        (ground (arith, length-append s.captured (f ∷ [])))
  place_candidate-count (some r) c s t p h =
      subst (λ (x : PolicyState). count x ≡ suc (count s)) (ok-injective h)
        (ground
          (arith, length-append s.excluded (exclusion c.field_id c.control_type r c.name ∷ [])))

  pub policy_from-count :
      (include : Bool) (i : ℕ) (s t : PolicyState) (input : List Value)
      → policy_from host include i s input ≡ ok t
      → count t ≡ count s + length input
  unfolding policy_from policy_step
  policy_from-count include i s t [] h = ground arith
  policy_from-count include i s t (raw ∷ input) h =
      invert (policy_step host include i s raw) _ h λ next stepped rest.
        invert (normalize_candidate host raw (index (prop root "fields") i)) _ stepped
          λ c read placed.
            let step =
              place_candidate-count (exclusion_reason host c include) c
                (record s { ids = c.field_id ∷ s.ids }) next (index (prop root "fields") i)
                (ground arith) in
            let later = policy_from-count include (suc i) next t input rest in ground arith

  capture_field-HasConsent :
      (include : Bool) (c : RawFieldCandidate) (p : JsonPath) (f : CapturedField)
      → exclusion_reason host c include ≡ none
      → capture_field c p ≡ ok f
      → HasConsent include f
  unfolding exclusion_reason capture_field
  capture_field-HasConsent include c p f r h = ground arith

  place_candidate-HasConsent :
      (include : Bool) (reason : Option ExclusionReason) (c : RawFieldCandidate) (s t : PolicyState)
      (p : JsonPath)
      → exclusion_reason host c include ≡ reason
      → All (HasConsent include) s.captured
      → place_candidate reason c s p ≡ ok t
      → All (HasConsent include) t.captured
  unfolding place_candidate
  place_candidate-HasConsent include none c s t p r a h =
      invert (capture_field c p) _ h λ f taken made.
        subst (λ (x : PolicyState). All (HasConsent include) x.captured) (ok-injective made)
          (All-append (HasConsent include) s.captured f a
            (capture_field-HasConsent include c p f r taken))
  place_candidate-HasConsent include (some r) c s t p q a h =
      subst (λ (x : PolicyState). All (HasConsent include) x.captured) (ok-injective h) a

  pub policy_from-HasConsent :
      (include : Bool) (i : ℕ) (s t : PolicyState) (input : List Value)
      → All (HasConsent include) s.captured
      → policy_from host include i s input ≡ ok t
      → All (HasConsent include) t.captured
  unfolding policy_from policy_step
  policy_from-HasConsent include i s t [] a h =
      subst (λ (x : PolicyState). All (HasConsent include) x.captured) (ok-injective h) a
  policy_from-HasConsent include i s t (raw ∷ input) a h =
      invert (policy_step host include i s raw) _ h λ next stepped rest.
        invert (normalize_candidate host raw (index (prop root "fields") i)) _ stepped
          λ c read placed.
            policy_from-HasConsent include (suc i) next t input
              (place_candidate-HasConsent include (exclusion_reason host c include) c
                (record s { ids = c.field_id ∷ s.ids }) next (index (prop root "fields") i) refl a
                (ground arith))
              rest
