-- ===== src/Text/Order.antt =====
-- Equality of texts, and `compareCanonicalText` of packages/receipt-core/src/normalize.ts.
use submittedit.Common.{
  ◌≡◌, refl, ◌≢◌, ◌↔◌, true, false, List, [], ◌∷◌, arith, Ordering, ltb, if◌then◌else◌,
}
use submittedit.Common.Lists.{All}
use submittedit.Text.{Text, text_eq, contains}

text_eq_sound : (s t : Text) → text_eq s t ≡ true → s ≡ t
unfolding text_eq
text_eq_sound [] [] h = refl
text_eq_sound (a ∷ s) (b ∷ t) h = ground (arith, text_eq_sound s t)
text_eq_sound [] (b ∷ t) h = cc
text_eq_sound (a ∷ s) [] h = cc

pub text_eq_refl : (s : Text) → text_eq s s ≡ true
unfolding text_eq
text_eq_refl [] = refl
text_eq_refl (a ∷ s) = ground (arith, text_eq_refl s)

text_eq_complete : (s t : Text) → s ≡ t → text_eq s t ≡ true
text_eq_complete s t e = ground (arith, text_eq_refl s)

pub text_eq_iff : (s t : Text) → (text_eq s t ≡ true) ↔ (s ≡ t)
text_eq_iff s t = (text_eq_sound s t, text_eq_complete s t)

-- `first < second ? -1 : first > second ? 1 : 0`, by code units.
unfoldable pub compare_canonical_text : Text → Text → Ordering
compare_canonical_text [] [] = Ordering.eq
compare_canonical_text [] (b ∷ t) = Ordering.lt
compare_canonical_text (a ∷ s) [] = Ordering.gt
compare_canonical_text (a ∷ s) (b ∷ t) =
    let rest = compare_canonical_text s t in
    if ltb a b then Ordering.lt else if ltb b a then Ordering.gt else rest

pub compare_refl : (s : Text) → compare_canonical_text s s ≡ Ordering.eq
unfolding compare_canonical_text
compare_refl [] = refl
compare_refl (a ∷ s) = ground (arith, compare_refl s)

pub compare_eq : (s t : Text) → compare_canonical_text s t ≡ Ordering.eq → s ≡ t
unfolding compare_canonical_text
compare_eq [] [] h = refl
compare_eq (a ∷ s) (b ∷ t) h = ground (arith, compare_eq s t)
compare_eq [] (b ∷ t) h = cc
compare_eq (a ∷ s) [] h = cc

-- The opposite of a comparison.
abbrev pub flip : Ordering → Ordering
flip Ordering.lt = Ordering.gt
flip Ordering.eq = Ordering.eq
flip Ordering.gt = Ordering.lt

pub compare_flip : (s t : Text) → compare_canonical_text t s ≡ flip (compare_canonical_text s t)
unfolding compare_canonical_text
compare_flip [] [] = refl
compare_flip [] (b ∷ t) = refl
compare_flip (a ∷ s) [] = refl
compare_flip (a ∷ s) (b ∷ t) = ground (arith, compare_flip s t)

pub compare_trans :
    (s t v : Text)
    → compare_canonical_text s t ≡ Ordering.lt
    → compare_canonical_text t v ≡ Ordering.lt
    → compare_canonical_text s v ≡ Ordering.lt
unfolding compare_canonical_text
compare_trans [] (b ∷ t) (c ∷ v) h k = refl
compare_trans (a ∷ s) (b ∷ t) (c ∷ v) h k = ground (arith, compare_trans s t v)
compare_trans [] [] v h k = cc
compare_trans [] (b ∷ t) [] h k = cc
compare_trans (a ∷ s) [] v h k = cc
compare_trans (a ∷ s) (b ∷ t) [] h k = cc

pub text_eq-eq-false : (s t : Text) → text_eq s t ≡ false → s ≢ t
text_eq-eq-false s t h e = ground (arith, text_eq_complete s t e)

pub text_eq_of_ne : (s t : Text) → s ≢ t → text_eq s t ≡ false
text_eq_of_ne s t h = ground (arith, text_eq_sound s t)

-- A text that a list does not contain differs from each of its members.
pub contains-eq-false : (ts : List Text) (s : Text) → contains ts s ≡ false → All (λ t. t ≢ s) ts
unfolding contains
contains-eq-false [] s h = tt
contains-eq-false (t ∷ ts) s h =
    (text_eq-eq-false t s (ground arith), contains-eq-false ts s (ground arith))

pub not_contains_of_All : (ts : List Text) (s : Text) → All (λ t. t ≢ s) ts → contains ts s ≡ false
unfolding contains
not_contains_of_All [] s h = refl
not_contains_of_All (t ∷ ts) s (n, h) = rw (text_eq_of_ne t s n) (not_contains_of_All ts s h)
