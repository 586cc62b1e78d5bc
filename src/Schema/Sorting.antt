-- ===== src/Schema/Sorting.antt =====
-- `Array.prototype.sort`, which is stable, as an insertion sort; and the loops that look for a
-- repeated identifier.
use submittedit.Common.{Bool, true, false, ◌||◌, List, [], ◌∷◌, Ordering, if◌then◌else◌}
use submittedit.Text.{Text, contains}

-- Whether the second argument sorts strictly before the first.
abbrev pub after : Ordering → Bool
after Ordering.gt = true
after _ = false

module _ {ℓ} {A : Type ℓ} (compare_by : A → A → Ordering) where
  unfoldable pub insert_by : A → List A → List A
  insert_by x [] = x ∷ []
  insert_by x (y ∷ ys) = if after (compare_by x y) then y ∷ insert_by x ys else x ∷ y ∷ ys

  unfoldable pub sort_by : List A → List A
  unfolding insert_by
  sort_by [] = []
  sort_by (x ∷ xs) = insert_by x (sort_by xs)

-- The first result that is not "equal", as `||` chooses among comparisons.
abbrev pub then_by : Ordering → Ordering → Ordering
then_by Ordering.eq o = o
then_by o _ = o

-- The loop over a list of names with a set of those seen.
unfoldable pub repeats_from : List Text → List Text → Bool
unfolding contains
repeats_from seen [] = false
repeats_from seen (n ∷ ns) = contains seen n || repeats_from (n ∷ seen) ns

unfoldable pub has_repeated : List Text → Bool
unfolding repeats_from
has_repeated names = repeats_from [] names
