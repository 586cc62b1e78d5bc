-- ===== src/Relay/Tables.antt =====
-- apps/web/lib/relay: what a statement on a key leaves of a table.
use submittedit.Common.{
  ℕ, ◌+◌, ◌≤◌, ◌≡◌, sym, ◌∙◌, subst, refl, ◌↔◌, inl, inr, Bool, true, false, Option, none, some,
  List, [], ◌∷◌, ◌++◌, arith, Bool-cases,
}
use submittedit.Text.Order.{text_eq_iff}
use submittedit.Relay.Types.{Operation, BudgetKey, Budget, Database}
use submittedit.Relay.Database.{
  after, find_operation, replace_operation, update_is_allowed, write_row, update_found,
  store_operation, update_operation, budget_key_eq, find_budget, update_budget,
}

pub some-injective {ℓ} : {A : Type ℓ} {a b : A} → some a ≡ some b → a ≡ b
some-injective h = cc

update_found_cases {ℓ} :
    (P : Database → Type ℓ) (id : ℕ) (found : Option Operation) (fits : Operation → Bool)
    (set : Operation → Operation) (old db : Database)
    → P old
    → ((row : Operation)
        → found ≡ some row
        → fits row ≡ true
        → update_is_allowed row (set row) ≡ true
        → P (store_operation id (set row) db))
    → P (after old (update_found id found fits set db))
unfolding update_is_allowed store_operation write_row
update_found_cases P id none fits set old db kept changed = kept
update_found_cases P id (some row) fits set old db kept changed = elim (Bool-cases (fits row)) [
  | inr f ↦ rw (f) kept
  | inl f ↦ rw (f) elim (Bool-cases (update_is_allowed row (set row))) [
    | inl allowed ↦ rw (allowed) (changed row refl f allowed)
    | inr barred ↦ rw (barred) kept
  ]
]

-- A statement on one operation leaves the database, or changes the row that it found.
pub update_operation_cases {ℓ} :
    (P : Database → Type ℓ) (id : ℕ) (fits : Operation → Bool) (set : Operation → Operation)
    (old db : Database)
    → P old
    → ((row : Operation)
        → find_operation id db.operations ≡ some row
        → fits row ≡ true
        → update_is_allowed row (set row) ≡ true
        → P (store_operation id (set row) db))
    → P (after old (update_operation id fits set db))
unfolding update_operation store_operation
update_operation_cases P id fits set old db kept changed =
    update_found_cases P id (find_operation id db.operations) fits set old db kept changed

-- The same where the row is known.
pub update_known_cases {ℓ} :
    (P : Database → Type ℓ) (id : ℕ) (fits : Operation → Bool) (set : Operation → Operation)
    (old db : Database) (row : Operation)
    → find_operation id db.operations ≡ some row
    → P old
    → (fits row ≡ true
        → update_is_allowed row (set row) ≡ true
        → P (store_operation id (set row) db))
    → P (after old (update_operation id fits set db))
unfolding update_operation store_operation
update_known_cases P id fits set old db row e kept changed =
    update_found_cases P id (find_operation id db.operations) fits set old db kept
      λ other found f a.
        subst
          (λ r.
            fits r ≡ true → update_is_allowed r (set r) ≡ true → P (store_operation id (set r) db))
          (some-injective (sym e ∙ found)) changed f a

pub find_operation-id :
    (id : ℕ) (rows : List Operation) (row : Operation)
    → find_operation id rows ≡ some row
    → row.id ≡ id
unfolding find_operation
find_operation-id id [] row e = cc
find_operation-id id (r ∷ rows) row e = ground (arith, find_operation-id id rows row)

-- The sum of an amount over the rows.
unfoldable pub total : (Operation → ℕ) → List Operation → ℕ
total amount [] = 0
total amount (row ∷ rows) = amount row + total amount rows

module _ (amount : Operation → ℕ) where
  pub replace-total :
      (id : ℕ) (rows : List Operation) (row new : Operation)
      → find_operation id rows ≡ some row
      → total amount (replace_operation id new rows) + amount row ≡ total amount rows + amount new
  unfolding total find_operation replace_operation
  replace-total id [] row new e = cc
  replace-total id (r ∷ rows) row new e = ground (arith, replace-total id rows row new)

  pub find_operation-le :
      (id : ℕ) (rows : List Operation) (row : Operation)
      → find_operation id rows ≡ some row
      → amount row ≤ total amount rows
  unfolding total find_operation
  find_operation-le id [] row e = cc
  find_operation-le id (r ∷ rows) row e = ground (arith, find_operation-le id rows row)

  pub total-append :
      (rows : List Operation) (row : Operation)
      → total amount (rows ++ row ∷ []) ≡ total amount rows + amount row
  unfolding total
  total-append [] row = omega arith
  total-append (r ∷ rows) row = omega (arith, total-append rows row)

pub budget_key_eq_iff : (a b : BudgetKey) → (budget_key_eq a b ≡ true) ↔ (a ≡ b)
budget_key_eq_iff a b = ground (arith, text_eq_iff a.address b.address)

pub budget_key_eq_refl : (key : BudgetKey) → budget_key_eq key key ≡ true
budget_key_eq_refl key = (budget_key_eq_iff key key).1 refl

module _ (set : Budget → Budget) (keeps : (b : Budget) → (set b).budget_key ≡ b.budget_key) where
  pub find-update_budget-same :
      (key : BudgetKey) (bs : List Budget) (b : Budget)
      → find_budget key bs ≡ some b
      → find_budget key (update_budget key set bs) ≡ some (set b)
  unfolding find_budget update_budget
  find-update_budget-same key [] b e = cc
  find-update_budget-same key (c ∷ bs) b e =
      ground (arith, keeps c, find-update_budget-same key bs b)

  pub find-update_budget-none :
      (key : BudgetKey) (bs : List Budget)
      → find_budget key bs ≡ none
      → find_budget key (update_budget key set bs) ≡ none
  unfolding find_budget update_budget
  find-update_budget-none key [] e = refl
  find-update_budget-none key (c ∷ bs) e = ground (arith, keeps c, find-update_budget-none key bs)

  pub find-update_budget-other :
      (key other : BudgetKey) (bs : List Budget)
      → budget_key_eq key other ≡ false
      → find_budget other (update_budget key set bs) ≡ find_budget other bs
  unfolding find_budget update_budget
  find-update_budget-other key other [] e = refl
  find-update_budget-other key other (c ∷ bs) e =
      ground (
        arith,
        keeps c,
        budget_key_eq_iff c.budget_key key,
        find-update_budget-other key other bs e,
      )
