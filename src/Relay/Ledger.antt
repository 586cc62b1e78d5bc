-- ===== src/Relay/Ledger.antt =====
-- apps/web/lib/relay/relay-service.ts: the daily budgets are the sums of what the operations reserve
-- and were charged, and stay within the configured limit.
use submittedit.Common.{
  ℕ, ◌+◌, ◌-◌, ◌≤◌, ◌≡◌, refl, ap, ◌∙◌, subst, inl, inr, Bool, true, false, Option, none, some,
  List, arith, if◌then◌else◌, Bool-cases, Option-cases,
}
use submittedit.Relay.Types.{Operation, BudgetKey, Budget}
use submittedit.Relay.Database.{
  find_operation, replace_operation, budget_key_eq, budget_of, find_budget, update_budget,
}
use submittedit.Relay.Statements.{charge_budget, release_budget}
use submittedit.Relay.Tables.{
  total, replace-total, find_operation-le, budget_key_eq_iff, find-update_budget-same,
  find-update_budget-none, find-update_budget-other,
}

-- An amount of the budget `own`, as a part of the budget `key`.
unfoldable pub share : BudgetKey → BudgetKey → ℕ → ℕ
share own key amount = if budget_key_eq own key then amount else 0

unfoldable pub reserved_in : BudgetKey → Operation → ℕ
unfolding share budget_of
reserved_in key row = share (budget_of row) key row.reserved_fee

unfoldable pub charged_in : BudgetKey → Operation → ℕ
unfolding share budget_of
charged_in key row = share (budget_of row) key row.charged_fee

abbrev pub reserved_by : Option Budget → ℕ
reserved_by none = 0
reserved_by (some b) = b.reserved_wei

abbrev pub spent_by : Option Budget → ℕ
spent_by none = 0
spent_by (some b) = b.spent_wei

-- A budget without a row is empty.
unfoldable pub reserved_at : BudgetKey → List Budget → ℕ
unfolding find_budget
reserved_at key bs = reserved_by (find_budget key bs)

unfoldable pub spent_at : BudgetKey → List Budget → ℕ
unfolding find_budget
spent_at key bs = spent_by (find_budget key bs)

module _ (own key : BudgetKey) (bs : List Budget) where
  -- What the update of one budget leaves of another, and of itself.
  pub update_cases {ℓ} :
      (set : Budget → Budget)
      → ((b : Budget) → (set b).budget_key ≡ b.budget_key)
      → (P : Bool → Option Budget → Option Budget → Type ℓ)
      → ((b : Budget) → P true (some b) (some (set b)))
      → P true none none
      → ((found : Option Budget) → P false found found)
      → P (budget_key_eq own key) (find_budget key bs) (find_budget key (update_budget own set bs))
  update_cases set keeps P there missing other = elim (Bool-cases (budget_key_eq own key)) [
    | inr f ↦ rw (f, find-update_budget-other set keeps own key bs f) (other (find_budget key bs))
    | inl t ↦ rw (t) (
        subst (λ k. P true (find_budget k bs) (find_budget k (update_budget own set bs)))
          ((budget_key_eq_iff own key).0 t) own_cases)
  ]
    where
      own_cases : P true (find_budget own bs) (find_budget own (update_budget own set bs))
      own_cases = elim (Option-cases (find_budget own bs)) [
        | inl e ↦ rw (e, find-update_budget-none set keeps own bs e) missing
        | inr (b, e) ↦ rw (e, find-update_budget-same set keeps own bs b e) (there b)
      ]

  charge-reserved_at :
      (amount : ℕ)
      → reserved_at key (update_budget own (charge_budget amount) bs)
        ≡ reserved_at key bs - share own key amount
  unfolding reserved_at share charge_budget
  charge-reserved_at amount =
      update_cases (charge_budget amount) (λ b. refl)
        (λ same old new. reserved_by new ≡ reserved_by old - (if same then amount else 0))
        (λ b. refl) (omega arith) (λ found. omega arith)

  charge-spent_at :
      (amount : ℕ)
      → share own key amount ≤ reserved_at key bs
      → spent_at key (update_budget own (charge_budget amount) bs)
        ≡ spent_at key bs + share own key amount
  unfolding reserved_at spent_at share charge_budget
  charge-spent_at amount =
      update_cases (charge_budget amount) (λ b. refl)
        (λ same old new.
          (if same then amount else 0) ≤ reserved_by old
          → spent_by new ≡ spent_by old + (if same then amount else 0))
        (λ b h. refl) (λ h. omega arith) (λ found h. omega arith)

  release-reserved_at :
      (amount : ℕ)
      → reserved_at key (update_budget own (release_budget amount) bs)
        ≡ reserved_at key bs - share own key amount
  unfolding reserved_at share release_budget
  release-reserved_at amount =
      update_cases (release_budget amount) (λ b. refl)
        (λ same old new. reserved_by new ≡ reserved_by old - (if same then amount else 0))
        (λ b. refl) (omega arith) (λ found. omega arith)

  release-spent_at :
      (amount : ℕ) → spent_at key (update_budget own (release_budget amount) bs) ≡ spent_at key bs
  unfolding spent_at release_budget
  release-spent_at amount =
      update_cases (release_budget amount) (λ b. refl) (λ same old new. spent_by new ≡ spent_by old)
        (λ b. refl) refl (λ found. refl)

-- What the code keeps of the budgets, in every order of its statements.
pub record Balanced (daily : ℕ) (ops : List Operation) (bs : List Budget) : Type 0 where
  pub reserves : (key : BudgetKey) → reserved_at key bs ≡ total (reserved_in key) ops
  pub spends : (key : BudgetKey) → spent_at key bs ≡ total (charged_in key) ops
  pub within : (key : BudgetKey) → reserved_at key bs + spent_at key bs ≤ daily

pub share_nothing : (own key : BudgetKey) → share own key 0 ≡ 0
unfolding share
share_nothing own key = ground arith

module _ (key : BudgetKey) (row new : Operation) (same : budget_of new ≡ budget_of row) where
  reserved_in_as : reserved_in key new ≡ share (budget_of row) key new.reserved_fee
  unfolding reserved_in
  reserved_in_as = ap (λ own. share own key new.reserved_fee) same

  charged_in_as : charged_in key new ≡ share (budget_of row) key new.charged_fee
  unfolding charged_in
  charged_in_as = ap (λ own. share own key new.charged_fee) same

module _ (daily : ℕ) (ops : List Operation) (bs : List Budget) (id : ℕ) (row new : Operation)
    (found : find_operation id ops ≡ some row) (same : budget_of new ≡ budget_of row)
    (b : Balanced daily ops bs) where
  reserved_moves :
      (key : BudgetKey)
      → total (reserved_in key) (replace_operation id new ops)
          + share (budget_of row) key row.reserved_fee
        ≡ total (reserved_in key) ops + share (budget_of row) key new.reserved_fee
  unfolding reserved_in
  reserved_moves key =
      omega (
        arith,
        replace-total (reserved_in key) id ops row new found,
        reserved_in_as key row new same,
      )

  charged_moves :
      (key : BudgetKey)
      → total (charged_in key) (replace_operation id new ops)
          + share (budget_of row) key row.charged_fee
        ≡ total (charged_in key) ops + share (budget_of row) key new.charged_fee
  unfolding charged_in
  charged_moves key =
      omega
        (arith, replace-total (charged_in key) id ops row new found, charged_in_as key row new same)

  reserved_share_le :
      (key : BudgetKey) → share (budget_of row) key row.reserved_fee ≤ reserved_at key bs
  unfolding reserved_in
  reserved_share_le key =
      omega (arith, find_operation-le (reserved_in key) id ops row found, b.reserves key)

  -- A statement that leaves the fees and the budget of the row.
  pub replace-Balanced :
      new.reserved_fee ≡ row.reserved_fee
      → new.charged_fee ≡ row.charged_fee
      → Balanced daily (replace_operation id new ops) bs
  replace-Balanced reserved charged = record {
    reserves = λ key.
        omega (arith, b.reserves key, reserved_moves key, ap (share (budget_of row) key) reserved);
    spends = λ key.
        omega (arith, b.spends key, charged_moves key, ap (share (budget_of row) key) charged);
    within = b.within;
  }

  -- The reservation of the row becomes its charge.
  pub charge-Balanced :
      row.charged_fee ≡ 0
      → new.reserved_fee ≡ 0
      → new.charged_fee ≡ row.reserved_fee
      → Balanced daily
          (replace_operation id new ops)
          (update_budget (budget_of row) (charge_budget row.reserved_fee) bs)
  charge-Balanced uncharged reserved charged = record {
    reserves = reserves';
    spends = spends';
    within = λ key. omega (
      arith,
      reserves' key,
      spends' key,
      b.within key,
      b.reserves key,
      b.spends key,
      reserved_moves key,
      charged_moves key,
      moved key,
    );
  }
    where
      own : BudgetKey
      own = budget_of row

      moved :
          (key : BudgetKey)
          → (share own key new.reserved_fee ≡ 0)
            × (share own key row.charged_fee ≡ 0)
            × (share own key new.charged_fee ≡ share own key row.reserved_fee)
      moved key = (
        ap (share own key) reserved ∙ share_nothing own key,
        ap (share own key) uncharged ∙ share_nothing own key,
        ap (share own key) charged,
      )

      reserves' :
          (key : BudgetKey)
          → reserved_at key (update_budget own (charge_budget row.reserved_fee) bs)
            ≡ total (reserved_in key) (replace_operation id new ops)
      reserves' key = omega (
        arith,
        moved key,
        reserved_moves key,
        b.reserves key,
        charge-reserved_at own key bs row.reserved_fee,
      )

      spends' :
          (key : BudgetKey)
          → spent_at key (update_budget own (charge_budget row.reserved_fee) bs)
            ≡ total (charged_in key) (replace_operation id new ops)
      spends' key = omega (
        arith,
        moved key,
        charged_moves key,
        b.spends key,
        charge-spent_at own key bs row.reserved_fee (reserved_share_le key),
      )

  -- The reservation of the row is given back.
  pub release-Balanced :
      new.reserved_fee ≡ 0
      → new.charged_fee ≡ row.charged_fee
      → Balanced daily
          (replace_operation id new ops)
          (update_budget (budget_of row) (release_budget row.reserved_fee) bs)
  release-Balanced reserved charged = record {
    reserves = λ key. omega (arith, given_back key, reserved_moves key, b.reserves key);
    spends = λ key. omega (arith, given_back key, charged_moves key, b.spends key);
    within = λ key. omega (arith, given_back key, b.within key);
  }
    where
      own : BudgetKey
      own = budget_of row

      given_back :
          (key : BudgetKey)
          → (share own key new.reserved_fee ≡ 0)
            × (share own key new.charged_fee ≡ share own key row.charged_fee)
            × (reserved_at key (update_budget own (release_budget row.reserved_fee) bs)
                ≡ reserved_at key bs - share own key row.reserved_fee)
            × (spent_at key (update_budget own (release_budget row.reserved_fee) bs)
                ≡ spent_at key bs)
      given_back key = (
        ap (share own key) reserved ∙ share_nothing own key,
        ap (share own key) charged,
        release-reserved_at own key bs row.reserved_fee,
        release-spent_at own key bs row.reserved_fee,
      )
