-- ===== src/Relay/Reserve.antt =====
-- apps/web/lib/relay/relay-service.ts: the reservation of `#acquireOperation` keeps the budgets.
use submittedit.Common.{
  ℕ, ◌+◌, ◌≤◌, ◌≡◌, refl, ap, ◌∙◌, subst, inl, inr, true, some, List, [], ◌∷◌, ◌++◌, arith,
  if◌then◌else◌, Bool-cases,
}
use submittedit.Relay.Types.{Operation, BudgetKey, Budget}
use submittedit.Relay.Database.{budget_key_eq, budget_of, find_budget, update_budget, ensure_budget}
use submittedit.Relay.Requests.{reserve_budget}
use submittedit.Relay.Tables.{total-append, budget_key_eq_iff}
use submittedit.Relay.Ledger.{
  share, share_nothing, reserved_in, charged_in, reserved_by, spent_by, reserved_at, spent_at,
  update_cases, Balanced,
}

-- A budget that is new is empty, as one without a row.
ensure-reserved_at :
    (own key : BudgetKey) (bs : List Budget)
    → reserved_at key (ensure_budget own bs) ≡ reserved_at key bs
unfolding reserved_at ensure_budget find_budget
ensure-reserved_at own key [] = ground arith
ensure-reserved_at own key (b ∷ bs) = ground (arith, ensure-reserved_at own key bs)

ensure-spent_at :
    (own key : BudgetKey) (bs : List Budget) → spent_at key (ensure_budget own bs) ≡ spent_at key bs
unfolding spent_at ensure_budget find_budget
ensure-spent_at own key [] = ground arith
ensure-spent_at own key (b ∷ bs) = ground (arith, ensure-spent_at own key bs)

module _ (own key : BudgetKey) (bs : List Budget) (b : Budget) (found : find_budget own bs ≡ some b)
    (amount : ℕ) where
  here : budget_key_eq own key ≡ true → find_budget key bs ≡ some b
  here t = subst (λ k. find_budget k bs ≡ some b) ((budget_key_eq_iff own key).0 t) found

  reserve-reserved_at :
      reserved_at key (update_budget own (reserve_budget amount) bs)
      ≡ reserved_at key bs + share own key amount
  unfolding reserved_at share reserve_budget
  reserve-reserved_at =
      update_cases own key bs (reserve_budget amount) (λ c. refl)
        (λ same old new.
          (same ≡ true → old ≡ some b)
          → reserved_by new ≡ reserved_by old + (if same then amount else 0))
        (λ c h. refl) (λ h. cc (h refl)) (λ found h. omega arith) here

  reserve-spent_at : spent_at key (update_budget own (reserve_budget amount) bs) ≡ spent_at key bs
  unfolding spent_at reserve_budget
  reserve-spent_at =
      update_cases own key bs (reserve_budget amount) (λ c. refl)
        (λ same old new. spent_by new ≡ spent_by old) (λ c. refl) refl (λ found. refl)

  reserve_fits :
      (daily : ℕ)
      → b.reserved_wei + b.spent_wei + amount ≤ daily
      → reserved_at key bs + spent_at key bs ≤ daily
      → reserved_at key bs + spent_at key bs + share own key amount ≤ daily
  unfolding reserved_at spent_at share
  reserve_fits daily fits within = elim (Bool-cases (budget_key_eq own key)) [
    | inl t ↦ rw (t, here t) fits
    | inr f ↦ rw (f) (omega arith)
  ]

-- The reservation of a new row, within the limit of its budget.
module _ (daily : ℕ) (ops : List Operation) (bs : List Budget) (row : Operation) (b : Budget)
    (found : find_budget (budget_of row) (ensure_budget (budget_of row) bs) ≡ some b) where
  own : BudgetKey
  own = budget_of row

  ensured : List Budget
  unfolding own
  ensured = ensure_budget own bs

  pub reserve-Balanced :
      b.reserved_wei + b.spent_wei + row.reserved_fee ≤ daily
      → row.charged_fee ≡ 0
      → Balanced daily ops bs
      → Balanced daily (ops ++ row ∷ []) (
          update_budget
            (budget_of row)
            (reserve_budget row.reserved_fee)
            (ensure_budget (budget_of row) bs))
  unfolding own ensured reserved_in charged_in
  reserve-Balanced fits uncharged balanced = record {
    reserves = λ key.
        omega (arith, reserved key, total-append (reserved_in key) ops row, balanced.reserves key);
    spends =
        λ key. omega (arith, spent key, total-append (charged_in key) ops row, balanced.spends key);
    within = λ key. omega (
      arith,
      reserved key,
      spent key,
      balanced.within key,
      reserve_fits own key ensured b found row.reserved_fee daily fits,
      ensure-reserved_at own key bs,
      ensure-spent_at own key bs,
    );
  }
    where
      reserved :
          (key : BudgetKey)
          → reserved_at key (update_budget own (reserve_budget row.reserved_fee) ensured)
            ≡ reserved_at key bs + share own key row.reserved_fee
      reserved key = omega (
        arith,
        reserve-reserved_at own key ensured b found row.reserved_fee,
        ensure-reserved_at own key bs,
      )

      spent :
          (key : BudgetKey)
          → (spent_at key (update_budget own (reserve_budget row.reserved_fee) ensured)
              ≡ spent_at key bs)
            × (share own key row.charged_fee ≡ 0)
      spent key = (
        reserve-spent_at own key ensured b found row.reserved_fee ∙ ensure-spent_at own key bs,
        ap (share own key) uncharged ∙ share_nothing own key,
      )
