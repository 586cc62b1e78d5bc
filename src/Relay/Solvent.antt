-- ===== src/Relay/Solvent.antt =====
-- apps/web/lib/relay/relay-service.ts: every statement of the service keeps the budgets, so they hold in
-- every order of the statements of all requests.
use submittedit.Common.{
  ℕ, ◌+◌, ◌≤◌, ◌≡◌, refl, inl, inr, Bool, false, Option, none, some, List, [], ◌∷◌, arith, ltb,
  Bool-cases,
}
use submittedit.Relay.Types.{
  RelayErrorCode, RelayConfiguration, PreparedRelayTransaction, Operation, Budget, SignerKey, Scope,
  Blob, Database,
}
use submittedit.Relay.Database.{
  find_operation, after, update_operation, store_operation, budget_of, find_budget, ensure_budget,
}
use submittedit.Relay.Statements.{
  mark_retryable, defer_reconciliation, record_rebroadcast, record_submitted, record_reverted,
  record_mismatch, record_confirmed, with_budgets, record_cost_of, record_mined_cost, close,
  close_if, mark_final_without_transaction, mark_externally_anchored, record_prepared,
  is_closed_to_preparation,
}
use submittedit.Relay.Requests.{
  Acquisition, after_acquire, acquired_budget, acquired_row, insert_with, exceeds, find_blob,
  reserve_and_insert, acquire_unknown, acquire_operation, apply_rate_limits, counted, count_poll,
  poll_found,
}
use submittedit.Relay.Reserve.{reserve-Balanced}
use submittedit.Relay.Steps.{
  Statement, marks_retryable, defers, rebroadcasts, submits, reverts, mismatches, confirms, charges,
  gives_up, finds_anchored, prepares, acquires, counts, polls, prepare_found, prepare_operation,
  execute, execute_all,
}
use submittedit.Relay.Tables.{update_operation_cases, update_known_cases}
use submittedit.Relay.Ledger.{Balanced, replace-Balanced, charge-Balanced, release-Balanced}

-- The budgets are the sums of the operations' fees, and within the daily limit.
abbrev pub IsSolvent : RelayConfiguration → Database → Type 0
IsSolvent config db = Balanced config.daily_budget_wei db.operations db.budgets

-- An update that leaves the fees and the budget of its row.
record IsFree (set : Operation → Operation) : Type 0 where
  same_budget : (row : Operation) → budget_of (set row) ≡ budget_of row
  same_reserved : (row : Operation) → (set row).reserved_fee ≡ row.reserved_fee
  same_charged : (row : Operation) → (set row).charged_fee ≡ row.charged_fee

uncharged : (charged : ℕ) → ltb 0 charged ≡ false → charged ≡ 0
uncharged charged h = ground arith

module _ (config : RelayConfiguration) where
  update-IsSolvent :
      (id : ℕ) (fits : Operation → Bool) (set : Operation → Operation) (old db : Database)
      → IsFree set
      → IsSolvent config old
      → IsSolvent config db
      → IsSolvent config (after old (update_operation id fits set db))
  unfolding store_operation
  update-IsSolvent id fits set old db free before begun =
      update_operation_cases (IsSolvent config) id fits set old db before λ row found _ _.
        replace-Balanced config.daily_budget_wei db.operations db.budgets id row (set row) found
          (free.same_budget row) begun (free.same_reserved row) (free.same_charged row)

  cost-IsSolvent :
      (id block : ℕ) (found : Option Operation) (db : Database)
      → find_operation id db.operations ≡ found
      → IsSolvent config db
      → IsSolvent config (after db (record_cost_of id found block db))
  unfolding budget_of record_cost_of with_budgets store_operation
  cost-IsSolvent id block none db e before = before
  cost-IsSolvent id block (some row) db e before = elim (Bool-cases (ltb 0 row.charged_fee)) [
    | inl t ↦ rw (t) before
    | inr f ↦ rw (f) (
        update_known_cases (IsSolvent config) id _ _ db _ row e before λ _ _.
          charge-Balanced config.daily_budget_wei db.operations db.budgets id row _ e refl before
            (uncharged row.charged_fee f) refl refl)
  ]

  close-IsSolvent :
      (id : ℕ) (stays : Operation → Bool) (code : RelayErrorCode) (found : Option Operation)
      (db : Database)
      → find_operation id db.operations ≡ found
      → IsSolvent config db
      → IsSolvent config (after db (close_if id stays code found db))
  unfolding budget_of close with_budgets store_operation
  close-IsSolvent id stays code none db e before = before
  close-IsSolvent id stays code (some row) db e before = elim (Bool-cases (stays row)) [
    | inl t ↦ rw (t) before
    | inr f ↦ rw (f) (
        update_known_cases (IsSolvent config) id _ _ db _ row e before λ _ _.
          release-Balanced config.daily_budget_wei db.operations db.budgets id row _ e refl before
            refl refl)
  ]

  free-IsSolvent :
      (id : ℕ) (fits : Operation → Bool) (set : Operation → Operation) (db : Database)
      → ((row : Operation) → budget_of (set row) ≡ budget_of row)
      → ((row : Operation) → (set row).reserved_fee ≡ row.reserved_fee)
      → ((row : Operation) → (set row).charged_fee ≡ row.charged_fee)
      → IsSolvent config db
      → IsSolvent config (after db (update_operation id fits set db))
  free-IsSolvent id fits set db budgets reserved charged before =
      update-IsSolvent id fits set db db
        (record { same_budget = budgets; same_reserved = reserved; same_charged = charged }) before
        before

  prepare-IsSolvent :
      (found : Option Operation) (id : ℕ) (key : SignerKey) (pending : ℕ)
      (prepared : PreparedRelayTransaction) (at : ℕ) (db : Database)
      → IsSolvent config db
      → IsSolvent config (after db (prepare_found config found id key pending prepared at db))
  unfolding record_prepared budget_of
  prepare-IsSolvent none id key pending prepared at db before = before
  prepare-IsSolvent (some row) id key pending prepared at db before =
      elim (Bool-cases (is_closed_to_preparation row)) [
        | inl t ↦ rw (t) before
        | inr f ↦ rw (f) (
            update-IsSolvent id _ _ db _
              (record {
                same_budget = λ r. refl;
                same_reserved = λ r. refl;
                same_charged = λ r. refl;
              })
              before before)
      ]

  insert-IsSolvent :
      (a : Acquisition) (blob : Option Blob) (b : Budget) (db : Database)
      → find_budget (acquired_budget a) (ensure_budget (acquired_budget a) db.budgets) ≡ some b
      → b.reserved_wei + b.spent_wei + a.reservation ≤ config.daily_budget_wei
      → IsSolvent config db
      → IsSolvent config (after_acquire db (insert_with config a blob db))
  unfolding insert_with acquired_budget acquired_row budget_of
  insert-IsSolvent a none b db found fits before = before
  insert-IsSolvent a (some blob) b db found fits before =
      reserve-Balanced config.daily_budget_wei db.operations db.budgets _ b found fits refl before

  within_limit :
      (daily reservation : ℕ) (o : Option Budget)
      → exceeds daily reservation o ≡ false
      → (b : Budget) × (o ≡ some b) × (b.reserved_wei + b.spent_wei + reservation ≤ daily)
  within_limit daily reservation none h = cc
  within_limit daily reservation (some b) h = (b, refl, ground arith)

  reserve-IsSolvent :
      (a : Acquisition) (db : Database)
      → IsSolvent config db
      → IsSolvent config (after_acquire db (reserve_and_insert config a db))
  unfolding reserve_and_insert
  reserve-IsSolvent a db before = elim (Bool-cases too_much) [
    | inl t ↦ rw (t) before
    | inr f ↦ rw (f) (
        let (b, found, fits) = within_limit config.daily_budget_wei a.reservation _ f in
        insert-IsSolvent a (find_blob a.validated.blob_id db.blobs) b db found fits before)
  ]
    where
      too_much : Bool
      too_much =
          exceeds config.daily_budget_wei a.reservation
            (find_budget (acquired_budget a) (ensure_budget (acquired_budget a) db.budgets))

  acquire-IsSolvent :
      (a : Acquisition) (db : Database)
      → IsSolvent config db
      → IsSolvent config (after_acquire db (acquire_operation config a db))
  unfolding acquire_operation acquire_unknown
  acquire-IsSolvent a db before = ground (arith, reserve-IsSolvent a db before)

  count-IsSolvent :
      (limits : List (Scope × ℕ)) (db : Database)
      → IsSolvent config db
      → IsSolvent config (apply_rate_limits limits db).1
  unfolding apply_rate_limits counted
  count-IsSolvent [] db before = before
  count-IsSolvent ((scope, limit) ∷ limits) db before =
      count-IsSolvent limits (counted scope db) before

  poll-IsSolvent :
      (found : Option Operation) (db : Database)
      → IsSolvent config db
      → IsSolvent config (after db (poll_found found db))
  unfolding budget_of
  poll-IsSolvent none db before = before
  poll-IsSolvent (some row) db before =
      free-IsSolvent row.id _ _ db (λ r. refl) (λ r. refl) (λ r. refl) before

  -- A statement keeps the budgets.
  pub execute-IsSolvent :
      (s : Statement) (db : Database) → IsSolvent config db → IsSolvent config (execute config s db)
  unfolding execute mark_retryable defer_reconciliation record_rebroadcast record_submitted
      record_reverted record_mismatch record_confirmed record_mined_cost
      mark_final_without_transaction mark_externally_anchored prepare_operation count_poll budget_of
  execute-IsSolvent (marks_retryable id code at) db before =
      free-IsSolvent id _ _ db (λ r. refl) (λ r. refl) (λ r. refl) before
  execute-IsSolvent (defers id at) db before =
      free-IsSolvent id _ _ db (λ r. refl) (λ r. refl) (λ r. refl) before
  execute-IsSolvent (rebroadcasts id at) db before =
      free-IsSolvent id _ _ db (λ r. refl) (λ r. refl) (λ r. refl) before
  execute-IsSolvent (submits id now at) db before =
      free-IsSolvent id _ _ db (λ r. refl) (λ r. refl) (λ r. refl) before
  execute-IsSolvent (reverts id block now) db before =
      free-IsSolvent id _ _ db (λ r. refl) (λ r. refl) (λ r. refl) before
  execute-IsSolvent (mismatches id block now) db before =
      free-IsSolvent id _ _ db (λ r. refl) (λ r. refl) (λ r. refl) before
  execute-IsSolvent (confirms id block now) db before =
      free-IsSolvent id _ _ db (λ r. refl) (λ r. refl) (λ r. refl) before
  execute-IsSolvent (charges id block) db before = cost-IsSolvent id block _ db refl before
  execute-IsSolvent (gives_up id) db before = close-IsSolvent id _ _ _ db refl before
  execute-IsSolvent (finds_anchored id) db before = close-IsSolvent id _ _ _ db refl before
  execute-IsSolvent (prepares id signer pending hash serialized at) db before =
      prepare-IsSolvent _ id _ pending _ at db before
  execute-IsSolvent (acquires a) db before = acquire-IsSolvent a db before
  execute-IsSolvent (counts limits) db before = count-IsSolvent limits db before
  execute-IsSolvent (polls token) db before = poll-IsSolvent _ db before

  -- Every order of the statements of any requests keeps the daily budgets: what a budget has reserved
  -- is the sum of what its operations reserve, what it has spent is the sum of what they were charged,
  -- and both together stay within the daily limit.
  pub execute_all-IsSolvent :
      (ss : List Statement) (db : Database)
      → IsSolvent config db
      → IsSolvent config (execute_all config ss db)
  unfolding execute_all
  execute_all-IsSolvent [] db before = before
  execute_all-IsSolvent (s ∷ ss) db before =
      execute_all-IsSolvent ss (execute config s db) (execute-IsSolvent s db before)
