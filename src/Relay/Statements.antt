-- ===== src/Relay/Statements.antt =====
-- apps/web/lib/relay/relay-service.ts: the SQL statements and transactions on one operation that
-- exists. Each is atomic; a transaction that throws leaves the database as it was.
use submittedit.Common.{
  ℕ, suc, ◌+◌, ◌-◌, Bool, true, false, not, ◌&&◌, ◌||◌, Option, none, some, ltb, if◌then◌else◌,
}
use submittedit.Relay.Types.{
  OperationState, submitting, submitted, confirmed, reverted, failed_retryable, failed_final,
  RelayErrorCode, event_already_anchored, contract_mismatch, transaction_submission_failed,
  transaction_reverted, RelayConfiguration, PreparedRelayTransaction, Operation, Budget, SignerKey,
  Database,
}
use submittedit.Relay.Database.{
  is_some, is_terminal, find_operation, Updated, no_row, updated, update_operation, budget_of,
  update_budget, find_nonce, set_nonce,
}

-- `state NOT IN ('CONFIRMED', 'REVERTED', 'FAILED_FINAL')`.
abbrev pub is_open : Operation → Bool
is_open row = not (is_terminal row.state)

-- `state IN ('SUBMITTED', 'FAILED_RETRYABLE')`.
abbrev pub awaits_receipt : OperationState → Bool
awaits_receipt submitted = true
awaits_receipt failed_retryable = true
awaits_receipt _ = false

-- `state IN ('SUBMITTING', 'SUBMITTED', 'FAILED_RETRYABLE')`.
abbrev pub may_resubmit : OperationState → Bool
may_resubmit submitting = true
may_resubmit submitted = true
may_resubmit failed_retryable = true
may_resubmit _ = false

abbrev pub is_submitting : OperationState → Bool
is_submitting submitting = true
is_submitting _ = false

-- `COALESCE(at, now)`.
abbrev pub coalesce : Option ℕ → ℕ → ℕ
coalesce none now = now
coalesce (some at) now = at

unfoldable pub mark_retryable : ℕ → RelayErrorCode → ℕ → Database → Updated
mark_retryable id code at db = update_operation id is_open set db
  where
    set : Operation → Operation
    set row = record row {
      state = failed_retryable;
      last_error_code = some code;
      next_reconcile_at = some at;
    }

unfoldable pub defer_reconciliation : ℕ → ℕ → Database → Updated
defer_reconciliation id at db =
    update_operation id is_open (λ row. record row { next_reconcile_at = some at }) db

-- The state that a broadcast of the same transaction begins with.
abbrev pub resubmitted : OperationState → OperationState
resubmitted failed_retryable = submitting
resubmitted state = state

-- The update of `#rebroadcast`.
unfoldable pub record_rebroadcast : RelayConfiguration → ℕ → ℕ → Database → Updated
record_rebroadcast config id at db = update_operation id fits set db
  where
    fits : Operation → Bool
    fits row = may_resubmit row.state && ltb row.attempt_count config.max_attempts_per_event

    set : Operation → Operation
    set row = record row {
      state = resubmitted row.state;
      attempt_count = suc row.attempt_count;
      last_error_code = none;
      next_reconcile_at = some at;
    }

-- The update of `#broadcastPrepared`.
unfoldable pub record_submitted : ℕ → ℕ → ℕ → Database → Updated
record_submitted id now at db = update_operation id (λ row. is_submitting row.state) set db
  where
    set : Operation → Operation
    set row = record row {
      state = submitted;
      submitted_at = some (coalesce row.submitted_at now);
      last_error_code = none;
      next_reconcile_at = some at;
    }

-- The row that an update of `#finalizeReceipt` leaves.
abbrev pub finalized : OperationState → Option RelayErrorCode → ℕ → ℕ → Operation → Operation
finalized state code block now row = record row {
  state = state;
  block_number = some block;
  last_error_code = code;
  confirmed_at = some now;
  next_reconcile_at = none;
}

unfoldable pub record_reverted : ℕ → ℕ → ℕ → Database → Updated
record_reverted id block now db =
    update_operation id is_open (finalized reverted (some transaction_reverted) block now) db

-- Two updates of `#finalizeReceipt`, which differ in their message only.
unfoldable pub record_mismatch : ℕ → ℕ → ℕ → Database → Updated
record_mismatch id block now db =
    update_operation id (λ row. awaits_receipt row.state)
      (finalized failed_final (some contract_mismatch) block now) db

unfoldable pub record_confirmed : ℕ → ℕ → ℕ → Database → Updated
record_confirmed id block now db =
    update_operation id (λ row. awaits_receipt row.state) (finalized confirmed none block now) db

-- A reserved amount that is charged or given back; `GREATEST(0, a - b)` is `a - b` on ℕ.
unfoldable pub charge_budget : ℕ → Budget → Budget
charge_budget amount b = record b {
  reserved_wei = b.reserved_wei - amount;
  spent_wei = b.spent_wei + amount;
  transaction_count = suc b.transaction_count;
}

unfoldable pub release_budget : ℕ → Budget → Budget
release_budget amount b = record b { reserved_wei = b.reserved_wei - amount }

unfoldable pub with_budgets : (Budget → Budget) → Operation → Database → Database
unfolding budget_of update_budget
with_budgets set row db = record db { budgets = update_budget (budget_of row) set db.budgets }

unfoldable pub record_cost_of : ℕ → Option Operation → ℕ → Database → Updated
unfolding charge_budget
record_cost_of id none block db = no_row
record_cost_of id (some row) block db =
    if ltb 0 row.charged_fee
    then updated row db
    else update_operation id (λ r. true)
        (λ r. record r {
          reserved_fee = 0;
          charged_fee = row.reserved_fee;
          block_number = some block;
        })
        (with_budgets (charge_budget row.reserved_fee) row db)

-- `#recordMinedCost`.
unfoldable pub record_mined_cost : ℕ → ℕ → Database → Updated
record_mined_cost id block db = record_cost_of id (find_operation id db.operations) block db

-- The row is closed without a transaction, and its reservation given back.
unfoldable pub close : ℕ → RelayErrorCode → Operation → Database → Updated
unfolding release_budget
close id code row db =
    update_operation id (λ r. true)
      (λ r. record r {
        state = failed_final;
        reserved_fee = 0;
        last_error_code = some code;
        next_reconcile_at = none;
      })
      (with_budgets (release_budget row.reserved_fee) row db)

abbrev pub close_if :
    ℕ → (Operation → Bool) → RelayErrorCode → Option Operation → Database → Updated
close_if id stays code none db = no_row
close_if id stays code (some row) db = if stays row then updated row db else close id code row db

-- `#markFinalWithoutTransaction`.
unfoldable pub mark_final_without_transaction : ℕ → Database → Updated
mark_final_without_transaction id db =
    close_if id (λ row. is_some row.transaction_hash) transaction_submission_failed
      (find_operation id db.operations) db

-- `#markExternallyAnchored`.
unfoldable pub mark_externally_anchored : ℕ → Database → Updated
mark_externally_anchored id db =
    close_if id (λ row. is_some row.transaction_hash || is_terminal row.state)
      event_already_anchored (find_operation id db.operations) db

-- `storedNonce > pendingNonce ? storedNonce : pendingNonce`.
abbrev pub later : Option ℕ → ℕ → ℕ
later none pending = pending
later (some stored) pending = if ltb pending stored then stored else pending

unfoldable pub assigned_nonce : SignerKey → ℕ → Database → ℕ
unfolding find_nonce
assigned_nonce key pending db = later (find_nonce key db.nonces) pending

-- The writes of the transaction of `#prepareNewTransaction`, for a row that has no transaction.
unfoldable pub record_prepared :
    ℕ → SignerKey → ℕ → PreparedRelayTransaction → ℕ → Database → Updated
unfolding assigned_nonce set_nonce
record_prepared id key pending prepared at db =
    update_operation id (λ row. true) set
      (record db { nonces = set_nonce key (suc (assigned_nonce key pending db)) db.nonces })
  where
    set : Operation → Operation
    set row = record row {
      state = submitting;
      transaction_hash = some prepared.hash;
      transaction_nonce = some prepared.nonce;
      attempt_count = suc row.attempt_count;
      last_error_code = none;
      next_reconcile_at = some at;
    }

-- `#prepareNewTransaction` leaves a row alone that has a transaction or is over.
abbrev pub is_closed_to_preparation : Operation → Bool
is_closed_to_preparation row = is_some row.transaction_hash || is_terminal row.state
