-- ===== src/Relay/Guarded.antt =====
-- apps/web/lib/relay/relay-service.ts and the trigger of
-- apps/web/db/migrations/0002_relay_foundation.sql: what becomes of a row under the statements of all
-- requests.
use submittedit.Common.{
  ℕ, ◌≡◌, refl, sym, ap, ◌∙◌, ◌≢◌, ◌⊎◌, inl, inr, Bool, true, ◌||◌, Option, none, some, List, [],
  ◌∷◌, ◌++◌, arith, ltb, ◌==◌, Bool-cases,
}
use submittedit.Relay.Types.{
  RelayConfiguration, RelayErrorCode, event_already_anchored, transaction_submission_failed,
  PreparedRelayTransaction, SignerKey, Scope, Operation, Blob, Database,
}
use submittedit.Relay.Database.{
  is_some, is_terminal, find_operation, replace_operation, after, update_operation, store_operation,
  update_is_allowed,
}
use submittedit.Relay.Statements.{
  mark_retryable, defer_reconciliation, record_rebroadcast, record_submitted, record_reverted,
  record_mismatch, record_confirmed, with_budgets, record_cost_of, record_mined_cost, close,
  close_if, mark_final_without_transaction, mark_externally_anchored, record_prepared,
  is_closed_to_preparation,
}
use submittedit.Relay.Requests.{
  Acquisition, after_acquire, insert_with, find_blob, reserve_and_insert, acquire_unknown,
  acquire_operation, apply_rate_limits, counted, count_poll, poll_found,
}
use submittedit.Relay.Steps.{
  Statement, marks_retryable, defers, rebroadcasts, submits, reverts, mismatches, confirms, charges,
  gives_up, finds_anchored, prepares, acquires, counts, polls, prepare_found, prepare_operation,
  execute,
}
use submittedit.Relay.Tables.{update_operation_cases, find_operation-id, some-injective}

-- A row, and what it has become: itself, or a row that the trigger lets an update store, with the same
-- identity.
abbrev pub Succeeds : Operation → Operation → Type 0
Succeeds row later =
    (later.binding ≡ row.binding) × ((later ≡ row) ⊎ (update_is_allowed row later ≡ true))

find-replace_other :
    (id other : ℕ) (rows : List Operation) (new : Operation)
    → new.id ≡ id
    → other ≢ id
    → find_operation other (replace_operation id new rows) ≡ find_operation other rows
unfolding find_operation replace_operation
find-replace_other id other [] new same differ = refl
find-replace_other id other (r ∷ rows) new same differ =
    ground (arith, find-replace_other id other rows new same differ)

pub find-replace_same :
    (id : ℕ) (rows : List Operation) (row new : Operation)
    → find_operation id rows ≡ some row
    → new.id ≡ id
    → find_operation id (replace_operation id new rows) ≡ some new
unfolding find_operation replace_operation
find-replace_same id [] row new e same = cc
find-replace_same id (r ∷ rows) row new e same = ground (arith, find-replace_same id rows row new)

eq_cases : (a b : ℕ) → (a ≡ b) ⊎ (a ≢ b)
eq_cases a b = elim (Bool-cases (a == b)) [
  | inl t ↦ inl (ground arith)
  | inr f ↦ inr (λ e. ground arith)
]

-- The row with this identifier is there, and succeeds the one that was.
abbrev pub Has : ℕ → Operation → Database → Type 0
Has id row db =
    (later : Operation) × (find_operation id db.operations ≡ some later) × Succeeds row later

-- `#acquireOperation` leaves the database, or inserts a row.
pub acquire_cases {ℓ} :
    (P : Database → Type ℓ) (config : RelayConfiguration) (a : Acquisition) (db : Database)
    → P db
    → P (after_acquire db (insert_with config a (find_blob a.validated.blob_id db.blobs) db))
    → P (after_acquire db (acquire_operation config a db))
unfolding acquire_operation acquire_unknown reserve_and_insert
acquire_cases P config a db kept inserted = ground arith

module _ (id : ℕ) (row : Operation) where
  update-Has :
      (target : ℕ) (fits : Operation → Bool) (set : Operation → Operation) (old db : Database)
      → ((r : Operation) → (set r).binding ≡ r.binding)
      → find_operation id old.operations ≡ some row
      → db.operations ≡ old.operations
      → Has id row (after old (update_operation target fits set db))
  unfolding store_operation
  update-Has target fits set old db keeps found same =
      update_operation_cases (Has id row) target fits set old db (row, found, (refl, inl refl))
        λ r e f allowed. stored r e allowed (eq_cases id target)
    where
      found_later : find_operation id db.operations ≡ some row
      found_later = ap (find_operation id) same ∙ found

      target_id :
          (r : Operation) → find_operation target db.operations ≡ some r → (set r).id ≡ target
      target_id r e = ap (λ b. b.id) (keeps r) ∙ find_operation-id target db.operations r e

      stored :
          (r : Operation)
          → find_operation target db.operations ≡ some r
          → update_is_allowed r (set r) ≡ true
          → (id ≡ target) ⊎ (id ≢ target)
          → Has id row (store_operation target (set r) db)
      stored r e allowed (inl here) = (
        set r,
        ap (λ i. find_operation i (replace_operation target (set r) db.operations)) here
            ∙ find-replace_same target db.operations r (set r) e (target_id r e),
        (
          keeps r ∙ ap (λ o. o.binding) same_row,
          inr (ap (λ o. update_is_allowed o (set r)) (sym same_row) ∙ allowed),
        ),
      )
        where
          same_row : r ≡ row
          same_row =
              some-injective
                (sym e ∙ ap (λ i. find_operation i db.operations) (sym here) ∙ found_later)
      stored r e allowed (inr differ) = (
        row,
        find-replace_other target id db.operations (set r) (target_id r e) differ ∙ found_later,
        (refl, inl refl),
      )

  free-Has :
      (target : ℕ) (fits : Operation → Bool) (set : Operation → Operation) (db : Database)
      → ((r : Operation) → (set r).binding ≡ r.binding)
      → find_operation id db.operations ≡ some row
      → Has id row (after db (update_operation target fits set db))
  free-Has target fits set db keeps found = update-Has target fits set db db keeps found refl

  kept : (db : Database) → find_operation id db.operations ≡ some row → Has id row db
  kept db found = (row, found, (refl, inl refl))

  cost-Has :
      (target block : ℕ) (o : Option Operation) (db : Database)
      → find_operation id db.operations ≡ some row
      → Has id row (after db (record_cost_of target o block db))
  unfolding record_cost_of with_budgets
  cost-Has target block none db found = kept db found
  cost-Has target block (some r) db found = elim (Bool-cases (ltb 0 r.charged_fee)) [
    | inl t ↦ rw (t) (kept db found)
    | inr f ↦ rw (f) (update-Has target _ _ db _ (λ r. refl) found refl)
  ]

  close-Has :
      (target : ℕ) (stays : Operation → Bool) (code : RelayErrorCode) (o : Option Operation)
      (db : Database)
      → find_operation id db.operations ≡ some row
      → Has id row (after db (close_if target stays code o db))
  unfolding close with_budgets
  close-Has target stays code none db found = kept db found
  close-Has target stays code (some r) db found = elim (Bool-cases (stays r)) [
    | inl t ↦ rw (t) (kept db found)
    | inr f ↦ rw (f) (update-Has target _ _ db _ (λ r. refl) found refl)
  ]

  prepare-Has :
      (config : RelayConfiguration) (o : Option Operation) (target : ℕ) (key : SignerKey)
      (pending : ℕ) (prepared : PreparedRelayTransaction) (at : ℕ) (db : Database)
      → find_operation id db.operations ≡ some row
      → Has id row (after db (prepare_found config o target key pending prepared at db))
  unfolding record_prepared
  prepare-Has config none target key pending prepared at db found = kept db found
  prepare-Has config (some r) target key pending prepared at db found =
      elim (Bool-cases (is_closed_to_preparation r)) [
        | inl t ↦ rw (t) (kept db found)
        | inr f ↦ rw (f) (update-Has target _ _ db _ (λ r. refl) found refl)
      ]

  find-append :
      (rows : List Operation) (new : Operation)
      → find_operation id rows ≡ some row
      → find_operation id (rows ++ new ∷ []) ≡ some row
  unfolding find_operation
  find-append [] new found = cc
  find-append (r ∷ rows) new found = ground (arith, find-append rows new)

  insert-Has :
      (config : RelayConfiguration) (a : Acquisition) (blob : Option Blob) (db : Database)
      → find_operation id db.operations ≡ some row
      → Has id row (after_acquire db (insert_with config a blob db))
  unfolding insert_with
  insert-Has config a none db found = kept db found
  insert-Has config a (some blob) db found =
      (row, find-append db.operations _ found, (refl, inl refl))

  acquire-Has :
      (config : RelayConfiguration) (a : Acquisition) (db : Database)
      → find_operation id db.operations ≡ some row
      → Has id row (after_acquire db (acquire_operation config a db))
  acquire-Has config a db found =
      acquire_cases (Has id row) config a db (kept db found)
        (insert-Has config a (find_blob a.validated.blob_id db.blobs) db found)

  limits_leave_operations :
      (limits : List (Scope × ℕ)) (db : Database)
      → (apply_rate_limits limits db).1.operations ≡ db.operations
  unfolding apply_rate_limits counted
  limits_leave_operations [] db = refl
  limits_leave_operations ((scope, limit) ∷ limits) db =
      limits_leave_operations limits (counted scope db)

  poll-Has :
      (o : Option Operation) (db : Database)
      → find_operation id db.operations ≡ some row
      → Has id row (after db (poll_found o db))
  poll-Has none db found = kept db found
  poll-Has (some r) db found = free-Has r.id _ _ db (λ r. refl) found

  -- No statement removes a row or changes its identity, and each change is one that the trigger allows.
  pub execute-Has :
      (config : RelayConfiguration) (s : Statement) (db : Database)
      → find_operation id db.operations ≡ some row
      → Has id row (execute config s db)
  unfolding execute mark_retryable defer_reconciliation record_rebroadcast record_submitted
      record_reverted record_mismatch record_confirmed record_mined_cost
      mark_final_without_transaction mark_externally_anchored prepare_operation count_poll
  execute-Has config (marks_retryable target code at) db found =
      free-Has target _ _ db (λ r. refl) found
  execute-Has config (defers target at) db found = free-Has target _ _ db (λ r. refl) found
  execute-Has config (rebroadcasts target at) db found = free-Has target _ _ db (λ r. refl) found
  execute-Has config (submits target now at) db found = free-Has target _ _ db (λ r. refl) found
  execute-Has config (reverts target block now) db found = free-Has target _ _ db (λ r. refl) found
  execute-Has config (mismatches target block now) db found =
      free-Has target _ _ db (λ r. refl) found
  execute-Has config (confirms target block now) db found = free-Has target _ _ db (λ r. refl) found
  execute-Has config (charges target block) db found = cost-Has target block _ db found
  execute-Has config (gives_up target) db found =
      close-Has target (λ r. is_some r.transaction_hash) transaction_submission_failed
        (find_operation target db.operations) db found
  execute-Has config (finds_anchored target) db found =
      close-Has target (λ r. is_some r.transaction_hash || is_terminal r.state)
        event_already_anchored (find_operation target db.operations) db found
  execute-Has config (prepares target signer pending hash serialized at) db found =
      prepare-Has config _ target _ pending _ at db found
  execute-Has config (acquires a) db found = acquire-Has config a db found
  execute-Has config (counts limits) db found =
      (row, ap (find_operation id) (limits_leave_operations limits db) ∙ found, (refl, inl refl))
  execute-Has config (polls token) db found = poll-Has _ db found
