-- ===== src/Relay/Tracing.antt =====
-- apps/web/lib/relay/relay-service.ts: `#reconcile` and what it calls change the database by statements.
pub mod Sent
pub mod Requests
use submittedit.Common.{
  ◌≤◌, ◌∙◌, subst, ltb, sym, ap, inl, inr, arith, Option-cases, Bool-cases, ℕ, ◌≡◌, refl, Bool,
  true, false, not, if◌then◌else◌, Option, none, some,
}
use submittedit.Relay.Types.{
  RelayErrorCode, RelayContractState, RelayTransactionReceipt, Operation, Database,
}
use submittedit.Text.{Text}
use submittedit.Text.Order.{text_eq_iff}
use submittedit.Relay.Database.{
  update_is_allowed, store_operation, Updated, updated, refused, no_row, find_operation,
  update_operation, update_found, write_row,
}
use submittedit.Relay.Tables.{find_operation-id}
use submittedit.Relay.Evidence.{IsAnchored, IsAnswer, IsMined, IsState}
use submittedit.Relay.Finalize.{is_hash_of}
use submittedit.Relay.Statements.{record_cost_of, charge_budget, with_budgets}
use submittedit.Relay.Statements.{
  mark_retryable, defer_reconciliation, record_reverted, record_mismatch, record_confirmed,
  record_mined_cost, mark_final_without_transaction, mark_externally_anchored,
}
use submittedit.Relay.Steps.{
  marks_retryable, defers, reverts, mismatches, confirms, charges, gives_up, finds_anchored,
  execute,
}
use submittedit.Relay.Action.{Service, Action, give, ◌>>=◌, perform}
use submittedit.Relay.Finalize.{
  next_poll, refresh, or_refresh, retry_later, defer, or_row, give_up, close_as_anchored,
  contract_differs, settle_contract, finalize_mined, finalize_receipt,
}
use submittedit.Relay.Traced.{
  IsTraced, give-IsTraced, or_fail-IsTraced, if-IsTraced, bind-IsTraced, ask-IsTraced,
  read-IsTraced, perform-IsTraced, performed-IsTraced, answered-IsTraced, decided-IsTraced,
}

agreeing-IsAnchored :
    (state : RelayContractState) (row : Operation)
    → contract_differs state row ≡ false
    → IsAnchored state row
unfolding contract_differs
agreeing-IsAnchored state row h = record {
  event_anchored = ground arith;
  stage_reached = ground arith;
  same_key = (text_eq_iff state.extension_key_hash row.extension_key_hash).0 (ground arith);
}

differing-IsAnchored :
    (state : RelayContractState) (row : Operation)
    → contract_differs state row ≡ true
    → ¬ (IsAnchored state row)
unfolding contract_differs
differing-IsAnchored state row h anchored =
    let anchored_event = anchored.event_anchored in
    let reached = anchored.stage_reached in
    let same = (text_eq_iff state.extension_key_hash row.extension_key_hash).1 anchored.same_key in
    ground (arith, h, anchored_event, same)

own_hash : (own : Option Text) (hash : Text) → is_hash_of own hash ≡ true → own ≡ some hash
own_hash none hash h = cc
own_hash (some own) hash h = ap some (sym ((text_eq_iff hash own).0 h))

module _ {row : Operation} {new : Database} where
  same_updated_id :
      (id : ℕ) (r : Operation) (db : Database)
      → updated r db ≡ updated row new
      → r.id ≡ id
      → row.id ≡ id
  same_updated_id id r db h e = subst (λ o. o.id ≡ id) (same h) e
    where
      same : updated r db ≡ updated row new → r ≡ row
      same h = cc

  update_found-id :
      (id : ℕ) (found : Option Operation) (fits : Operation → Bool) (set : Operation → Operation)
      (db : Database)
      → ((r : Operation) → (set r).id ≡ r.id)
      → find_operation id db.operations ≡ found
      → update_found id found fits set db ≡ updated row new
      → row.id ≡ id
  unfolding write_row
  update_found-id id none fits set db keeps e h = cc
  update_found-id id (some r) fits set db keeps e h =
      tested (fits r) (update_is_allowed r (set r)) h
    where
      tested :
          (b allowed : Bool)
          → (if b
              then (if allowed then updated (set r) (store_operation id (set r) db) else refused)
              else no_row)
            ≡ updated row new
          → row.id ≡ id
      tested false allowed h = cc
      tested true false h = cc
      tested true true h =
          same_updated_id id (set r) _ h (keeps r ∙ find_operation-id id db.operations r e)

  cost_of-id :
      (id : ℕ) (found : Option Operation) (block : ℕ) (db : Database)
      → find_operation id db.operations ≡ found
      → record_cost_of id found block db ≡ updated row new
      → row.id ≡ id
  unfolding record_cost_of update_operation with_budgets
  cost_of-id id none block db e h = cc
  cost_of-id id (some r) block db e h = elim (Bool-cases (ltb 0 r.charged_fee)) [
    | inl paid ↦
        same_updated_id id r db
          (subst (λ b. (if b then updated r db else unpaid) ≡ updated row new) paid h)
          (find_operation-id id db.operations r e)
    | inr owed ↦
        update_found-id id _ _ _ (with_budgets (charge_budget r.reserved_fee) r db) (λ o. refl) refl
          (subst (λ b. (if b then updated r db else unpaid) ≡ updated row new) owed h)
  ]
    where
      unpaid : Updated
      unpaid =
          update_operation id (λ o. true)
            (λ o. record o {
              reserved_fee = 0;
              charged_fee = r.reserved_fee;
              block_number = some block;
            })
            (with_budgets (charge_budget r.reserved_fee) r db)

  -- The row that `#recordMinedCost` returns has the identifier that it was asked for.
  record_mined_cost-id :
      (id block : ℕ) (db : Database) → record_mined_cost id block db ≡ updated row new → row.id ≡ id
  unfolding record_mined_cost
  record_mined_cost-id id block db h =
      cost_of-id id (find_operation id db.operations) block db refl h

module _ {W : Type 0} (service : Service W) where
  open service use {configuration, gateway}

  pub next_poll-IsTraced : IsTraced service (next_poll service)
  next_poll-IsTraced = ask-IsTraced service _ _ λ now. give-IsTraced service _

  pub refresh-IsTraced : (id : ℕ) → IsTraced service (refresh service id)
  unfolding refresh
  refresh-IsTraced id = read-IsTraced service _ _ (or_fail-IsTraced service _)

  pub or_refresh-IsTraced :
      (id : ℕ) (found : Option Operation) → IsTraced service (or_refresh service id found)
  or_refresh-IsTraced id none = refresh-IsTraced id
  or_refresh-IsTraced id (some row) = give-IsTraced service row

  pub or_row-IsTraced :
      (row : Operation) (found : Option Operation) → IsTraced service (or_row service row found)
  or_row-IsTraced row none = give-IsTraced service row
  or_row-IsTraced row (some r) = give-IsTraced service r

  pub retry_later-IsTraced :
      (id : ℕ) (code : RelayErrorCode) → IsTraced service (retry_later service id code)
  unfolding retry_later execute
  retry_later-IsTraced id code = bind-IsTraced service _ _ next_poll-IsTraced λ at.
      perform-IsTraced service (marks_retryable id code at) _ _ (λ db. refl) tt
        (or_refresh-IsTraced id)

  pub defer-IsTraced : (id : ℕ) → IsTraced service (defer service id)
  unfolding defer execute
  defer-IsTraced id =
      bind-IsTraced service _ _ next_poll-IsTraced
        λ at. perform-IsTraced service (defers id at) _ _ (λ db. refl) tt (or_refresh-IsTraced id)

  pub give_up-IsTraced : (row : Operation) → IsTraced service (give_up service row)
  unfolding give_up execute
  give_up-IsTraced row =
      perform-IsTraced service (gives_up row.id) _ _ (λ db. refl) tt (or_row-IsTraced row)

  pub close_as_anchored-IsTraced :
      (row : Operation) → IsTraced service (close_as_anchored service row)
  unfolding close_as_anchored execute
  close_as_anchored-IsTraced row =
      perform-IsTraced service (finds_anchored row.id) _ _ (λ db. refl) tt (or_row-IsTraced row)

  -- What is known of a receipt when `#finalizeReceipt` is called.
  pub record IsMet (receipt : RelayTransactionReceipt) : Type 0 where
    pub answered : IsAnswer service receipt
    pub deep_enough : configuration.confirmation_target ≤ receipt.confirmations

  abbrev mined_as :
      (row mined : Operation) (receipt : RelayTransactionReceipt)
      → IsMet receipt
      → row.transaction_hash ≡ some receipt.transaction_hash
      → mined.id ≡ row.id
      → IsMined service mined.id receipt.block_number
  mined_as row mined receipt met own same = record {
    row = row;
    receipt = receipt;
    is_row = sym same;
    answered = met.answered;
    deep_enough = met.deep_enough;
    own_hash = own;
    in_block = refl;
  }

  module _ (row mined : Operation) (receipt : RelayTransactionReceipt) (met : IsMet receipt)
      (own : row.transaction_hash ≡ some receipt.transaction_hash) (same : mined.id ≡ row.id) where
    settle_contract-IsTraced :
        (answer : Option RelayContractState) (w : W)
        → (gateway.get_receipt_state row.receipt_id row.event_hash w).0 ≡ answer
        → receipt.is_reverted ≡ false
        → receipt.contract_event_found ≡ true
        → IsTraced service (settle_contract service row mined receipt answer)
    unfolding execute
    settle_contract-IsTraced none w given kept found = retry_later-IsTraced row.id _
    settle_contract-IsTraced (some state) w given kept found =
        ask-IsTraced service _ _ λ now. settled (contract_differs state row) now refl
      where
        settled :
            (differs : Bool) (now : ℕ)
            → contract_differs state row ≡ differs
            → IsTraced service (
                perform (
                  if differs
                  then record_mismatch mined.id receipt.block_number now
                  else record_confirmed mined.id receipt.block_number now)
                >>= or_refresh service row.id)
        settled true now e =
            perform-IsTraced service (mismatches mined.id receipt.block_number now) _ _ (λ db. refl)
              (
                mined_as row mined receipt met own same,
                kept,
                inr (state, (w, given), differing-IsAnchored state row e),
              )
              (or_refresh-IsTraced row.id)
        settled false now e =
            perform-IsTraced service (confirms mined.id receipt.block_number now) _ _ (λ db. refl)
              (
                mined_as row mined receipt met own same,
                kept,
                found,
                (state, (w, given), agreeing-IsAnchored state row e),
              )
              (or_refresh-IsTraced row.id)

    finalize_mined-IsTraced : IsTraced service (finalize_mined service row receipt mined)
    unfolding execute
    finalize_mined-IsTraced =
        decided-IsTraced service receipt.is_reverted
          (λ reverted. ask-IsTraced service _ _ λ now.
            perform-IsTraced service (reverts mined.id receipt.block_number now) _ _ (λ db. refl)
              (mined_as row mined receipt met own same, reverted) (or_refresh-IsTraced row.id))
          λ kept.
            decided-IsTraced service (not receipt.contract_event_found)
              (λ lost. ask-IsTraced service _ _ λ now.
                perform-IsTraced service (mismatches mined.id receipt.block_number now) _ _
                  (λ db. refl) (mined_as row mined receipt met own same, kept, inl (ground arith))
                  (or_refresh-IsTraced row.id))
              λ found.
                answered-IsTraced service _ _
                  λ answer w given. settle_contract-IsTraced answer w given kept (ground arith)

  pub finalize_receipt-IsTraced :
      (row : Operation) (receipt : RelayTransactionReceipt)
      → IsMet receipt
      → IsTraced service (finalize_receipt service row receipt)
  unfolding finalize_receipt execute ◌>>=◌
  finalize_receipt-IsTraced row receipt met =
      decided-IsTraced service (not (is_hash_of row.transaction_hash receipt.transaction_hash))
        (λ other. retry_later-IsTraced row.id _)
        λ own.
          let hash = own_hash row.transaction_hash receipt.transaction_hash (ground arith) in
          performed-IsTraced service (charges row.id receipt.block_number) _ _ (λ db. refl)
            (mined_as row row receipt met hash refl)
            (finalize_mined-IsTraced row row receipt met hash refl)
            λ db new mined given.
              finalize_mined-IsTraced row mined receipt met hash
                (record_mined_cost-id row.id receipt.block_number db given)
