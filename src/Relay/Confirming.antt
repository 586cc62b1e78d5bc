-- ===== src/Relay/Confirming.antt =====
-- apps/web/lib/relay/relay-service.ts: what `#finalizeReceipt` makes of a transaction that was mined and
-- anchored its event.
use submittedit.Common.{
  ℕ, ◌≡◌, refl, sym, ap, ◌∙◌, inl, inr, Bool, true, false, ◌||◌, Option, none, some, arith, ltb,
  ◌==◌, if◌then◌else◌, Bool-cases,
}
use submittedit.Text.{Text, text_eq}
use submittedit.Text.Order.{text_eq_refl}
use submittedit.Relay.Types.{
  confirmed, OperationState, RelayContractState, RelayTransactionReceipt, Operation, Database,
  Outcome, returned,
}
use submittedit.Relay.Database.{
  is_terminal, may_become, option_eq, state_eq, find_operation, same_transaction, update_is_allowed,
  no_row, updated, write_row, update_operation, store_operation,
}
use submittedit.Relay.Statements.{
  awaits_receipt, finalized, charge_budget, with_budgets, record_cost_of, record_mined_cost,
  record_confirmed,
}
use submittedit.Relay.Action.{Service, ◌>>=◌, perform, ask, read}
use submittedit.Relay.Finalize.{contract_differs, or_refresh, refresh, finalize_receipt}
use submittedit.Relay.Guarded.{find-replace_same}

text_option_refl : (o : Option Text) → option_eq text_eq o o ≡ true
text_option_refl none = refl
text_option_refl (some s) = text_eq_refl s

number_option_refl : (o : Option ℕ) → option_eq ◌==◌ o o ≡ true
number_option_refl none = refl
number_option_refl (some n) = ground arith

same_transaction_refl : (row : Operation) → same_transaction row row ≡ true
unfolding same_transaction
same_transaction_refl row =
    rw
      (
        text_option_refl row.transaction_hash,
        number_option_refl row.transaction_nonce,
        number_option_refl row.gas_limit,
        number_option_refl row.max_fee_per_gas,
        number_option_refl row.max_priority_fee_per_gas,
      )
      refl

-- The trigger lets pass an update of an open row that keeps its transaction.
open_update_is_allowed :
    (old new : Operation)
    → same_transaction old new ≡ true
    → is_terminal old.state ≡ false
    → (state_eq old.state new.state || may_become old.state new.state) ≡ true
    → update_is_allowed old new ≡ true
unfolding update_is_allowed
open_update_is_allowed old new same opened moves = rw (same, opened, moves) ground arith

may_stay : (s : OperationState) → (state_eq s s || may_become s s) ≡ true
may_stay s = ground arith

may_confirm :
    (s : OperationState)
    → awaits_receipt s ≡ true
    → (state_eq s confirmed || may_become s confirmed) ≡ true
may_confirm s awaits = ground arith

update_operation-updated :
    (id : ℕ) (fits : Operation → Bool) (set : Operation → Operation) (db : Database)
    (row : Operation)
    → find_operation id db.operations ≡ some row
    → fits row ≡ true
    → update_is_allowed row (set row) ≡ true
    → update_operation id fits set db ≡ updated (set row) (store_operation id (set row) db)
unfolding update_operation write_row
update_operation-updated id fits set db row found f allowed = rw (found, f, allowed) refl

update_operation-no_row :
    (id : ℕ) (fits : Operation → Bool) (set : Operation → Operation) (db : Database)
    (row : Operation)
    → find_operation id db.operations ≡ some row
    → fits row ≡ false
    → update_operation id fits set db ≡ no_row
unfolding update_operation
update_operation-no_row id fits set db row found f = rw (found, f) refl

-- A row whose cost is recorded.
record IsPaid (row mined : Operation) (db later : Database) (block : ℕ) : Type 0 where
  recorded : record_mined_cost row.id block db ≡ updated mined later
  mined_found : find_operation row.id later.operations ≡ some mined
  mined_binding : mined.binding ≡ row.binding
  mined_state : mined.state ≡ row.state
  mined_hash : mined.transaction_hash ≡ row.transaction_hash

record_mined_cost-IsPaid :
    (row : Operation) (db : Database) (block : ℕ)
    → find_operation row.id db.operations ≡ some row
    → is_terminal row.state ≡ false
    → (mined : Operation) × (later : Database) × IsPaid row mined db later block
unfolding record_mined_cost record_cost_of with_budgets store_operation same_transaction
record_mined_cost-IsPaid row db block found opened = elim (Bool-cases (ltb 0 row.charged_fee)) [
  | inl charged ↦ (
    row,
    db,
    record {
      recorded = rw (found, charged) refl;
      mined_found = found;
      mined_binding = refl;
      mined_state = refl;
      mined_hash = refl;
    },
  )
  | inr uncharged ↦ (
    set row,
    store_operation row.id (set row) paid,
    record {
      recorded =
          rw (found, uncharged)
            (update_operation-updated row.id (λ r. true) set paid row found refl
              (open_update_is_allowed row (set row) (same_transaction_refl row) opened
                (may_stay row.state)));
      mined_found = find-replace_same row.id db.operations row (set row) found refl;
      mined_binding = refl;
      mined_state = refl;
      mined_hash = refl;
    },
  )
]
  where
    set : Operation → Operation
    set r = record r { reserved_fee = 0; charged_fee = row.reserved_fee; block_number = some block }

    paid : Database
    paid = with_budgets (charge_budget row.reserved_fee) row db

module _ {W : Type 0} (service : Service W) where
  open service use {gateway}

  -- A method that returned a row, which is in the database.
  abbrev pub Ends : Outcome Operation × Database × W → ℕ → OperationState → Type 0
  Ends end id state =
      (later : Operation) × (end.0 ≡ returned later)
      × (find_operation id end.1.operations ≡ some later)
      × (later.state ≡ state)

  -- The last statement of `#finalizeReceipt` and the search where it returns no row.
  confirm-Ends :
      (row mined : Operation) (db : Database) (block now : ℕ) (w : W)
      → find_operation row.id db.operations ≡ some mined
      → mined.binding ≡ row.binding
      → is_terminal mined.state ≡ false
      → Ends
          ((perform (record_confirmed mined.id block now) >>= or_refresh service row.id) db w)
          row.id
          (if awaits_receipt mined.state then confirmed else mined.state)
  unfolding ◌>>=◌ perform read refresh record_confirmed store_operation same_transaction
  confirm-Ends row mined db block now w found same opened =
      elim (Bool-cases (awaits_receipt mined.state)) [
        | inl awaits ↦
            rw
              (
                awaits,
                same_id,
                update_operation-updated row.id (λ r. awaits_receipt r.state) set db mined found
                    awaits
                    (open_update_is_allowed mined (set mined) (same_transaction_refl mined) opened
                      (may_confirm mined.state awaits)),
              )
              (
                set mined,
                refl,
                find-replace_same row.id db.operations mined (set mined) found same_id,
                refl,
              )
        | inr waits_not ↦
            rw
              (
                waits_not,
                same_id,
                update_operation-no_row row.id (λ r. awaits_receipt r.state) set db mined found
                    waits_not,
                found,
              )
              (mined, refl, found, refl)
      ]
    where
      set : Operation → Operation
      set = finalized confirmed none block now

      same_id : mined.id ≡ row.id
      same_id = ap (λ b. b.id) same

  -- `#finalizeReceipt` on a row in the database that is not over, with a successful receipt of its
  -- transaction that holds the contract's event, and a contract whose state agrees: it returns the row of
  -- the database, which is CONFIRMED where it was SUBMITTED or FAILED_RETRYABLE, and otherwise keeps its
  -- state.
  pub finalize_receipt_confirms :
      (row : Operation) (receipt : RelayTransactionReceipt) (state : RelayContractState)
      (db : Database) (w : W)
      → find_operation row.id db.operations ≡ some row
      → is_terminal row.state ≡ false
      → row.transaction_hash ≡ some receipt.transaction_hash
      → receipt.is_reverted ≡ false
      → receipt.contract_event_found ≡ true
      → (gateway.get_receipt_state row.receipt_id row.event_hash w).0 ≡ some state
      → contract_differs state row ≡ false
      → Ends
          (finalize_receipt service row receipt db w)
          row.id
          (if awaits_receipt row.state then confirmed else row.state)
  unfolding ◌>>=◌ perform ask finalize_receipt contract_differs find_operation
  finalize_receipt_confirms row receipt state db w found opened own succeeded emitted answered
        agrees =
      let (mined, later, m) = record_mined_cost-IsPaid row db receipt.block_number found opened in
      rw
        (
          own,
          text_eq_refl receipt.transaction_hash,
          m.recorded,
          succeeded,
          emitted,
          answered,
          agrees,
          sym m.mined_state,
        )
        (confirm-Ends row mined later receipt.block_number _ _ m.mined_found m.mined_binding
          (ap is_terminal m.mined_state ∙ opened))
