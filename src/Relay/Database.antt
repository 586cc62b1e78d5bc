-- ===== src/Relay/Database.antt =====
-- apps/web/db/migrations/0002_relay_foundation.sql: the tables as lists, whose rows a primary key tells
-- apart, so that a statement on a key reads and changes the first row that has it; and the trigger
-- `enforce_relay_operation_update`.
use submittedit.Common.{
  ℕ, Bool, true, false, not, ◌&&◌, ◌||◌, Option, none, some, List, [], ◌∷◌, ◌==◌, if◌then◌else◌,
}
use submittedit.Text.{text_eq}
use submittedit.Relay.Types.{
  OperationState, validating, ready, submitting, submitted, confirmed, reverted, failed_retryable,
  failed_final, error_index, Operation, BudgetKey, Budget, SignerKey, SignerNonce, Database,
}

abbrev pub is_some {ℓ} : {A : Type ℓ} → Option A → Bool
is_some none = false
is_some (some a) = true

-- `IS NOT DISTINCT FROM`.
abbrev pub option_eq {ℓ} : {A : Type ℓ} → (A → A → Bool) → Option A → Option A → Bool
option_eq eq none none = true
option_eq eq (some a) (some b) = eq a b
option_eq eq _ _ = false

abbrev pub state_eq : OperationState → OperationState → Bool
state_eq validating validating = true
state_eq ready ready = true
state_eq submitting submitting = true
state_eq submitted submitted = true
state_eq confirmed confirmed = true
state_eq reverted reverted = true
state_eq failed_retryable failed_retryable = true
state_eq failed_final failed_final = true
state_eq _ _ = false

-- `TERMINAL_STATES.has(state)`.
abbrev pub is_terminal : OperationState → Bool
is_terminal confirmed = true
is_terminal reverted = true
is_terminal failed_final = true
is_terminal _ = false

-- The changes of state that the trigger allows.
abbrev pub may_become : OperationState → OperationState → Bool
may_become validating ready = true
may_become validating failed_final = true
may_become ready submitting = true
may_become ready failed_retryable = true
may_become ready failed_final = true
may_become submitting submitted = true
may_become submitting failed_retryable = true
may_become submitting failed_final = true
may_become submitted confirmed = true
may_become submitted reverted = true
may_become submitted failed_retryable = true
may_become submitted failed_final = true
may_become failed_retryable ready = true
may_become failed_retryable submitting = true
may_become failed_retryable submitted = true
may_become failed_retryable confirmed = true
may_become failed_retryable reverted = true
may_become failed_retryable failed_final = true
may_become _ _ = false

-- The columns of a prepared transaction are the same in both rows.
unfoldable pub same_transaction : Operation → Operation → Bool
same_transaction old new =
    option_eq text_eq old.transaction_hash new.transaction_hash
    && option_eq ◌==◌ old.transaction_nonce new.transaction_nonce
    && option_eq ◌==◌ old.gas_limit new.gas_limit
    && option_eq ◌==◌ old.max_fee_per_gas new.max_fee_per_gas
    && option_eq ◌==◌ old.max_priority_fee_per_gas new.max_priority_fee_per_gas

-- So are the other columns that a statement of the service may change.
unfoldable pub same_result : Operation → Operation → Bool
unfolding same_transaction
same_result old new =
    same_transaction old new
    && state_eq old.state new.state
    && option_eq ◌==◌ old.block_number new.block_number
    && old.reserved_fee == new.reserved_fee
    && old.charged_fee == new.charged_fee
    && old.attempt_count == new.attempt_count
    && old.poll_count == new.poll_count
    && option_eq (λ a b. error_index a == error_index b) old.last_error_code new.last_error_code
    && option_eq ◌==◌ old.next_reconcile_at new.next_reconcile_at
    && option_eq ◌==◌ old.submitted_at new.submitted_at
    && option_eq ◌==◌ old.confirmed_at new.confirmed_at

-- The trigger lets an update through. Its first test is about columns that no statement writes.
unfoldable pub update_is_allowed : Operation → Operation → Bool
unfolding same_result
update_is_allowed old new =
    (not (is_some old.transaction_hash) || same_transaction old new)
    && (not (is_terminal old.state) || same_result old new)
    && (state_eq old.state new.state || may_become old.state new.state)

unfoldable pub find_operation : ℕ → List Operation → Option Operation
find_operation id [] = none
find_operation id (row ∷ rows) = if row.id == id then some row else find_operation id rows

unfoldable pub replace_operation : ℕ → Operation → List Operation → List Operation
replace_operation id new [] = []
replace_operation id new (row ∷ rows) =
    if row.id == id then new ∷ rows else row ∷ replace_operation id new rows

-- What a statement on one operation does: the trigger raises, no row fits, or a row is returned.
pub data Updated : Type 0 where
  refused : Updated
  no_row : Updated
  updated : Operation → Database → Updated

-- The database when the statement is over.
abbrev pub after : Database → Updated → Database
after db refused = db
after db no_row = db
after db (updated row new) = new

unfoldable pub store_operation : ℕ → Operation → Database → Database
unfolding replace_operation
store_operation id row db = record db { operations = replace_operation id row db.operations }

unfoldable pub write_row : ℕ → Operation → Operation → Database → Updated
unfolding update_is_allowed store_operation
write_row id old new db =
    if update_is_allowed old new then updated new (store_operation id new db) else refused

abbrev pub update_found :
    ℕ → Option Operation → (Operation → Bool) → (Operation → Operation) → Database → Updated
update_found id none fits set db = no_row
update_found id (some row) fits set db = if fits row then write_row id row (set row) db else no_row

-- `UPDATE relay_operations SET … WHERE id = … AND … RETURNING *`.
unfoldable pub update_operation :
    ℕ → (Operation → Bool) → (Operation → Operation) → Database → Updated
unfolding find_operation
update_operation id fits set db = update_found id (find_operation id db.operations) fits set db

abbrev pub budget_key_eq : BudgetKey → BudgetKey → Bool
budget_key_eq a b = a.day == b.day && a.chain == b.chain && text_eq a.address b.address

-- The budget that an operation's fee is reserved in.
unfoldable pub budget_of : Operation → BudgetKey
budget_of row = record {
  day = row.budget_date;
  chain = row.chain_id;
  address = row.contract_address;
}

unfoldable pub find_budget : BudgetKey → List Budget → Option Budget
find_budget key [] = none
find_budget key (b ∷ bs) = if budget_key_eq b.budget_key key then some b else find_budget key bs

unfoldable pub update_budget : BudgetKey → (Budget → Budget) → List Budget → List Budget
update_budget key set [] = []
update_budget key set (b ∷ bs) =
    if budget_key_eq b.budget_key key then set b ∷ bs else b ∷ update_budget key set bs

-- `INSERT INTO relay_daily_budgets … ON CONFLICT DO NOTHING`.
unfoldable pub ensure_budget : BudgetKey → List Budget → List Budget
ensure_budget key [] =
    record { budget_key = key; reserved_wei = 0; spent_wei = 0; transaction_count = 0 } ∷ []
ensure_budget key (b ∷ bs) =
    if budget_key_eq b.budget_key key then b ∷ bs else b ∷ ensure_budget key bs

abbrev pub signer_key_eq : SignerKey → SignerKey → Bool
signer_key_eq a b = a.chain == b.chain && text_eq a.address b.address && text_eq a.signer b.signer

unfoldable pub find_nonce : SignerKey → List SignerNonce → Option ℕ
find_nonce key [] = none
find_nonce key (n ∷ ns) =
    if signer_key_eq n.signer_key key then some n.next_nonce else find_nonce key ns

-- The insertion of a signer's row where it has none, and the update of `next_nonce`.
unfoldable pub set_nonce : SignerKey → ℕ → List SignerNonce → List SignerNonce
set_nonce key next [] = record { signer_key = key; next_nonce = next } ∷ []
set_nonce key next (n ∷ ns) =
    if signer_key_eq n.signer_key key
    then record n { next_nonce = next } ∷ ns
    else n ∷ set_nonce key next ns
