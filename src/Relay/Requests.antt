-- ===== src/Relay/Requests.antt =====
-- apps/web/lib/relay/relay-service.ts: the transactions and statements that a request begins with:
-- `#acquireOperation`, `#applyRateLimits`, the poll of `getOperation` and the searches by a key.
use submittedit.Common.{
  ℕ, suc, ◌+◌, ◌*◌, ◌/◌, Bool, true, false, not, ◌&&◌, ◌||◌, Option, none, some, List, [], ◌∷◌,
  ◌++◌, ltb, ◌==◌, if◌then◌else◌,
}
use submittedit.Text.{Text, text_eq}
use submittedit.Types.{stage}
use submittedit.Contract.{AnchorRequest}
use submittedit.Relay.Types.{
  ready, RelayErrorCode, invalid_transition, idempotency_conflict, daily_budget_exceeded,
  blob_not_found, RelayConfiguration, RelayFeeQuote, ValidatedRelayEvent, Operation, BudgetKey,
  Budget, ScopeKind, ip, public_key, receipt, Scope, Counter, Blob, Database,
}
use submittedit.Relay.Database.{
  option_eq, Updated, no_row, update_operation, find_budget, update_budget, ensure_budget,
}
use submittedit.Relay.Statements.{is_open}

-- `SELECT * FROM relay_operations WHERE …`, its first row.
unfoldable pub first_operation : (Operation → Bool) → List Operation → Option Operation
first_operation fits [] = none
first_operation fits (row ∷ rows) = if fits row then some row else first_operation fits rows

unfoldable pub find_by_event_hash : Text → Database → Option Operation
unfolding first_operation
find_by_event_hash hash db = first_operation (λ row. text_eq row.event_hash hash) db.operations

unfoldable pub find_by_key_hash : Text → Database → Option Operation
unfolding first_operation
find_by_key_hash hash db =
    first_operation (λ row. option_eq text_eq row.idempotency_key_hash (some hash)) db.operations

-- The row of a receipt and a contract stage, which are unique together.
unfoldable pub find_by_stage : Text → ℕ → Database → Option Operation
unfolding first_operation
find_by_stage receipt_id contract_stage db =
    first_operation
      (λ row. text_eq row.receipt_id receipt_id && row.contract_stage == contract_stage)
      db.operations

unfoldable pub find_blob : Text → List Blob → Option Blob
find_blob id [] = none
find_blob id (b ∷ bs) = if text_eq b.public_id id && b.is_active then some b else find_blob id bs

-- What `#acquireOperation` is called with, and the values that it draws and computes first.
pub record Acquisition : Type 0 where
  pub validated : ValidatedRelayEvent
  pub anchor : AnchorRequest
  pub fee : RelayFeeQuote
  pub reservation : ℕ
  pub key_hash : Option Text
  pub status_id : Text
  pub now : ℕ

pub data Acquired : Type 0 where
  acquire_failed : RelayErrorCode → Acquired
  acquired : Bool → Operation → Database → Acquired

abbrev pub after_acquire : Database → Acquired → Database
after_acquire db (acquire_failed code) = db
after_acquire db (acquired created row new) = new

-- `now.toISOString().slice(0, 10)`.
unfoldable pub day_of : ℕ → ℕ
day_of now = now / 86400000

unfoldable pub acquired_budget : Acquisition → BudgetKey
unfolding day_of
acquired_budget a = record {
  day = day_of a.now;
  chain = a.anchor.chain_id;
  address = a.anchor.address;
}

-- The row that is inserted, once it is READY.
unfoldable pub acquired_row : RelayConfiguration → Acquisition → Blob → ℕ → Operation
unfolding day_of
acquired_row config a blob id = record {
  binding = record {
    id = id;
    public_status_id = a.status_id;
    encrypted_blob_id = blob.blob_row_id;
    event_hash = a.validated.event.event_hash;
    request_fingerprint = a.validated.request_fingerprint;
    idempotency_key_hash = a.key_hash;
    receipt_id = a.validated.event.core.receipt_id;
    stage = stage a.validated.event.core;
    contract_stage = a.anchor.stage;
    previous_event_hash = a.validated.event.core.previous_event_hash;
    extension_key_hash = a.validated.extension_key_hash;
    extension_key_id = a.validated.extension_public_key.key_id;
    chain_id = a.anchor.chain_id;
    contract_address = a.anchor.address;
    budget_date = day_of a.now;
    confirmation_target = config.confirmation_target;
    created_at = a.now;
  };
  state = ready;
  transaction_hash = none;
  transaction_nonce = none;
  block_number = none;
  gas_limit = some a.fee.gas_limit;
  max_fee_per_gas = some a.fee.max_fee_per_gas;
  max_priority_fee_per_gas = some a.fee.max_priority_fee_per_gas;
  reserved_fee = a.reservation;
  charged_fee = 0;
  attempt_count = 0;
  poll_count = 0;
  last_error_code = none;
  next_reconcile_at = none;
  submitted_at = none;
  confirmed_at = none;
}

unfoldable pub reserve_budget : ℕ → Budget → Budget
reserve_budget amount b = record b { reserved_wei = b.reserved_wei + amount }

-- Both INSERTs, the UPDATE of the budget and that of the state.
unfoldable pub insert_with : RelayConfiguration → Acquisition → Option Blob → Database → Acquired
unfolding acquired_row reserve_budget
insert_with config a none db = acquire_failed blob_not_found
insert_with config a (some blob) db = acquired true row (record db {
  operations = db.operations ++ row ∷ [];
  budgets =
      update_budget (acquired_budget a) (reserve_budget a.reservation)
        (ensure_budget (acquired_budget a) db.budgets);
  next_id = suc db.next_id;
})
  where
    row : Operation
    row = acquired_row config a blob db.next_id

-- The test of the budget's row, locked for update.
abbrev pub exceeds : ℕ → ℕ → Option Budget → Bool
exceeds daily reservation none = true
exceeds daily reservation (some b) = ltb daily (b.reserved_wei + b.spent_wei + reservation)

unfoldable pub reserve_and_insert : RelayConfiguration → Acquisition → Database → Acquired
unfolding acquired_budget find_blob
reserve_and_insert config a db =
    if exceeds config.daily_budget_wei a.reservation
      (find_budget (acquired_budget a) (ensure_budget (acquired_budget a) db.budgets))
    then acquire_failed daily_budget_exceeded
    else insert_with config a (find_blob a.validated.blob_id db.blobs) db

-- Another event of the receipt has the stage.
abbrev pub is_other_event : Text → Option Operation → Bool
is_other_event hash none = false
is_other_event hash (some row) = not (text_eq row.event_hash hash)

unfoldable pub acquire_unknown : RelayConfiguration → Acquisition → Database → Acquired
unfolding find_by_stage
acquire_unknown config a db =
    if is_other_event a.validated.event.event_hash
      (find_by_stage a.validated.event.core.receipt_id a.anchor.stage db)
    then acquire_failed invalid_transition
    else reserve_and_insert config a db

abbrev pub acquire_event : RelayConfiguration → Acquisition → Option Operation → Database → Acquired
acquire_event config a (some row) db =
    if not (text_eq row.request_fingerprint a.validated.request_fingerprint)
    then acquire_failed idempotency_conflict
    else acquired false row db
acquire_event config a none db = acquire_unknown config a db

-- The key is bound to another request.
abbrev pub binds_other : ValidatedRelayEvent → Option Operation → Bool
binds_other validated none = false
binds_other validated (some row) =
    not (text_eq row.event_hash validated.event.event_hash)
    || not (text_eq row.request_fingerprint validated.request_fingerprint)

unfoldable pub key_conflicts : Acquisition → Option Text → Database → Bool
unfolding find_by_key_hash
key_conflicts a none db = false
key_conflicts a (some hash) db = binds_other a.validated (find_by_key_hash hash db)

-- `#acquireOperation`.
unfoldable pub acquire_operation : RelayConfiguration → Acquisition → Database → Acquired
unfolding find_by_event_hash
acquire_operation config a db =
    if key_conflicts a a.key_hash db
    then acquire_failed idempotency_conflict
    else acquire_event config a (find_by_event_hash a.validated.event.event_hash db) db

abbrev pub kind_eq : ScopeKind → ScopeKind → Bool
kind_eq ip ip = true
kind_eq public_key public_key = true
kind_eq receipt receipt = true
kind_eq _ _ = false

abbrev pub scope_eq : Scope → Scope → Bool
scope_eq a b =
    kind_eq a.kind b.kind
    && text_eq a.scope_hash b.scope_hash
    && a.window_started_at == b.window_started_at

-- `INSERT … ON CONFLICT … DO UPDATE SET request_count = request_count + 1`.
unfoldable pub count_request : Scope → List Counter → List Counter
count_request scope [] = record { scope = scope; request_count = 1 } ∷ []
count_request scope (c ∷ cs) =
    if scope_eq c.scope scope
    then record c { request_count = suc c.request_count } ∷ cs
    else c ∷ count_request scope cs

unfoldable pub request_count_of : Scope → List Counter → ℕ
request_count_of scope [] = 0
request_count_of scope (c ∷ cs) =
    if scope_eq c.scope scope then c.request_count else request_count_of scope cs

-- `Math.floor(now / window) * window`.
unfoldable pub window_start : RelayConfiguration → ℕ → ℕ
window_start config now =
    now / (config.rate_limit_window_seconds * 1000) * (config.rate_limit_window_seconds * 1000)

unfoldable pub counted : Scope → Database → Database
unfolding count_request
counted scope db = record db { counters = count_request scope db.counters }

-- The loop of `#applyRateLimits` over its three scopes and their limits: whether one is exceeded.
unfoldable pub apply_rate_limits : List (Scope × ℕ) → Database → Bool × Database
unfolding request_count_of
apply_rate_limits [] db = (false, db)
apply_rate_limits ((scope, limit) ∷ limits) db =
    let rest = apply_rate_limits limits (counted scope db) in
    (ltb limit (request_count_of scope (counted scope db).counters) || rest.0, rest.1)

unfoldable pub find_by_token : Text → Database → Option Operation
unfolding first_operation
find_by_token token db = first_operation (λ row. text_eq row.public_status_id token) db.operations

abbrev pub poll_found : Option Operation → Database → Updated
poll_found none db = no_row
poll_found (some row) db =
    update_operation row.id is_open (λ r. record r { poll_count = suc r.poll_count }) db

-- The UPDATE of `getOperation`, and the SELECT where it returns no row.
unfoldable pub count_poll : Text → Database → Updated
unfolding find_by_token
count_poll token db = poll_found (find_by_token token db) db
