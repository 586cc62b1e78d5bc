-- ===== src/Relay/Finalize.antt =====
-- apps/web/lib/relay/relay-service.ts: `#refresh`, `#markRetryable`, `#deferReconciliation`,
-- `requestFromRow`, `feeFromRow` and `#finalizeReceipt`. Readings of the clock that go to `updated_at`
-- columns only are left out.
use submittedit.Common.{
  ℕ, ◌+◌, Bool, true, false, not, ◌||◌, Option, none, some, ltb, if◌then◌else◌,
}
use submittedit.Text.{Text, u, text_eq}
use submittedit.Types.{EventStage, attempted, site_confirmed, zero_hash}
use submittedit.Protocol.{ChainAnchorPayload}
use submittedit.Contract.{AnchorRequest, create_anchor_request_for_target}
use submittedit.Relay.Types.{
  OperationState, failed_retryable, RelayErrorCode, rpc_unavailable, RelayContractState,
  RelayFeeQuote, RelayTransactionReceipt, Operation, other_error,
}
use submittedit.Relay.Database.{find_operation}
use submittedit.Relay.Statements.{
  mark_retryable, defer_reconciliation, record_reverted, record_mismatch, record_confirmed,
  record_mined_cost, mark_final_without_transaction, mark_externally_anchored,
}
use submittedit.Relay.Action.{Service, Action, ◌>>=◌, give, or_fail, read, ask, perform}

-- `normalizeStage`; `none` where it throws.
abbrev pub normalize_stage : EventStage → Option EventStage
normalize_stage attempted = some attempted
normalize_stage site_confirmed = some site_confirmed
normalize_stage _ = none

-- The projection that `requestFromRow` builds.
abbrev pub payload_from_row : Operation → EventStage → ChainAnchorPayload
payload_from_row row stage = record {
  chain_id = row.chain_id;
  contract_address = row.contract_address;
  event_hash = row.event_hash;
  previous_event_hash = row.previous_event_hash;
  receipt_id = row.receipt_id;
  schema_version = u "1.0";
  stage = stage;
}

-- `feeFromRow`; `none` where it throws.
abbrev pub fee_from : Option ℕ → Option ℕ → Option ℕ → Option RelayFeeQuote
fee_from (some limit) (some fee) (some priority) =
    some (record { gas_limit = limit; max_fee_per_gas = fee; max_priority_fee_per_gas = priority })
fee_from _ _ _ = none

unfoldable pub fee_from_row : Operation → Option RelayFeeQuote
fee_from_row row = fee_from row.gas_limit row.max_fee_per_gas row.max_priority_fee_per_gas

-- The row's own hash is the receipt's.
abbrev pub is_hash_of : Option Text → Text → Bool
is_hash_of none hash = false
is_hash_of (some own) hash = text_eq hash own

abbrev pub max : ℕ → ℕ → ℕ
max a b = if ltb a b then b else a

-- The contract does not hold what the operation anchored.
unfoldable pub contract_differs : RelayContractState → Operation → Bool
contract_differs state row =
    not state.is_event_anchored
    || ltb state.current_stage row.contract_stage
    || not (text_eq state.extension_key_hash row.extension_key_hash)

abbrev pub is_retryable : OperationState → Bool
is_retryable failed_retryable = true
is_retryable _ = false

module _ {W : Type 0} (service : Service W) where
  open service use {configuration, gateway, is_address}

  -- The time of the next reconciliation.
  abbrev pub next_poll : Action W ℕ
  next_poll = do
    now ← ask gateway.read_clock
    give (now + configuration.confirmation_poll_interval_ms)

  -- `#refresh`.
  unfoldable pub refresh : ℕ → Action W Operation
  refresh id = read (λ db. find_operation id db.operations) >>= or_fail other_error

  -- `rows[0] ?? this.#refresh(id)`.
  abbrev pub or_refresh : ℕ → Option Operation → Action W Operation
  or_refresh id none = refresh id
  or_refresh id (some row) = give row

  -- `#markRetryable`.
  unfoldable pub retry_later : ℕ → RelayErrorCode → Action W Operation
  retry_later id code = do
    at ← next_poll
    row ← perform (mark_retryable id code at)
    or_refresh id row

  -- `#deferReconciliation`.
  unfoldable pub defer : ℕ → Action W Operation
  defer id = do at ← next_poll; row ← perform (defer_reconciliation id at); or_refresh id row

  abbrev pub or_row : Operation → Option Operation → Action W Operation
  or_row row none = give row
  or_row row (some found) = give found

  -- The two closing transactions; `rows[0] ?? locked ?? row`.
  unfoldable pub give_up : Operation → Action W Operation
  give_up row = perform (mark_final_without_transaction row.id) >>= or_row row

  unfoldable pub close_as_anchored : Operation → Action W Operation
  close_as_anchored row = perform (mark_externally_anchored row.id) >>= or_row row

  -- `requestFromRow`.
  unfoldable pub request_from_row : Operation → Action W AnchorRequest
  request_from_row row = do
    stage ← or_fail other_error (normalize_stage row.stage)
    or_fail other_error (
        create_anchor_request_for_target is_address (payload_from_row row stage)
          row.extension_key_hash zero_hash row.chain_id row.contract_address)

  -- What `#finalizeReceipt` does with the state of the contract.
  abbrev pub settle_contract :
      Operation
      → Operation
      → RelayTransactionReceipt
      → Option RelayContractState
      → Action W Operation
  settle_contract row mined receipt none = retry_later row.id rpc_unavailable
  settle_contract row mined receipt (some state) = ask gateway.read_clock >>= λ now.
      perform (
        if contract_differs state row
        then record_mismatch mined.id receipt.block_number now
        else record_confirmed mined.id receipt.block_number now)
      >>= or_refresh row.id

  abbrev pub finalize_mined : Operation → RelayTransactionReceipt → Operation → Action W Operation
  finalize_mined row receipt mined =
      if receipt.is_reverted
      then (do
        now ← ask gateway.read_clock
        closed ← perform (record_reverted mined.id receipt.block_number now)
        or_refresh row.id closed)
      else if not receipt.contract_event_found
      then (do
        now ← ask gateway.read_clock
        closed ← perform (record_mismatch mined.id receipt.block_number now)
        or_refresh row.id closed)
      else (do
        state ← ask (gateway.get_receipt_state row.receipt_id row.event_hash)
        settle_contract row mined receipt state)

  -- `#finalizeReceipt`.
  unfoldable pub finalize_receipt : Operation → RelayTransactionReceipt → Action W Operation
  finalize_receipt row receipt =
      if not (is_hash_of row.transaction_hash receipt.transaction_hash)
      then retry_later row.id rpc_unavailable
      else (do
        charged ← perform (record_mined_cost row.id receipt.block_number)
        mined ← or_row row charged
        finalize_mined row receipt mined)
