-- ===== src/Relay/Service.antt =====
-- apps/web/lib/relay/relay-service.ts: `relay` and `getOperation`. Calls that the source makes at once are made in order.
use submittedit.Common.{
  ℕ, ◌+◌, ◌*◌, Bool, true, false, not, ◌||◌, Option, none, some, List, [], ◌∷◌, ◌++◌, ltb, ◌==◌,
  if◌then◌else◌,
}
use submittedit.Text.{Text, u, text_eq}
use submittedit.Types.{EventStage, stage}
use submittedit.Contract.{AnchorRequest}
use submittedit.Relay.Types.{
  OperationState, RelayErrorCode, incorrect_previous_event, event_already_anchored,
  idempotency_conflict, rate_limited, daily_budget_exceeded, insufficient_relayer_funds,
  operation_not_found, RelayContractState, RelayFeeQuote, ValidatedRelayEvent, Operation, Database,
  Scope, ip, public_key, receipt, service_error, Outcome, thrown, returned,
}
use submittedit.Relay.Database.{is_some, is_terminal}
use submittedit.Relay.Requests.{
  find_by_event_hash, find_by_key_hash, find_by_token, Acquisition, Acquired, acquire_failed,
  acquired, acquire_operation, window_start, apply_rate_limits, count_poll,
}
use submittedit.Relay.Action.{Service, Action, ◌>>=◌, give, read, ask, perform, chain_call}
use submittedit.Relay.Finalize.{close_as_anchored}
use submittedit.Relay.Reconcile.{reconcile}
use submittedit.Value.{Value}
use submittedit.Relay.Parsing.{parse_relay_event_request}
use submittedit.Relay.Checks.{
  from_outcome, is_relay_opaque_id, static_transition_is_wrong, transition_error, throw_if,
  throw_some, or_throw, validate_request, build_anchor_request, precheck_runtime,
}

-- `RelayOperationView`, less the message of its error.
pub record RelayOperationView : Type 0 where
  pub view_block_number : Option ℕ
  pub view_chain_id : ℕ
  pub view_contract_address : Text
  pub view_created_at : ℕ
  pub view_error : Option RelayErrorCode
  pub view_event_hash : Text
  pub view_receipt_id : Text
  pub view_stage : EventStage
  pub view_state : OperationState
  pub status_token : Text
  pub view_transaction_hash : Option Text

-- `toOperationView`.
unfoldable pub to_operation_view : Operation → RelayOperationView
to_operation_view row = record {
  view_block_number = row.block_number;
  view_chain_id = row.chain_id;
  view_contract_address = row.contract_address;
  view_created_at = row.created_at;
  view_error = row.last_error_code;
  view_event_hash = row.event_hash;
  view_receipt_id = row.receipt_id;
  view_stage = row.stage;
  view_state = row.state;
  status_token = row.public_status_id;
  view_transaction_hash = row.transaction_hash;
}

module _ {W : Type 0} (service : Service W) where
  open service use {configuration, gateway, host, crypto}

  abbrev pub scope_of : Text → Text → Text
  scope_of kind value = crypto.hmac_sha256_hex service.abuse_hash_key (kind ++ 0 ∷ value)

  -- The three limits of `#applyRateLimits` at a time.
  unfoldable pub rate_limits : ValidatedRelayEvent → Text → ℕ → List (Scope × ℕ)
  rate_limits v network_scope now =
      (
        record {
          kind = ip;
          scope_hash = scope_of (u "IP") network_scope;
          window_started_at = start;
        },
        configuration.request_ip_requests_per_window,
      )
      ∷ (
        record {
          kind = public_key;
          scope_hash = scope_of (u "PUBLIC_KEY") v.extension_key_hash;
          window_started_at = start;
        },
        configuration.public_key_requests_per_window,
      )
      ∷ (
        record {
          kind = receipt;
          scope_hash = scope_of (u "RECEIPT") v.event.core.receipt_id;
          window_started_at = start;
        },
        configuration.receipt_requests_per_window,
      )
      ∷ []
    where
      start : ℕ
      start = window_start configuration now

  abbrev pub count_limits : List (Scope × ℕ) → Action W Bool
  count_limits limits db w =
      (returned (apply_rate_limits limits db).0, (apply_rate_limits limits db).1, w)

  -- `#applyRateLimits`.
  unfoldable pub limit_rate : ValidatedRelayEvent → Text → Action W (Unit {0})
  limit_rate v network_scope = do
    now ← ask gateway.read_clock
    exceeded ← count_limits (rate_limits v network_scope now)
    throw_if service exceeded rate_limited

  abbrev pub key_hash_of : Option Text → Option Text
  key_hash_of none = none
  key_hash_of (some key) = some (crypto.sha256_hex key)

  abbrev pub settle_acquired : W → Database → Acquired → Outcome Operation × Database × W
  settle_acquired w db (acquire_failed code) = (thrown (service_error code), db, w)
  settle_acquired w db (acquired created row new) = (returned row, new, w)

  abbrev pub perform_acquire : Acquisition → Action W Operation
  perform_acquire a db w = settle_acquired w db (acquire_operation configuration a db)

  -- `#acquireOperation`.
  unfoldable pub acquire :
      ValidatedRelayEvent → AnchorRequest → RelayFeeQuote → ℕ → Action W Operation
  acquire v anchor fee reservation = do
    id ← ask gateway.draw_id
    now ← ask gateway.read_clock
    perform_acquire (record {
      validated = v;
      anchor = anchor;
      fee = fee;
      reservation = reservation;
      key_hash = key_hash_of v.idempotency_key;
      status_id = id;
      now = now;
    })

  abbrev pub other_row : Operation → Option Operation → Bool
  other_row row none = false
  other_row row (some found) = not (found.id == row.id)

  abbrev pub assert_key : Operation → Option Text → Action W (Unit {0})
  assert_key row none = give tt
  assert_key row (some hash) = do
    keyed ← read (find_by_key_hash hash)
    throw_if service (other_row row keyed) idempotency_conflict

  -- `#assertExistingBinding`.
  unfoldable pub assert_existing_binding : Operation → ValidatedRelayEvent → Action W (Unit {0})
  assert_existing_binding row v = do
    same ←
        throw_if service (not (text_eq row.request_fingerprint v.request_fingerprint))
          idempotency_conflict
    assert_key row (key_hash_of v.idempotency_key)

  -- The end of `relay` for an event that the contract has not anchored.
  unfoldable pub relay_new :
      ValidatedRelayEvent → AnchorRequest → Text → RelayContractState → Action W Operation
  relay_new v anchor network_scope state = do
    allowed ← throw_some service (
        transition_error (stage v.event.core) v.event.core.previous_event_hash v.extension_key_hash
          state)
    fee ← chain_call (gateway.estimate_anchor anchor)
    affordable ←
        throw_if service (ltb configuration.daily_budget_wei (fee.gas_limit * fee.max_fee_per_gas))
          daily_budget_exceeded
    balance ← chain_call gateway.get_balance
    funded ←
        throw_if service
          (ltb balance (fee.gas_limit * fee.max_fee_per_gas + configuration.minimum_balance_wei))
          insufficient_relayer_funds
    limited ← limit_rate v network_scope
    row ← acquire v anchor fee (fee.gas_limit * fee.max_fee_per_gas)
    reconcile service row.id true

  -- The branch of `relay` for an event that the contract has anchored.
  unfoldable pub relay_anchored : ValidatedRelayEvent → Action W Operation
  relay_anchored v = do
    found ← read (find_by_event_hash v.event.event_hash)
    existing ← or_throw service event_already_anchored found
    bound ← assert_existing_binding existing v
    if is_some existing.transaction_hash
        then reconcile service existing.id false
        else close_as_anchored service existing

  unfoldable pub relay_unsent : ValidatedRelayEvent → AnchorRequest → Text → Action W Operation
  relay_unsent v anchor network_scope = do
    state ← precheck_runtime service v
    if state.is_event_anchored then relay_anchored v else relay_new v anchor network_scope state

  -- The retry of an event that has a row.
  abbrev pub relay_persisted :
      ValidatedRelayEvent → AnchorRequest → Text → Option Operation → Action W Operation
  relay_persisted v anchor network_scope none = relay_unsent v anchor network_scope
  relay_persisted v anchor network_scope (some row) = do
    bound ← assert_existing_binding row v
    if is_terminal row.state
        then give row
        else if is_some row.transaction_hash
        then (do
          limited ← limit_rate v network_scope
          state ← precheck_runtime service v
          reconcile service row.id (not state.is_event_anchored))
        else relay_unsent v anchor network_scope

  -- `relay`.
  unfoldable pub relay : Value → Text → Action W RelayOperationView
  unfolding parse_relay_event_request
  relay input network_scope = do
    request ← from_outcome service (parse_relay_event_request host input)
    v ← validate_request service request
    anchor ← build_anchor_request service v
    linked ←
        throw_if service
          (static_transition_is_wrong (stage v.event.core) v.event.core.previous_event_hash)
          incorrect_previous_event
    persisted ← read (find_by_event_hash v.event.event_hash)
    row ← relay_persisted v anchor network_scope persisted
    give (to_operation_view row)

  abbrev pub poll_row : Option Operation → Action W (Option RelayOperationView)
  poll_row none = give none
  poll_row (some row) =
      if is_terminal row.state || ltb configuration.max_confirmation_polls row.poll_count
      then give (some (to_operation_view row))
      else (reconcile service row.id false >>= λ reconciled.
          give (some (to_operation_view reconciled)))

  abbrev pub or_find : Text → Option Operation → Action W (Option Operation)
  or_find token (some row) = give (some row)
  or_find token none = read (find_by_token token)

  -- `getOperation`.
  unfoldable pub get_operation : Text → Action W (Option RelayOperationView)
  get_operation token = do
    known ← throw_if service (not (is_relay_opaque_id token)) operation_not_found
    counted ← perform (count_poll token)
    row ← or_find token counted
    poll_row row
