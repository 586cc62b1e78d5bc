-- ===== src/Relay/Tracing/Requests.antt =====
-- apps/web/lib/relay/relay-service.ts: `relay` and `getOperation` change the database by statements, so they
-- keep the budgets.
use submittedit.Common.{ℕ, refl, subst, Bool, true, false, Option, none, some, List}
use submittedit.Text.{Text}
use submittedit.Result.{Result, err, ok}
use submittedit.Contract.{AnchorRequest}
use submittedit.Relay.Types.{
  RelayErrorCode, RelayContractState, RelayFeeQuote, RelayEventRequest, ValidatedRelayEvent,
  Operation, Database, Scope, Outcome, thrown, returned,
}
use submittedit.Relay.Requests.{
  Acquired, acquire_failed, acquired, after_acquire, acquire_operation,
}
use submittedit.Relay.Steps.{counts, acquires, polls, execute}
use submittedit.Relay.Action.{Service, PreparesNonce, chain_call, read}
use submittedit.Value.{Value}
use submittedit.Relay.Checks.{
  throw_if, throw_some, from_outcome, from_result, validate_request, build_anchor_request,
  precheck_runtime,
}
use submittedit.Relay.Service.{
  limit_rate, count_limits, settle_acquired, acquire, assert_key, assert_existing_binding,
  relay_new, relay_anchored, relay_unsent, relay_persisted, relay, poll_row, or_find, get_operation,
}
use submittedit.Relay.Solvent.{IsSolvent, execute_all-IsSolvent}
use submittedit.Relay.Traced.{
  Reaches, stays, steps, IsTraced, give-IsTraced, fail-IsTraced, or_fail-IsTraced, if-IsTraced,
  bind-IsTraced, ask-IsTraced, read-IsTraced, perform-IsTraced,
}
use submittedit.Relay.Tracing.{close_as_anchored-IsTraced}
use submittedit.Relay.Tracing.Sent.{reconcile-IsTraced}

module _ {W : Type 0} (service : Service W) (law : PreparesNonce service.gateway) where
  open service use {configuration, gateway}

  throw_if-IsTraced :
      (b : Bool) (code : RelayErrorCode) → IsTraced service (throw_if service b code)
  throw_if-IsTraced true code = fail-IsTraced service _
  throw_if-IsTraced false code = give-IsTraced service tt

  throw_some-IsTraced : (code : Option RelayErrorCode) → IsTraced service (throw_some service code)
  throw_some-IsTraced none = give-IsTraced service tt
  throw_some-IsTraced (some code) = fail-IsTraced service _

  from_outcome-IsTraced : {A : Type 0} (o : Outcome A) → IsTraced service (from_outcome service o)
  from_outcome-IsTraced (thrown f) = fail-IsTraced service f
  from_outcome-IsTraced (returned a) = give-IsTraced service a

  from_result-IsTraced : {A : Type 0} (r : Result A) → IsTraced service (from_result service r)
  from_result-IsTraced (err e) = fail-IsTraced service _
  from_result-IsTraced (ok a) = give-IsTraced service a

  chain_call-IsTraced : {A : Type 0} (call : W → Option A × W) → IsTraced service (chain_call call)
  unfolding chain_call
  chain_call-IsTraced call = ask-IsTraced service call _ (or_fail-IsTraced service _)

  validate_request-IsTraced :
      (request : RelayEventRequest) → IsTraced service (validate_request service request)
  unfolding validate_request
  validate_request-IsTraced request = read-IsTraced service _ _ λ found.
      bind-IsTraced service _ _ (or_fail-IsTraced service _ found) λ blob.
        bind-IsTraced service _ _ (throw_if-IsTraced _ _) λ schema_ok.
          bind-IsTraced service _ _ (throw_if-IsTraced _ _) λ keys_ok.
            bind-IsTraced service _ _ (throw_if-IsTraced _ _) λ signature_ok.
              bind-IsTraced service _ _ (from_outcome-IsTraced _) λ key_hash.
                bind-IsTraced service _ _ (or_fail-IsTraced service _ _)
                  λ print. give-IsTraced service _

  build_anchor_request-IsTraced :
      (v : ValidatedRelayEvent) → IsTraced service (build_anchor_request service v)
  unfolding build_anchor_request
  build_anchor_request-IsTraced v =
      bind-IsTraced service _ _ (from_result-IsTraced _) λ projection. or_fail-IsTraced service _ _

  precheck_runtime-IsTraced :
      (v : ValidatedRelayEvent) → IsTraced service (precheck_runtime service v)
  unfolding precheck_runtime
  precheck_runtime-IsTraced v = bind-IsTraced service _ _ (chain_call-IsTraced _) λ chain_id.
      bind-IsTraced service _ _ (chain_call-IsTraced _) λ has_code.
        bind-IsTraced service _ _ (throw_if-IsTraced _ _) λ chain_ok.
          bind-IsTraced service _ _ (throw_if-IsTraced _ _) λ code_ok.
            bind-IsTraced service _ _ (chain_call-IsTraced _) λ version.
              bind-IsTraced service _ _ (chain_call-IsTraced _) λ state.
                bind-IsTraced service _ _ (throw_if-IsTraced _ _)
                  λ version_ok. give-IsTraced service state

  count_limits-IsTraced :
      (limits : List (Scope × ℕ)) → IsTraced service (count_limits service limits)
  unfolding execute
  count_limits-IsTraced limits = record { trace = λ db w. steps service (counts limits) tt db }

  limit_rate-IsTraced :
      (v : ValidatedRelayEvent) (scope : Text) → IsTraced service (limit_rate service v scope)
  unfolding limit_rate
  limit_rate-IsTraced v scope = ask-IsTraced service _ _ λ now.
      bind-IsTraced service _ _ (count_limits-IsTraced _) λ exceeded. throw_if-IsTraced exceeded _

  acquired_reaches :
      (w : W) (db : Database) (a : Acquired)
      → Reaches service db (after_acquire db a)
      → Reaches service db (settle_acquired service w db a).1
  acquired_reaches w db (acquire_failed code) h = h
  acquired_reaches w db (acquired created row new) h = h

  acquire-IsTraced :
      (v : ValidatedRelayEvent) (anchor : AnchorRequest) (fee : RelayFeeQuote) (reservation : ℕ)
      → IsTraced service (acquire service v anchor fee reservation)
  unfolding acquire execute
  acquire-IsTraced v anchor fee reservation = ask-IsTraced service _ _ λ id.
      ask-IsTraced service _ _ λ now. record {
        trace = λ db w.
            acquired_reaches w db (acquire_operation configuration _ db)
              (steps service (acquires _) tt db);
      }

  assert_key-IsTraced :
      (row : Operation) (hash : Option Text) → IsTraced service (assert_key service row hash)
  assert_key-IsTraced row none = give-IsTraced service tt
  assert_key-IsTraced row (some hash) = read-IsTraced service _ _ λ keyed. throw_if-IsTraced _ _

  assert_existing_binding-IsTraced :
      (row : Operation) (v : ValidatedRelayEvent)
      → IsTraced service (assert_existing_binding service row v)
  unfolding assert_existing_binding
  assert_existing_binding-IsTraced row v =
      bind-IsTraced service _ _ (throw_if-IsTraced _ _) λ same. assert_key-IsTraced row _

  relay_new-IsTraced :
      (v : ValidatedRelayEvent) (anchor : AnchorRequest) (scope : Text) (state : RelayContractState)
      → IsTraced service (relay_new service v anchor scope state)
  unfolding relay_new
  relay_new-IsTraced v anchor scope state =
      bind-IsTraced service _ _ (throw_some-IsTraced _) λ allowed.
        bind-IsTraced service _ _ (chain_call-IsTraced _) λ fee.
          bind-IsTraced service _ _ (throw_if-IsTraced _ _) λ affordable.
            bind-IsTraced service _ _ (chain_call-IsTraced _) λ balance.
              bind-IsTraced service _ _ (throw_if-IsTraced _ _) λ funded.
                bind-IsTraced service _ _ (limit_rate-IsTraced v scope) λ limited.
                  bind-IsTraced service _ _ (acquire-IsTraced v anchor fee _)
                    λ row. reconcile-IsTraced service law row.id true

  relay_anchored-IsTraced : (v : ValidatedRelayEvent) → IsTraced service (relay_anchored service v)
  unfolding relay_anchored
  relay_anchored-IsTraced v = read-IsTraced service _ _ λ found.
      bind-IsTraced service _ _ (or_fail-IsTraced service _ found) λ existing.
        bind-IsTraced service _ _ (assert_existing_binding-IsTraced existing v) λ bound.
          if-IsTraced service _ (reconcile-IsTraced service law existing.id false)
            (close_as_anchored-IsTraced service existing)

  relay_unsent-IsTraced :
      (v : ValidatedRelayEvent) (anchor : AnchorRequest) (scope : Text)
      → IsTraced service (relay_unsent service v anchor scope)
  unfolding relay_unsent
  relay_unsent-IsTraced v anchor scope =
      bind-IsTraced service _ _ (precheck_runtime-IsTraced v) λ state.
        if-IsTraced service _ (relay_anchored-IsTraced v) (relay_new-IsTraced v anchor scope state)

  relay_persisted-IsTraced :
      (v : ValidatedRelayEvent) (anchor : AnchorRequest) (scope : Text) (found : Option Operation)
      → IsTraced service (relay_persisted service v anchor scope found)
  relay_persisted-IsTraced v anchor scope none = relay_unsent-IsTraced v anchor scope
  relay_persisted-IsTraced v anchor scope (some row) =
      bind-IsTraced service _ _ (assert_existing_binding-IsTraced row v) λ bound.
        if-IsTraced service _ (give-IsTraced service row) (
          if-IsTraced service _
            (bind-IsTraced service _ _ (limit_rate-IsTraced v scope) λ limited.
              bind-IsTraced service _ _ (precheck_runtime-IsTraced v)
                λ state. reconcile-IsTraced service law row.id _)
            (relay_unsent-IsTraced v anchor scope))

  pub relay-IsTraced : (input : Value) (scope : Text) → IsTraced service (relay service input scope)
  unfolding relay
  relay-IsTraced input scope = bind-IsTraced service _ _ (from_outcome-IsTraced _) λ request.
      bind-IsTraced service _ _ (validate_request-IsTraced request) λ v.
        bind-IsTraced service _ _ (build_anchor_request-IsTraced v) λ anchor.
          bind-IsTraced service _ _ (throw_if-IsTraced _ _) λ linked.
            read-IsTraced service _ _ λ persisted.
              bind-IsTraced service _ _ (relay_persisted-IsTraced v anchor scope persisted)
                λ row. give-IsTraced service _

  poll_row-IsTraced : (row : Option Operation) → IsTraced service (poll_row service row)
  poll_row-IsTraced none = give-IsTraced service none
  poll_row-IsTraced (some row) = if-IsTraced service _ (give-IsTraced service _) (
      bind-IsTraced service _ _ (reconcile-IsTraced service law row.id false)
        λ reconciled. give-IsTraced service _)

  or_find-IsTraced :
      (token : Text) (row : Option Operation) → IsTraced service (or_find service token row)
  unfolding read
  or_find-IsTraced token none = record { trace = λ db w. stays service db }
  or_find-IsTraced token (some row) = give-IsTraced service _

  pub get_operation-IsTraced : (token : Text) → IsTraced service (get_operation service token)
  unfolding get_operation execute
  get_operation-IsTraced token = bind-IsTraced service _ _ (throw_if-IsTraced _ _) λ known.
      perform-IsTraced service (polls token) _ _ (λ db. refl) tt
        λ counted. bind-IsTraced service _ _ (or_find-IsTraced token counted) poll_row-IsTraced

  -- If the gateway prepares transactions with the nonce it is given, then `relay` keeps the daily budgets
  -- of a database that has them, whatever the chain answers and whether it returns or throws.
  pub relay-IsSolvent :
      (input : Value) (scope : Text) (db : Database) (w : W)
      → IsSolvent configuration db
      → IsSolvent configuration (relay service input scope db w).1
  relay-IsSolvent input scope db w before =
      let (ss, e, justified) = (relay-IsTraced input scope).trace db w in
      subst (IsSolvent configuration) e (execute_all-IsSolvent configuration ss db before)
