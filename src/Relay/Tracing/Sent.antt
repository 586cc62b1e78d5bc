-- ===== src/Relay/Tracing/Sent.antt =====
-- apps/web/lib/relay/relay-service.ts: the same of the methods that prepare and send a transaction, and of
-- `#reconcile`.
use submittedit.Common.{ℕ, ◌≡◌, refl, sym, subst, Bool, false, not, Option, none, some}
use submittedit.Text.{Text}
use submittedit.Contract.{AnchorRequest}
use submittedit.Relay.Types.{
  RelayErrorCode, PreparedRelayTransaction, RelayTransactionReceipt, Operation, SignerKey, Database,
}
use submittedit.Relay.Database.{is_terminal, find_operation}
use submittedit.Relay.Statements.{record_prepared, assigned_nonce, is_closed_to_preparation}
use submittedit.Relay.Steps.{
  rebroadcasts, submits, prepares, signer_key, prepare_operation, execute,
}
use submittedit.Relay.Action.{Service, PreparesNonce, Waited, arrived, rejected, Action, ◌>>=◌}
use submittedit.Relay.Finalize.{request_from_row}
use submittedit.Relay.Sending.{
  settle_waited, after_broadcast, broadcast_prepared, recreate_prepared, broadcast_again,
  rebroadcast_recreated, rebroadcast, Preparation, require_row, prepare_locked,
  prepare_in_transaction, unprepared, prepare_with, prepare_new_transaction, broadcast_new,
}
use submittedit.Relay.Reconcile.{
  reconcile_unmined, reconcile_receipt, is_early, reconcile_open, reconcile,
}
use submittedit.Common.{◌∙◌, ap, ltb, arith}
use submittedit.Text.{text_eq}
use submittedit.Text.Order.{text_eq_iff}
use submittedit.Relay.Evidence.{waited_for, read_back}
use submittedit.Relay.Traced.{
  answered-IsTraced, decided-IsTraced, IsTraced, give-IsTraced, fail-IsTraced, or_fail-IsTraced,
  if-IsTraced, bind-IsTraced, ask-IsTraced, perform-IsTraced, demand-IsTraced, catching-IsTraced,
  Commits, give-Commits, or_fail-Commits, demand-Commits, read-Commits, ask-Commits, if-Commits,
  transaction-IsTraced,
}
use submittedit.Relay.Tracing.{
  next_poll-IsTraced, refresh-IsTraced, or_refresh-IsTraced, retry_later-IsTraced, defer-IsTraced,
  give_up-IsTraced, finalize_receipt-IsTraced,
}
use submittedit.Relay.Database.{Updated, refused, no_row, updated, after}
use submittedit.Relay.Action.{continue, settle, perform, rolled_back, or_fail}
use submittedit.Relay.Types.{other_error}
use submittedit.Types.{EventStage}
use submittedit.Relay.Finalize.{normalize_stage}
use submittedit.Relay.Traced.{Reaches, stays, steps}
use submittedit.Relay.Steps.{prepared_as}
use submittedit.Relay.Tables.{find_operation-id}

module _ {W : Type 0} (service : Service W) (law : PreparesNonce service.gateway) where
  open service use {configuration, gateway}

  settle_waited-IsTraced :
      (row : Operation) (hash : Text) (waited : Waited) (w : W)
      → (gateway.wait_for_receipt hash configuration.confirmation_target
          configuration.confirmation_timeout_ms w).0
        ≡ waited
      → IsTraced service (settle_waited service row waited)
  settle_waited-IsTraced row hash (rejected is_timeout) w given =
      retry_later-IsTraced service row.id _
  settle_waited-IsTraced row hash (arrived receipt) w given =
      decided-IsTraced service (ltb receipt.confirmations configuration.confirmation_target)
        (λ early. retry_later-IsTraced service row.id _)
        λ deep.
          finalize_receipt-IsTraced service row receipt
            (record { answered = waited_for hash w given; deep_enough = ground arith })

  after_broadcast-IsTraced :
      (row : Operation) (prepared : PreparedRelayTransaction) (answer : Option Text) (w : W)
      → (gateway.broadcast_transaction prepared w).0 ≡ answer
      → IsTraced service (after_broadcast service row prepared answer)
  unfolding execute
  after_broadcast-IsTraced row prepared none w given = retry_later-IsTraced service row.id _
  after_broadcast-IsTraced row prepared (some hash) w given =
      decided-IsTraced service (not (text_eq hash prepared.hash))
        (λ other. retry_later-IsTraced service row.id _)
        λ own. ask-IsTraced service _ _ λ now.
          bind-IsTraced service _ _ (next_poll-IsTraced service) λ at.
            perform-IsTraced service (submits row.id now at) _ _ (λ db. refl)
              (prepared, w, given ∙ ap some ((text_eq_iff hash prepared.hash).0 (ground arith)))
              λ found.
                bind-IsTraced service _ _ (or_refresh-IsTraced service row.id found)
                  λ sent. answered-IsTraced service _ _ (settle_waited-IsTraced sent prepared.hash)

  broadcast_prepared-IsTraced :
      (row : Operation) (prepared : PreparedRelayTransaction)
      → IsTraced service (broadcast_prepared service row prepared)
  unfolding broadcast_prepared
  broadcast_prepared-IsTraced row prepared =
      answered-IsTraced service _ _ (after_broadcast-IsTraced row prepared)

  request_from_row-IsTraced : (row : Operation) → IsTraced service (request_from_row service row)
  unfolding request_from_row
  request_from_row-IsTraced row =
      bind-IsTraced service _ _ (or_fail-IsTraced service _ _) λ stage. or_fail-IsTraced service _ _

  recreate_prepared-IsTraced : (row : Operation) → IsTraced service (recreate_prepared service row)
  unfolding recreate_prepared
  recreate_prepared-IsTraced row = bind-IsTraced service _ _ (or_fail-IsTraced service _ _) λ nonce.
      bind-IsTraced service _ _ (request_from_row-IsTraced row) λ request.
        bind-IsTraced service _ _ (or_fail-IsTraced service _ _) λ fee.
          bind-IsTraced service _ _ (demand-IsTraced service _)
            λ prepared. if-IsTraced service _ (give-IsTraced service _) (fail-IsTraced service _)

  broadcast_again-IsTraced :
      (id : ℕ) (prepared : PreparedRelayTransaction) (found : Option Operation)
      → IsTraced service (broadcast_again service id prepared found)
  broadcast_again-IsTraced id prepared none = refresh-IsTraced service id
  broadcast_again-IsTraced id prepared (some row) = broadcast_prepared-IsTraced row prepared

  rebroadcast_recreated-IsTraced :
      (row : Operation) (prepared : Option PreparedRelayTransaction)
      → IsTraced service (rebroadcast_recreated service row prepared)
  unfolding execute
  rebroadcast_recreated-IsTraced row none = retry_later-IsTraced service row.id _
  rebroadcast_recreated-IsTraced row (some prepared) =
      bind-IsTraced service _ _ (next_poll-IsTraced service) λ at.
        perform-IsTraced service (rebroadcasts row.id at) _ _ (λ db. refl) tt
          (broadcast_again-IsTraced row.id prepared)

  rebroadcast-IsTraced : (row : Operation) → IsTraced service (rebroadcast service row)
  unfolding rebroadcast
  rebroadcast-IsTraced row =
      bind-IsTraced service _ _
        (catching-IsTraced service _ _
          (bind-IsTraced service _ _ (recreate_prepared-IsTraced row)
            λ prepared. give-IsTraced service _)
          (give-IsTraced service none))
        (rebroadcast_recreated-IsTraced row)

  require_reaches :
      (db : Database) (w : W) (prepared : PreparedRelayTransaction) (u : Updated)
      → Reaches service db (after db u)
      → Reaches service db
          (rolled_back db (continue (settle db w u) (require_row service prepared))).1
  require_reaches db w prepared refused h = stays service db
  require_reaches db w prepared no_row h = stays service db
  require_reaches db w prepared (updated row new) h = h

  perform-Commits :
      (db : Database) (id : ℕ) (signer : Text) (pending : ℕ) (prepared : PreparedRelayTransaction)
      (at : ℕ) (locked : Operation)
      → find_operation id db.operations ≡ some locked
      → is_closed_to_preparation locked ≡ false
      → prepared.nonce ≡ assigned_nonce (signer_key configuration signer) pending db
      → Commits service db (
          perform (record_prepared locked.id (signer_key configuration signer) pending prepared at)
          >>= require_row service prepared)
  unfolding ◌>>=◌ perform execute prepare_operation
  perform-Commits db id signer pending prepared at locked found opened nonce = record {
    commit = λ w.
        require_reaches db w prepared (record_prepared locked.id key pending prepared at db) (
          subst (λ u. Reaches service db (after db u)) executed
            (steps service
              (prepares id signer pending prepared.hash prepared.serialized_transaction at) tt db));
  }
    where
      key : SignerKey
      key = signer_key configuration signer

      executed :
          prepare_operation configuration id key pending
            (prepared_as configuration key pending prepared.hash prepared.serialized_transaction db)
            at
            db
          ≡ record_prepared locked.id key pending prepared at db
      executed = rw (found, opened, sym nonce, find_operation-id id db.operations locked found) refl

  request_made :
      {B : Type 0} (db : Database) (w : W) (made : Option AnchorRequest)
      (next : AnchorRequest → Action W B)
      → ((request : AnchorRequest) → Commits service db (next request))
      → Reaches service db (rolled_back db (continue (or_fail other_error made db w) next)).1
  request_made db w none next k = stays service db
  request_made db w (some request) next k = (k request).commit w

  request_staged :
      {B : Type 0} (db : Database) (stage : Option EventStage)
      (make : EventStage → Option AnchorRequest) (next : AnchorRequest → Action W B)
      → ((request : AnchorRequest) → Commits service db (next request))
      → Commits service db
          ((or_fail other_error stage >>= λ s. or_fail other_error (make s)) >>= next)
  unfolding ◌>>=◌
  request_staged db none make next k = record { commit = λ w. stays service db }
  request_staged db (some s) make next k = record {
    commit = λ w. request_made db w (make s) next k;
  }

  request-Commits :
      {B : Type 0} (db : Database) (row : Operation) (next : AnchorRequest → Action W B)
      → ((request : AnchorRequest) → Commits service db (next request))
      → Commits service db (request_from_row service row >>= next)
  unfolding request_from_row
  request-Commits db row next k = request_staged db (normalize_stage row.stage) _ next k

  prepare_locked-Commits :
      (db : Database) (row : Operation) (signer : Text) (pending : ℕ) (found : Option Operation)
      → find_operation row.id db.operations ≡ found
      → Commits service db
          (prepare_locked service row (signer_key configuration signer) pending found)
  prepare_locked-Commits db row signer pending none e = give-Commits service db _
  prepare_locked-Commits db row signer pending (some locked) e =
      if-Commits service db (is_closed_to_preparation locked) (λ closed. give-Commits service db _)
        λ opened. read-Commits service db _ _ (
          request-Commits db locked _ λ request. or_fail-Commits service db _ _ _ λ fee has_fee.
            demand-Commits service db _ _ λ prepared w made. ask-Commits service db _ _ λ now.
              perform-Commits db row.id signer pending prepared _ locked e opened
                (law.prepared_nonce request fee _ w prepared made))

  prepare_in_transaction-IsTraced :
      (row : Operation) (signer : Text) (pending : ℕ)
      → IsTraced service
          (prepare_in_transaction service row (signer_key configuration signer) pending)
  unfolding prepare_in_transaction
  prepare_in_transaction-IsTraced row signer pending =
      transaction-IsTraced service _
        λ db. read-Commits service db _ _ (prepare_locked-Commits db row signer pending _ refl)

  unprepared-IsTraced :
      (id : ℕ) (code : RelayErrorCode) → IsTraced service (unprepared service id code)
  unprepared-IsTraced id code =
      bind-IsTraced service _ _ (retry_later-IsTraced service id code)
        λ row. give-IsTraced service _

  prepare_with-IsTraced :
      (row : Operation) (pending : Option ℕ) (signer : Option Text)
      → IsTraced service (prepare_with service row pending signer)
  prepare_with-IsTraced row none signer = unprepared-IsTraced row.id _
  prepare_with-IsTraced row (some pending) none = unprepared-IsTraced row.id _
  prepare_with-IsTraced row (some pending) (some signer) =
      catching-IsTraced service _ _ (prepare_in_transaction-IsTraced row signer pending)
        (unprepared-IsTraced row.id _)

  prepare_new_transaction-IsTraced :
      (row : Operation) → IsTraced service (prepare_new_transaction service row)
  unfolding prepare_new_transaction
  prepare_new_transaction-IsTraced row =
      ask-IsTraced service _ _
        λ pending. ask-IsTraced service _ _ (prepare_with-IsTraced row pending)

  broadcast_new-IsTraced : (p : Preparation service) → IsTraced service (broadcast_new service p)
  broadcast_new-IsTraced (row, none) = give-IsTraced service row
  broadcast_new-IsTraced (row, some prepared) = broadcast_prepared-IsTraced row prepared

  reconcile_unmined-IsTraced :
      (row : Operation) (allow : Bool) → IsTraced service (reconcile_unmined service row allow)
  reconcile_unmined-IsTraced row allow = if-IsTraced service _ (rebroadcast-IsTraced row) (
      if-IsTraced service _ (retry_later-IsTraced service row.id _)
        (if-IsTraced service allow (give-IsTraced service row) (defer-IsTraced service row.id)))

  reconcile_receipt-IsTraced :
      (row : Operation) (allow : Bool) (hash : Text)
      (answer : Option (Option RelayTransactionReceipt)) (w : W)
      → (gateway.read_transaction_receipt hash w).0 ≡ answer
      → IsTraced service (reconcile_receipt service row allow answer)
  reconcile_receipt-IsTraced row allow hash none w given = retry_later-IsTraced service row.id _
  reconcile_receipt-IsTraced row allow hash (some none) w given =
      reconcile_unmined-IsTraced row allow
  reconcile_receipt-IsTraced row allow hash (some (some receipt)) w given =
      decided-IsTraced service (ltb receipt.confirmations configuration.confirmation_target)
        (λ early. defer-IsTraced service row.id)
        λ deep.
          finalize_receipt-IsTraced service row receipt
            (record { answered = read_back hash w given; deep_enough = ground arith })

  is_early-IsTraced : (at : Option ℕ) → IsTraced service (is_early service at)
  is_early-IsTraced none = give-IsTraced service false
  is_early-IsTraced (some at) = ask-IsTraced service _ _ λ now. give-IsTraced service _

  reconcile_open-IsTraced :
      (row : Operation) (allow : Bool) (hash : Option Text)
      → IsTraced service (reconcile_open service row allow hash)
  reconcile_open-IsTraced row allow none =
      if-IsTraced service (not allow) (give-IsTraced service row) (
        if-IsTraced service _ (give_up-IsTraced service row)
          (bind-IsTraced service _ _ (prepare_new_transaction-IsTraced row) broadcast_new-IsTraced))
  reconcile_open-IsTraced row allow (some hash) =
      bind-IsTraced service _ _ (is_early-IsTraced row.next_reconcile_at) λ early.
        if-IsTraced service early (give-IsTraced service row)
          (answered-IsTraced service _ _ (reconcile_receipt-IsTraced row allow hash))

  -- Whatever the chain answers, `#reconcile` changes the database by statements of the service.
  pub reconcile-IsTraced : (id : ℕ) (allow : Bool) → IsTraced service (reconcile service id allow)
  unfolding reconcile
  reconcile-IsTraced id allow = bind-IsTraced service _ _ (refresh-IsTraced service id) λ row.
      if-IsTraced service (is_terminal row.state) (give-IsTraced service row)
        (reconcile_open-IsTraced row allow row.transaction_hash)
