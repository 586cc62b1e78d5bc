-- ===== src/Relay/Sending.antt =====
-- apps/web/lib/relay/relay-service.ts: `#prepareNewTransaction`, `#recreatePrepared`, `#rebroadcast` and
-- `#broadcastPrepared`. The writes of the transaction that prepares are made together at its end, since
-- no call in between sees them.
use submittedit.Common.{ℕ, ◌+◌, not, Option, none, some, ltb, if◌then◌else◌}
use submittedit.Text.{Text, text_eq}
use submittedit.Relay.Types.{
  RelayErrorCode, rpc_unavailable, transaction_submission_failed, confirmation_timeout,
  PreparedRelayTransaction, Operation, SignerKey, other_error,
}
use submittedit.Relay.Database.{find_operation}
use submittedit.Relay.Statements.{
  record_rebroadcast, record_submitted, assigned_nonce, record_prepared, is_closed_to_preparation,
}
use submittedit.Relay.Steps.{signer_key}
use submittedit.Relay.Action.{
  Waited, arrived, rejected, Service, Action, ◌>>=◌, give, fail, or_fail, read, ask, perform,
  demand, catching, transaction,
}
use submittedit.Relay.Finalize.{
  fee_from_row, is_hash_of, max, next_poll, refresh, or_refresh, retry_later, request_from_row,
  finalize_receipt,
}

module _ {W : Type 0} (service : Service W) where
  open service use {configuration, gateway, is_address}

  -- The end of the wait for the receipt of a broadcast.
  abbrev pub settle_waited : Operation → Waited → Action W Operation
  settle_waited submitted_row (rejected is_timeout) =
      retry_later service submitted_row.id
        (if is_timeout then confirmation_timeout else rpc_unavailable)
  settle_waited submitted_row (arrived receipt) =
      if ltb receipt.confirmations configuration.confirmation_target
      then retry_later service submitted_row.id confirmation_timeout
      else finalize_receipt service submitted_row receipt

  abbrev pub after_broadcast :
      Operation → PreparedRelayTransaction → Option Text → Action W Operation
  after_broadcast row prepared none = retry_later service row.id transaction_submission_failed
  after_broadcast row prepared (some hash) =
      if not (text_eq hash prepared.hash)
      then retry_later service row.id transaction_submission_failed
      else (do
        now ← ask gateway.read_clock
        at ← next_poll service
        found ← perform (record_submitted row.id now at)
        submitted_row ← or_refresh service row.id found
        waited ← ask (
            gateway.wait_for_receipt prepared.hash configuration.confirmation_target
              configuration.confirmation_timeout_ms)
        settle_waited submitted_row waited)

  -- `#broadcastPrepared`.
  unfoldable pub broadcast_prepared : Operation → PreparedRelayTransaction → Action W Operation
  broadcast_prepared row prepared = do
    answer ← ask (gateway.broadcast_transaction prepared)
    after_broadcast row prepared answer

  -- `#recreatePrepared`.
  unfoldable pub recreate_prepared : Operation → Action W PreparedRelayTransaction
  recreate_prepared row = do
    nonce ← or_fail other_error row.transaction_nonce
    request ← request_from_row service row
    fee ← or_fail other_error (fee_from_row row)
    prepared ← demand (gateway.prepare_anchor request fee nonce)
    if is_hash_of row.transaction_hash prepared.hash then give prepared else fail other_error

  abbrev pub broadcast_again : ℕ → PreparedRelayTransaction → Option Operation → Action W Operation
  broadcast_again id prepared none = refresh service id
  broadcast_again id prepared (some row) = broadcast_prepared row prepared

  abbrev pub rebroadcast_recreated :
      Operation → Option PreparedRelayTransaction → Action W Operation
  rebroadcast_recreated row none = retry_later service row.id transaction_submission_failed
  rebroadcast_recreated row (some prepared) = do
    at ← next_poll service
    found ← perform (record_rebroadcast configuration row.id at)
    broadcast_again row.id prepared found

  -- `#rebroadcast`.
  unfoldable pub rebroadcast : Operation → Action W Operation
  rebroadcast row = do
    recreated ← catching (recreate_prepared row >>= λ prepared. give (some prepared)) (give none)
    rebroadcast_recreated row recreated

  -- What `#prepareNewTransaction` returns.
  abbrev pub Preparation : Type 0
  Preparation = Operation × Option PreparedRelayTransaction

  abbrev pub require_row : PreparedRelayTransaction → Option Operation → Action W Preparation
  require_row prepared none = fail other_error
  require_row prepared (some row) = give (row, some prepared)

  abbrev pub prepare_locked : Operation → SignerKey → ℕ → Option Operation → Action W Preparation
  prepare_locked row key pending none = give (row, none)
  prepare_locked row key pending (some locked) =
      if is_closed_to_preparation locked then give (locked, none) else (do
        nonce ← read (assigned_nonce key pending)
        request ← request_from_row service locked
        fee ← or_fail other_error (fee_from_row locked)
        prepared ← demand (gateway.prepare_anchor request fee nonce)
        now ← ask gateway.read_clock
        found ← perform (
            record_prepared locked.id key pending prepared
              (now + max 5000 configuration.confirmation_poll_interval_ms))
        require_row prepared found)

  unfoldable pub prepare_in_transaction : Operation → SignerKey → ℕ → Action W Preparation
  prepare_in_transaction row key pending = transaction do
    locked ← read (λ db. find_operation row.id db.operations)
    prepare_locked row key pending locked

  abbrev pub unprepared : ℕ → RelayErrorCode → Action W Preparation
  unprepared id code = do row ← retry_later service id code; give (row, none)

  -- Both calls are made at once: the first to reject is the error.
  abbrev pub prepare_with : Operation → Option ℕ → Option Text → Action W Preparation
  prepare_with row (some pending) (some signer) =
      catching (prepare_in_transaction row (signer_key configuration signer) pending)
        (unprepared row.id transaction_submission_failed)
  prepare_with row _ _ = unprepared row.id rpc_unavailable

  -- `#prepareNewTransaction`.
  unfoldable pub prepare_new_transaction : Operation → Action W Preparation
  prepare_new_transaction row = do
    pending ← ask gateway.get_pending_nonce
    signer ← ask gateway.get_relayer_address
    prepare_with row pending signer

  abbrev pub broadcast_new : Preparation → Action W Operation
  broadcast_new (row, none) = give row
  broadcast_new (row, some prepared) = broadcast_prepared row prepared
