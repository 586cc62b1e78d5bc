-- ===== src/Relay/Reconcile.antt =====
-- apps/web/lib/relay/relay-service.ts: `#reconcile`.
use submittedit.Common.{ℕ, Bool, false, not, ◌&&◌, Option, none, some, ltb, leb, if◌then◌else◌}
use submittedit.Text.{Text}
use submittedit.Relay.Types.{
  rpc_unavailable, transaction_submission_failed, RelayTransactionReceipt, Operation,
}
use submittedit.Relay.Database.{is_terminal}
use submittedit.Relay.Action.{Service, Action, ◌>>=◌, give, ask}
use submittedit.Relay.Finalize.{
  is_retryable, refresh, retry_later, defer, give_up, finalize_receipt,
}
use submittedit.Relay.Sending.{rebroadcast, prepare_new_transaction, broadcast_new}

module _ {W : Type 0} (service : Service W) where
  open service use {configuration, gateway, is_address}

  -- The branches of `#reconcile` for a row whose transaction has no receipt.
  abbrev pub reconcile_unmined : Operation → Bool → Action W Operation
  reconcile_unmined row allow_broadcast =
      if allow_broadcast && ltb row.attempt_count configuration.max_attempts_per_event
      then rebroadcast service row
      else if leb configuration.max_attempts_per_event row.attempt_count
          && not (is_retryable row.state)
      then retry_later service row.id transaction_submission_failed
      else if allow_broadcast
      then give row
      else defer service row.id

  abbrev pub reconcile_receipt :
      Operation → Bool → Option (Option RelayTransactionReceipt) → Action W Operation
  reconcile_receipt row allow_broadcast none = retry_later service row.id rpc_unavailable
  reconcile_receipt row allow_broadcast (some none) = reconcile_unmined row allow_broadcast
  reconcile_receipt row allow_broadcast (some (some receipt)) =
      if ltb receipt.confirmations configuration.confirmation_target
      then defer service row.id
      else finalize_receipt service row receipt

  -- The test of `next_reconcile_at`, which reads the clock where the row has such a time.
  abbrev pub is_early : Option ℕ → Action W Bool
  is_early none = give false
  is_early (some at) = do now ← ask gateway.read_clock; give (ltb now at)

  abbrev pub reconcile_sent : Operation → Bool → Text → Action W Operation
  reconcile_sent row allow_broadcast hash = do
    early ← is_early row.next_reconcile_at
    if early then give row else (do
      receipt ← ask (gateway.read_transaction_receipt hash)
      reconcile_receipt row allow_broadcast receipt)

  abbrev pub reconcile_unsent : Operation → Bool → Action W Operation
  reconcile_unsent row allow_broadcast =
      if not allow_broadcast
      then give row
      else if leb configuration.max_attempts_per_event row.attempt_count
      then give_up service row
      else prepare_new_transaction service row >>= broadcast_new service

  abbrev pub reconcile_open : Operation → Bool → Option Text → Action W Operation
  reconcile_open row allow_broadcast none = reconcile_unsent row allow_broadcast
  reconcile_open row allow_broadcast (some hash) = reconcile_sent row allow_broadcast hash

  -- `#reconcile`.
  unfoldable pub reconcile : ℕ → Bool → Action W Operation
  reconcile id allow_broadcast = do
    row ← refresh service id
    if is_terminal row.state
        then give row
        else reconcile_open row allow_broadcast row.transaction_hash
