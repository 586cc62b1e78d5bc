-- ===== src/Relay/Steps.antt =====
-- apps/web/lib/relay/relay-service.ts: a statement or transaction of the service as one step of the
-- database. The requests that the service handles at a time share the database, and their statements
-- come in any order.
use submittedit.Common.{ℕ, Option, none, some, List, [], ◌∷◌, if◌then◌else◌}
use submittedit.Text.{Text}
use submittedit.Relay.Types.{
  RelayErrorCode, RelayConfiguration, PreparedRelayTransaction, Operation, SignerKey, Scope,
  Database,
}
use submittedit.Relay.Database.{Updated, no_row, after, find_operation}
use submittedit.Relay.Statements.{
  mark_retryable, defer_reconciliation, record_rebroadcast, record_submitted, record_reverted,
  record_mismatch, record_confirmed, record_mined_cost, mark_final_without_transaction,
  mark_externally_anchored, assigned_nonce, record_prepared, is_closed_to_preparation,
}
use submittedit.Relay.Requests.{
  Acquisition, after_acquire, acquire_operation, apply_rate_limits, count_poll,
}

-- What a signer prepares is as the chain's client returns it for the nonce that it was given.
pub data Statement : Type 0 where
  marks_retryable : ℕ → RelayErrorCode → ℕ → Statement
  defers : ℕ → ℕ → Statement
  rebroadcasts : ℕ → ℕ → Statement
  submits : ℕ → ℕ → ℕ → Statement
  reverts : ℕ → ℕ → ℕ → Statement
  mismatches : ℕ → ℕ → ℕ → Statement
  confirms : ℕ → ℕ → ℕ → Statement
  charges : ℕ → ℕ → Statement
  gives_up : ℕ → Statement
  finds_anchored : ℕ → Statement
  prepares : ℕ → Text → ℕ → Text → Text → ℕ → Statement
  acquires : Acquisition → Statement
  counts : List (Scope × ℕ) → Statement
  polls : Text → Statement

module _ (config : RelayConfiguration) where
  unfoldable pub signer_key : Text → SignerKey
  signer_key signer = record {
    chain = config.chain_id;
    address = config.contract_address;
    signer = signer;
  }

  abbrev pub prepare_found :
      Option Operation → ℕ → SignerKey → ℕ → PreparedRelayTransaction → ℕ → Database → Updated
  prepare_found none id key pending prepared at db = no_row
  prepare_found (some row) id key pending prepared at db =
      if is_closed_to_preparation row then no_row else record_prepared id key pending prepared at db

  -- The transaction of `#prepareNewTransaction` with its test.
  unfoldable pub prepare_operation :
      ℕ → SignerKey → ℕ → PreparedRelayTransaction → ℕ → Database → Updated
  prepare_operation id key pending prepared at db =
      prepare_found (find_operation id db.operations) id key pending prepared at db

  abbrev pub prepared_as : SignerKey → ℕ → Text → Text → Database → PreparedRelayTransaction
  prepared_as key pending hash serialized db = record {
    hash = hash;
    nonce = assigned_nonce key pending db;
    serialized_transaction = serialized;
  }

  unfoldable pub execute : Statement → Database → Database
  unfolding signer_key prepare_operation
  execute (marks_retryable id code at) db = after db (mark_retryable id code at db)
  execute (defers id at) db = after db (defer_reconciliation id at db)
  execute (rebroadcasts id at) db = after db (record_rebroadcast config id at db)
  execute (submits id now at) db = after db (record_submitted id now at db)
  execute (reverts id block now) db = after db (record_reverted id block now db)
  execute (mismatches id block now) db = after db (record_mismatch id block now db)
  execute (confirms id block now) db = after db (record_confirmed id block now db)
  execute (charges id block) db = after db (record_mined_cost id block db)
  execute (gives_up id) db = after db (mark_final_without_transaction id db)
  execute (finds_anchored id) db = after db (mark_externally_anchored id db)
  execute (prepares id signer pending hash serialized at) db = after db (
      prepare_operation id (signer_key signer) pending
        (prepared_as (signer_key signer) pending hash serialized db) at db)
  execute (acquires a) db = after_acquire db (acquire_operation config a db)
  execute (counts limits) db = (apply_rate_limits limits db).1
  execute (polls token) db = after db (count_poll token db)

  -- The statements of any number of requests, as they come.
  unfoldable pub execute_all : List Statement → Database → Database
  unfolding execute
  execute_all [] db = db
  execute_all (s ∷ ss) db = execute_all ss (execute s db)
