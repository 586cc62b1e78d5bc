-- ===== src/Tests/RelayExamples.antt =====
-- The theorems about the relay and the anchor requests, at the relay of the tests.
use submittedit.Common.{◌≡◌, ◌↔◌, refl, true, false, some, [], ◌∷◌, arith}
use submittedit.Text.{u, text_eq, to_lower}
use submittedit.Types.{attempted, at, zero_hash}
use submittedit.Contract.{
  create_anchor_request_for_target, request_of, projection_is_valid, is_bytes32,
  is_schema_version_1, from_contract_receipt_stage, to_contract_receipt_stage,
}
use submittedit.Protocol.{ChainAnchorPayload}
use submittedit.Contract.Requests.{
  IsAnchorOf, from_contract_receipt_stage_iff, create_anchor_request_for_target-IsAnchorOf,
}
use submittedit.Relay.Types.{failed_final, rate_limited, thrown, service_error, Operation, Database}
use submittedit.Relay.Database.{
  is_terminal, find_operation, find_budget, ensure_budget, update_budget, find_nonce,
}
use submittedit.Relay.Action.{◌>>=◌, ask}
use submittedit.Relay.Service.{relay, limit_rate, rate_limits}
use submittedit.Relay.Requests.{
  first_operation, find_by_event_hash, find_by_key_hash, find_by_stage, find_blob, day_of,
  request_count_of, window_start, apply_rate_limits, counted, count_request, acquired,
  after_acquire, acquired_row, acquired_budget, reserve_budget, insert_with, reserve_and_insert,
  acquire_unknown, acquire_operation, key_conflicts,
}
use submittedit.Relay.Limits.{IsLimited, limit_rate_counts}
use submittedit.Relay.Checks.{is_relay_opaque_id}
use submittedit.Relay.Parsing.{
  has_exact_keys, can_be_relayed, check_event_hash, check_event, parse_relay_event_request,
}
use submittedit.Relay.Parsed.{IsRelayable, parse_relay_event_request-IsJudged}
use submittedit.Tests.Running.{running}
use submittedit.Tests.Platform.{sample_host}
use submittedit.Relay.Retried.{acquire_operation_again}
use submittedit.Relay.Steps.{execute_all, signer_key}
use submittedit.Relay.Ledger.{reserved_at, spent_at}
use submittedit.Relay.Tables.{total}
use submittedit.Relay.Solvent.{IsSolvent, execute_all-IsSolvent}
use submittedit.Relay.Frozen.{SameTransaction, SameResult}
use submittedit.Relay.History.{
  HasPath, execute_all-HasPath, execute_all-SameTransaction, execute_all-SameResult,
}
use submittedit.Relay.Nonces.{AreOrdered, nonces_of}
use submittedit.Relay.Assigned.{execute_all-AreOrdered}
use submittedit.Relay.Tracing.Requests.{relay-IsSolvent}
use submittedit.Tests.Relaying.{
  address, key_hash, config, service, gateway-PreparesNonce, request, request_fields, request_value,
  sent_row, blob, acquisition, retried_acquisition, empty_database, busy_database, database,
  statements,
}
use submittedit.Tests.Samples.{attempt_event, receipt_id}

empty_database-IsSolvent : IsSolvent config empty_database
unfolding reserved_at spent_at total find_budget
empty_database-IsSolvent = record {
  reserves = λ key. refl;
  spends = λ key. refl;
  within = λ key. omega arith;
}

-- An operation is acquired, prepared, sent, charged and confirmed.
execute_all-IsSolvent_example : IsSolvent config (execute_all config statements empty_database)
execute_all-IsSolvent_example =
    execute_all-IsSolvent config statements empty_database empty_database-IsSolvent

relay-IsSolvent_example :
    IsSolvent config (relay service request_value (u "203.0.113.7") empty_database 86400000).1
relay-IsSolvent_example =
    relay-IsSolvent service gateway-PreparesNonce request_value (u "203.0.113.7") empty_database
      86400000 empty_database-IsSolvent

-- The row that the sample acquisition inserts, and the database with it.
first_row : Operation
unfolding acquired_row day_of
first_row = acquired_row config acquisition blob 1

first_database : Database
unfolding acquire_operation acquire_unknown reserve_and_insert insert_with find_by_event_hash
    find_by_stage first_operation key_conflicts find_by_key_hash acquired_budget find_budget
    ensure_budget update_budget reserve_budget day_of text_eq u find_blob acquired_row
first_database = after_acquire empty_database (acquire_operation config acquisition empty_database)

first_acquired :
    acquire_operation config acquisition empty_database ≡ acquired true first_row first_database
unfolding first_row first_database acquire_operation acquire_unknown reserve_and_insert insert_with
    find_by_event_hash find_by_stage first_operation key_conflicts find_by_key_hash acquired_budget
    find_budget ensure_budget update_budget reserve_budget day_of text_eq u find_blob acquired_row
first_acquired = refl

acquire_operation_again_example :
    acquire_operation config retried_acquisition first_database
    ≡ acquired false first_row first_database
acquire_operation_again_example =
    acquire_operation_again config acquisition retried_acquisition empty_database first_database
      true first_row first_acquired
      (record { same_event = refl; same_fingerprint = refl; same_key = refl })

-- The sixth request of a network in a window is refused, and counted.
limit_rate_counts_example :
    IsLimited service acquisition.validated
      (u "203.0.113.7")
      86400000
      busy_database
      (thrown (service_error rate_limited))
      (limit_rate service acquisition.validated (u "203.0.113.7") busy_database 86400000).1
unfolding limit_rate rate_limits apply_rate_limits counted request_count_of count_request
    window_start ◌>>=◌ ask text_eq u
limit_rate_counts_example =
    limit_rate_counts service acquisition.validated (u "203.0.113.7") busy_database 86400000
      (omega arith)

sent_row_found : find_operation 1 database.operations ≡ some sent_row
unfolding find_operation
sent_row_found = refl

execute_all-HasPath_example : HasPath config 1 statements database sent_row
execute_all-HasPath_example =
    execute_all-HasPath config 1 statements database sent_row sent_row_found

execute_all-SameTransaction_example :
    (later : Operation) × (find_operation 1 (execute_all config statements database).operations
      ≡ some later)
    × (later.binding ≡ sent_row.binding)
    × SameTransaction sent_row later
execute_all-SameTransaction_example =
    execute_all-SameTransaction config 1 statements database sent_row sent_row_found refl

closed_row : Operation
closed_row = record sent_row { state = failed_final; charged_fee = 30; block_number = some 12 }

closed_database : Database
unfolding closed_row
closed_database = record database { operations = closed_row ∷ [] }

closed_row_found : find_operation 1 closed_database.operations ≡ some closed_row
unfolding closed_database closed_row find_operation
closed_row_found = refl

closed_row_over : is_terminal closed_row.state ≡ true
unfolding closed_row
closed_row_over = refl

execute_all-SameResult_example :
    (later : Operation) × (find_operation 1
        (execute_all config statements closed_database).operations
      ≡ some later)
    × (later.binding ≡ closed_row.binding)
    × SameResult closed_row later
execute_all-SameResult_example =
    execute_all-SameResult config 1 statements closed_database closed_row closed_row_found
      closed_row_over

database-AreOrdered : AreOrdered (signer_key config (u "0xaa")) database.operations database.nonces
unfolding nonces_of find_nonce signer_key text_eq u
database-AreOrdered = record { before = (omega arith, tt); distinct = (tt, tt) }

execute_all-AreOrdered_example :
    AreOrdered
      (signer_key config (u "0xaa"))
      (execute_all config statements database).operations
      (execute_all config statements database).nonces
unfolding text_eq u
execute_all-AreOrdered_example =
    execute_all-AreOrdered config (u "0xaa") statements database refl database-AreOrdered

from_contract_receipt_stage_iff_example :
    (from_contract_receipt_stage 1 ≡ some (at attempted))
    ↔ (1 ≡ to_contract_receipt_stage attempted)
from_contract_receipt_stage_iff_example = from_contract_receipt_stage_iff 1 attempted

projection : ChainAnchorPayload
projection = record {
  chain_id = 10143;
  contract_address = address;
  event_hash = attempt_event.event_hash;
  previous_event_hash = zero_hash;
  receipt_id = receipt_id;
  schema_version = u "1.0";
  stage = attempted;
}

create_anchor_request_for_target-IsAnchorOf_example :
    IsAnchorOf projection key_hash zero_hash 10143 address
      (request_of projection key_hash zero_hash)
unfolding projection create_anchor_request_for_target projection_is_valid is_bytes32
    is_schema_version_1 text_eq u zero_hash to_lower
create_anchor_request_for_target-IsAnchorOf_example =
    create_anchor_request_for_target-IsAnchorOf (λ s. true) projection key_hash zero_hash 10143
      address (request_of projection key_hash zero_hash) refl

parse_relay_event_request-IsJudged_example : IsRelayable sample_host request_fields request
unfolding running parse_relay_event_request check_event check_event_hash can_be_relayed
    is_relay_opaque_id has_exact_keys
parse_relay_event_request-IsJudged_example =
    parse_relay_event_request-IsJudged sample_host request_value
