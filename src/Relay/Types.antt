-- ===== src/Relay/Types.antt =====
-- apps/web/lib/relay/types.ts, errors.ts and the tables of apps/web/db/migrations/0002_relay_foundation.sql
-- that the relay service reads and writes. Times are milliseconds since the epoch, a date is the number
-- of its day, an amount is a number of wei. The texts of errors, which are for people, are left out.
use submittedit.Common.{ℕ, Bool, Option, List}
use submittedit.Text.{Text}
use submittedit.Types.{EventStage, LifecycleEventEnvelope, PublicKeyDescriptor}

pub data OperationState : Type 0 where
  validating ready submitting submitted confirmed reverted failed_retryable failed_final :
      OperationState

pub data RelayErrorCode : Type 0 where
  invalid_content_type payload_too_large malformed_json invalid_schema invalid_encrypted_envelope
        encrypted_blob_conflict blob_not_found invalid_event_hash invalid_signature
        key_fingerprint_mismatch invalid_transition incorrect_previous_event event_already_anchored
        idempotency_conflict rate_limited daily_budget_exceeded relayer_unavailable
        insufficient_relayer_funds rpc_unavailable wrong_chain contract_mismatch
        transaction_submission_failed transaction_reverted confirmation_timeout operation_not_found
        relay_service_unavailable :
      RelayErrorCode

-- The place of a code in `RELAY_ERROR_CODES`.
abbrev pub error_index : RelayErrorCode → ℕ
error_index invalid_content_type = 0
error_index payload_too_large = 1
error_index malformed_json = 2
error_index invalid_schema = 3
error_index invalid_encrypted_envelope = 4
error_index encrypted_blob_conflict = 5
error_index blob_not_found = 6
error_index invalid_event_hash = 7
error_index invalid_signature = 8
error_index key_fingerprint_mismatch = 9
error_index invalid_transition = 10
error_index incorrect_previous_event = 11
error_index event_already_anchored = 12
error_index idempotency_conflict = 13
error_index rate_limited = 14
error_index daily_budget_exceeded = 15
error_index relayer_unavailable = 16
error_index insufficient_relayer_funds = 17
error_index rpc_unavailable = 18
error_index wrong_chain = 19
error_index contract_mismatch = 20
error_index transaction_submission_failed = 21
error_index transaction_reverted = 22
error_index confirmation_timeout = 23
error_index operation_not_found = 24
error_index relay_service_unavailable = 25

-- A `RelayServiceError` with its code, or another error: of the database, the chain or the program.
pub data Failure : Type 0 where
  service_error : RelayErrorCode → Failure
  other_error : Failure

pub data Outcome (A : Type 0) : Type 0 where
  thrown : Failure → Outcome A
  returned : A → Outcome A

pub record RelayConfiguration : Type 0 where
  pub chain_id : ℕ
  pub confirmation_poll_interval_ms : ℕ
  pub confirmation_target : ℕ
  pub confirmation_timeout_ms : ℕ
  pub contract_address : Text
  pub daily_budget_wei : ℕ
  pub max_attempts_per_event : ℕ
  pub max_confirmation_polls : ℕ
  pub minimum_balance_wei : ℕ
  pub public_key_requests_per_window : ℕ
  pub rate_limit_window_seconds : ℕ
  pub receipt_requests_per_window : ℕ
  pub request_ip_requests_per_window : ℕ

pub record RelayContractState : Type 0 where
  pub current_stage : ℕ
  pub event_count : ℕ
  pub extension_key_hash : Text
  pub is_event_anchored : Bool
  pub latest_event_hash : Text

pub record RelayFeeQuote : Type 0 where
  pub gas_limit : ℕ
  pub max_fee_per_gas : ℕ
  pub max_priority_fee_per_gas : ℕ

pub record PreparedRelayTransaction : Type 0 where
  pub hash : Text
  pub nonce : ℕ
  pub serialized_transaction : Text

-- What the service reads of a transaction receipt.
pub record RelayTransactionReceipt : Type 0 where
  pub block_number : ℕ
  pub confirmations : ℕ
  pub contract_event_found : Bool
  pub is_reverted : Bool
  pub transaction_hash : Text

pub record RelayEventRequest : Type 0 where
  pub blob_id : Text
  pub event : LifecycleEventEnvelope
  pub extension_public_key : PublicKeyDescriptor
  pub idempotency_key : Option Text

-- `eventHash` is the event's own.
pub record ValidatedRelayEvent : Type 0 where
  pub request : RelayEventRequest
  pub open request use *
  pub extension_key_hash : Text
  pub request_fingerprint : Text

-- The columns of `relay_operations` that are written once, when the row is inserted.
pub record Binding : Type 0 where
  pub id : ℕ
  pub public_status_id : Text
  pub encrypted_blob_id : ℕ
  pub event_hash : Text
  pub request_fingerprint : Text
  pub idempotency_key_hash : Option Text
  pub receipt_id : Text
  pub stage : EventStage
  pub contract_stage : ℕ
  pub previous_event_hash : Text
  pub extension_key_hash : Text
  pub extension_key_id : Text
  pub chain_id : ℕ
  pub contract_address : Text
  pub budget_date : ℕ
  pub confirmation_target : ℕ
  pub created_at : ℕ

-- A row of `relay_operations`, less `updated_at` and `state_version`, which its triggers write.
pub record Operation : Type 0 where
  pub binding : Binding
  pub open binding use *
  pub state : OperationState
  pub transaction_hash : Option Text
  pub transaction_nonce : Option ℕ
  pub block_number : Option ℕ
  pub gas_limit : Option ℕ
  pub max_fee_per_gas : Option ℕ
  pub max_priority_fee_per_gas : Option ℕ
  pub reserved_fee : ℕ
  pub charged_fee : ℕ
  pub attempt_count : ℕ
  pub poll_count : ℕ
  pub last_error_code : Option RelayErrorCode
  pub next_reconcile_at : Option ℕ
  pub submitted_at : Option ℕ
  pub confirmed_at : Option ℕ

-- The primary key of `relay_daily_budgets`.
pub record BudgetKey : Type 0 where
  pub day : ℕ
  pub chain : ℕ
  pub address : Text

pub record Budget : Type 0 where
  pub budget_key : BudgetKey
  pub reserved_wei : ℕ
  pub spent_wei : ℕ
  pub transaction_count : ℕ

-- The primary key of `relay_signer_nonces`.
pub record SignerKey : Type 0 where
  pub chain : ℕ
  pub address : Text
  pub signer : Text

pub record SignerNonce : Type 0 where
  pub signer_key : SignerKey
  pub next_nonce : ℕ

pub data ScopeKind : Type 0 where
  ip public_key receipt : ScopeKind

-- The primary key of `relay_rate_limit_counters`.
pub record Scope : Type 0 where
  pub kind : ScopeKind
  pub scope_hash : Text
  pub window_started_at : ℕ

pub record Counter : Type 0 where
  pub scope : Scope
  pub request_count : ℕ

-- What the service reads of `relay_encrypted_blobs`.
pub record Blob : Type 0 where
  pub blob_row_id : ℕ
  pub public_id : Text
  pub blob_receipt_id : Text
  pub blob_extension_key_id : Text
  pub is_active : Bool

pub record Database : Type 0 where
  pub operations : List Operation
  pub budgets : List Budget
  pub nonces : List SignerNonce
  pub counters : List Counter
  pub blobs : List Blob
  -- The next value of the identity column of `relay_operations`.
  pub next_id : ℕ
