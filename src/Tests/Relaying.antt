-- ===== src/Tests/Relaying.antt =====
-- A relay whose clock counts its readings and whose chain has anchored and mined each event since the
-- first one, with a signed request, databases and statements for the tests.
use submittedit.Common.{ℕ, suc, true, false, none, some, List, [], ◌∷◌, ◌++◌, ltb, if◌then◌else◌}
use submittedit.Text.{Text, u}
use submittedit.Types.{attempted, zero_hash, extension, LifecycleEventEnvelope}
use submittedit.Relay.Types.{
  submitted, ip, RelayConfiguration, RelayContractState, RelayTransactionReceipt, RelayEventRequest,
  Operation, Blob, Database,
}
use submittedit.Value.{Value, str, obj, Fields, field, end}
use submittedit.Types.Values.{envelope_value, public_key_value}
use submittedit.Relay.Action.{Service, Gateway, PreparesNonce, arrived}
use submittedit.Relay.Steps.{Statement, submits, charges, confirms, prepares, acquires, signer_key}
use submittedit.Relay.Requests.{Acquisition}
use submittedit.Tests.Platform.{sample_host}
use submittedit.Tests.Samples.{attempt_event, receipt_id}

abbrev pub address : Text
address = u "0xcccccccccccccccccccccccccccccccccccccccc"

abbrev pub key_hash : Text
key_hash = u "0x2222222222222222222222222222222222222222222222222222222222222222"

abbrev pub sent_hash : Text
sent_hash = u "0x3333333333333333333333333333333333333333333333333333333333333333"

abbrev pub config : RelayConfiguration
config = record {
  chain_id = 10143;
  confirmation_poll_interval_ms = 1000;
  confirmation_target = 1;
  confirmation_timeout_ms = 5000;
  contract_address = address;
  daily_budget_wei = 1000;
  max_attempts_per_event = 3;
  max_confirmation_polls = 10;
  minimum_balance_wei = 5;
  public_key_requests_per_window = 5;
  rate_limit_window_seconds = 60;
  receipt_requests_per_window = 5;
  request_ip_requests_per_window = 5;
}

abbrev pub anchored : RelayContractState
anchored = record {
  current_stage = 1;
  event_count = 1;
  extension_key_hash = key_hash;
  is_event_anchored = true;
  latest_event_hash = attempt_event.event_hash;
}

-- The contract before the event.
abbrev pub fresh : RelayContractState
fresh = record {
  current_stage = 0;
  event_count = 0;
  extension_key_hash = zero_hash;
  is_event_anchored = false;
  latest_event_hash = zero_hash;
}

abbrev pub mined : RelayTransactionReceipt
mined = record {
  block_number = 12;
  confirmations = 2;
  contract_event_found = true;
  is_reverted = false;
  transaction_hash = sent_hash;
}

abbrev pub gateway : Gateway ℕ
gateway = record {
  get_balance = λ w. (some 5000, w);
  get_chain_id = λ w. (some 10143, w);
  has_contract_code = λ w. (some true, w);
  get_relayer_address = λ w. (some (u "0xaa"), w);
  get_protocol_version = λ w. (some 1, w);
  get_pending_nonce = λ w. (some 7, w);
  get_receipt_state = λ receipt event w. (some (if ltb 86400000 w then anchored else fresh), w);
  estimate_anchor = λ request w.
      (some (record { gas_limit = 10; max_fee_per_gas = 3; max_priority_fee_per_gas = 1 }), w);
  prepare_anchor = λ request fee nonce w.
      (some (record { hash = sent_hash; nonce = nonce; serialized_transaction = u "0x02" }), w);
  broadcast_transaction = λ prepared w. (some prepared.hash, w);
  wait_for_receipt = λ hash confirmations timeout w. (arrived mined, w);
  read_transaction_receipt = λ hash w. (some (some mined), w);
  read_clock = λ w. (w, suc w);
  draw_id = λ w. (u "id", w);
}

pub gateway-PreparesNonce : PreparesNonce gateway
gateway-PreparesNonce = record { prepared_nonce = λ request fee nonce w prepared made. cc }

abbrev pub service : Service ℕ
service = record {
  configuration = config;
  gateway = gateway;
  host = sample_host;
  crypto = record {
    sha256_hex = λ s. s;
    hmac_sha256_hex = λ key s. s;
    sha256_bytes_hex =
        λ bytes. u "2222222222222222222222222222222222222222222222222222222222222222";
    decode_base64url = λ s. s;
    encode_base64url = λ bytes. bytes;
    is_p256_key = λ key. some true;
    verify_bytes = λ preimage key signature. some true;
  };
  abuse_hash_key = u "an abuse hash key";
  is_address = λ s. true;
}

abbrev pub signed_event : LifecycleEventEnvelope
signed_event = record attempt_event {
  extension_signature = some (record {
    key_id = u "key";
    payload_hash = u "0xb68d42d200000000000000000000000000000000000000000000000000000000";
    signature = u "AAAAAAAAAAAAAAAAAAAAAAAAAAAAAAAAAAAAAAAAAAAAAAAAAAAAAAAAAAAAAAAA";
    signer = extension;
  });
}

abbrev pub opaque_id : Text
opaque_id = u "AAAAAAAAAAAAAAAAAAAAAAAAAAAAAAAAAAAAAAAAAAA"

abbrev pub request : RelayEventRequest
request = record {
  blob_id = opaque_id;
  event = signed_event;
  extension_public_key = record { key_id = u "key"; value = u "AAAA" };
  idempotency_key = none;
}

-- What the request is read from.
abbrev pub request_fields : Fields
request_fields = field (u "blobId") (str opaque_id) (
    field (u "event") (envelope_value signed_event)
      (field (u "extensionPublicKey") (public_key_value request.extension_public_key) end))

abbrev pub request_value : Value
request_value = obj request_fields

abbrev pub acquisition : Acquisition
acquisition = record {
  validated = record {
    request = request;
    extension_key_hash = key_hash;
    request_fingerprint = u "fingerprint";
  };
  anchor = record {
    address = address;
    receipt_id = receipt_id;
    event_hash = attempt_event.event_hash;
    previous_event_hash = zero_hash;
    extension_key_hash = key_hash;
    authority_key_hash = zero_hash;
    stage = 1;
    chain_id = 10143;
    schema_version = u "1.0";
  };
  fee = record { gas_limit = 10; max_fee_per_gas = 3; max_priority_fee_per_gas = 1 };
  reservation = 30;
  key_hash = some (u "hash of a key");
  status_id = u "token";
  now = 86400000;
}

-- An operation that was broadcast.
abbrev pub sent_row : Operation
sent_row = record {
  binding = record {
    id = 1;
    public_status_id = u "token";
    encrypted_blob_id = 4;
    event_hash = attempt_event.event_hash;
    request_fingerprint = u "fingerprint";
    idempotency_key_hash = none;
    receipt_id = receipt_id;
    stage = attempted;
    contract_stage = 1;
    previous_event_hash = zero_hash;
    extension_key_hash = key_hash;
    extension_key_id = u "key";
    chain_id = 10143;
    contract_address = address;
    budget_date = 1;
    confirmation_target = 1;
    created_at = 86400000;
  };
  state = submitted;
  transaction_hash = some sent_hash;
  transaction_nonce = some 7;
  block_number = none;
  gas_limit = some 10;
  max_fee_per_gas = some 3;
  max_priority_fee_per_gas = some 1;
  reserved_fee = 0;
  charged_fee = 0;
  attempt_count = 1;
  poll_count = 0;
  last_error_code = none;
  next_reconcile_at = none;
  submitted_at = some 86400005;
  confirmed_at = none;
}

abbrev pub blob : Blob
blob = record {
  blob_row_id = 4;
  public_id = opaque_id;
  blob_receipt_id = receipt_id;
  blob_extension_key_id = u "key";
  is_active = true;
}

-- A later request for the same event, at another price.
abbrev pub retried_acquisition : Acquisition
retried_acquisition = record acquisition {
  fee = record { gas_limit = 10; max_fee_per_gas = 4; max_priority_fee_per_gas = 1 };
  reservation = 40;
  status_id = u "another token";
  now = 86407000;
}

abbrev pub empty_database : Database
empty_database = record {
  operations = [];
  budgets = [];
  nonces = [];
  counters = [];
  blobs = blob ∷ [];
  next_id = 1;
}

-- The network has had its five requests of the window.
abbrev pub busy_database : Database
busy_database = record empty_database {
  counters =
      record {
        scope = record {
          kind = ip;
          scope_hash = u "IP" ++ 0 ∷ u "203.0.113.7";
          window_started_at = 86400000;
        };
        request_count = 5;
      }
      ∷ [];
}

abbrev pub database : Database
database = record empty_database {
  operations = sent_row ∷ [];
  nonces = record { signer_key = signer_key config (u "0xaa"); next_nonce = 8 } ∷ [];
  next_id = 2;
}

abbrev pub statements : List Statement
statements =
    acquires acquisition
    ∷ prepares 1 (u "0xaa") 7 sent_hash (u "0x02") 86400100
    ∷ submits 1 86400101 86401101
    ∷ charges 1 12
    ∷ confirms 1 12 86400110
    ∷ []
