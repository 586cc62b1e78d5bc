-- ===== src/Relay/Parsing.antt =====
-- apps/web/lib/relay/validation.ts: `parseRelayEventRequest`.
use submittedit.Common.{
  ℕ, Bool, true, false, not, ◌&&◌, ◌||◌, Option, none, some, List, [], ◌∷◌, ◌++◌, leb, ◌==◌,
  if◌then◌else◌,
}
use submittedit.Common.Lists.{all, length}
use submittedit.Text.{Text, u, text_eq, is_digit, is_lower, is_upper}
use submittedit.Value.{Value, undefined, str, obj, Fields, keys, has_own, get}
use submittedit.Value.Read.{has_unknown}
use submittedit.Result.{Result, err, ok, root, prop}
use submittedit.Host.{Host}
use submittedit.Types.{
  EventStage, attempted, site_confirmed, stage, LifecycleEventEnvelope, PublicKeyDescriptor,
}
use submittedit.Types.Values.{core_value}
use submittedit.Schema.Envelope.{parse_event_envelope, parse_public_key_descriptor}
use submittedit.Protocol.{hash_event_core}
use submittedit.Relay.Types.{
  invalid_schema, invalid_event_hash, RelayEventRequest, service_error, Outcome, thrown, returned,
}
use submittedit.Relay.Database.{is_some}
use submittedit.Relay.Checks.{is_relay_opaque_id}

-- `hasExactKeys`.
unfoldable pub has_exact_keys : Fields → List Text → List Text → Bool
unfolding has_own has_unknown
has_exact_keys value required optional =
    all (λ key. has_own key value) required && not (has_unknown (required ++ optional) (keys value))

-- A character of `/^[A-Za-z0-9._~-]{16,128}$/`.
abbrev is_key_char : ℕ → Bool
is_key_char c =
    is_digit c || is_lower c || is_upper c || c == b'.' || c == b'_' || c == b'~' || c == b'-'

unfoldable pub is_idempotency_key : Text → Bool
unfolding is_digit is_lower is_upper
is_idempotency_key key = leb 16 (length key) && leb (length key) 128 && all is_key_char key

-- The tests of the two texts; a key that is not there is `some none`.
abbrev pub blob_id_of : Value → Option Text
blob_id_of (str s) = if is_relay_opaque_id s then some s else none
blob_id_of _ = none

abbrev pub idempotency_key_of : Value → Option (Option Text)
idempotency_key_of undefined = some none
idempotency_key_of (str s) = if is_idempotency_key s then some (some s) else none
idempotency_key_of _ = none

-- `isRelayStage`.
abbrev pub is_relay_stage : EventStage → Bool
is_relay_stage attempted = true
is_relay_stage site_confirmed = true
is_relay_stage _ = false

-- The test of a signed event that is not anchored.
unfoldable pub can_be_relayed : LifecycleEventEnvelope → Bool
can_be_relayed event =
    is_relay_stage (stage event.core)
    && is_some event.extension_signature
    && not (is_some event.authority_signature)
    && not (is_some event.chain_anchor)

-- The `catch` of `parseRelayEventRequest`.
abbrev pub reading : {A B : Type 0} → Result A → (A → Outcome B) → Outcome B
reading (err e) next = thrown (service_error invalid_schema)
reading (ok a) next = next a

module _ (host : Host) where
  unfoldable pub check_event_hash :
      Text
      → Option Text
      → PublicKeyDescriptor
      → LifecycleEventEnvelope
      → Text
      → Outcome RelayEventRequest
  check_event_hash blob_id key descriptor event hash =
      if not (text_eq hash event.event_hash)
      then thrown (service_error invalid_event_hash)
      else returned (record {
        blob_id = blob_id;
        event = event;
        extension_public_key = descriptor;
        idempotency_key = key;
      })

  unfoldable pub check_event :
      Text → Option Text → LifecycleEventEnvelope → PublicKeyDescriptor → Outcome RelayEventRequest
  unfolding hash_event_core core_value check_event_hash can_be_relayed
  check_event blob_id key event descriptor =
      if not (can_be_relayed event)
      then thrown (service_error invalid_schema)
      else reading (hash_event_core host (core_value event.core))
          (check_event_hash blob_id key descriptor event)

  abbrev pub parse_fields : Option Text → Option (Option Text) → Fields → Outcome RelayEventRequest
  parse_fields (some blob_id) (some key) input =
      reading (parse_event_envelope host (get (u "event") input) (prop root "event")) λ event.
        reading
          (parse_public_key_descriptor host (get (u "extensionPublicKey") input)
            (prop root "extensionPublicKey"))
          λ descriptor. check_event blob_id key event descriptor
  parse_fields _ _ input = thrown (service_error invalid_schema)

  -- `parseRelayEventRequest`.
  unfoldable pub parse_relay_event_request : Value → Outcome RelayEventRequest
  unfolding has_exact_keys
  parse_relay_event_request (obj input) =
      if has_exact_keys input (u "blobId" ∷ u "event" ∷ u "extensionPublicKey" ∷ [])
        (u "idempotencyKey" ∷ [])
      then parse_fields (blob_id_of (get (u "blobId") input))
          (idempotency_key_of (get (u "idempotencyKey") input)) input
      else thrown (service_error invalid_schema)
  parse_relay_event_request _ = thrown (service_error invalid_schema)
