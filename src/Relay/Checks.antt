-- ===== src/Relay/Checks.antt =====
-- apps/web/lib/relay/relay-service.ts: `#validateRequest`, `#buildAnchorRequest`,
-- `#validateStaticTransition`, `#precheckRuntime` and `#validateTransition`.
use submittedit.Common.{Bool, true, false, not, ◌&&◌, ◌||◌, Option, none, some, ◌==◌, if◌then◌else◌}
use submittedit.Common.Lists.{all, length}
use submittedit.Text.{Text, text_eq}
use submittedit.Normalize.{is_base64url_char}
use submittedit.Types.{EventStage, attempted, site_confirmed, zero_hash, SignatureEnvelope}
use submittedit.Result.{Result, err, ok}
use submittedit.Value.{num, str}
use submittedit.Common.{pos}
use submittedit.Protocol.{create_chain_anchor_payload}
use submittedit.Contract.{AnchorRequest, create_anchor_request_for_target}
use submittedit.Relay.Types.{
  RelayErrorCode, invalid_schema, blob_not_found, invalid_signature, key_fingerprint_mismatch,
  invalid_transition, incorrect_previous_event, wrong_chain, contract_mismatch, RelayContractState,
  RelayEventRequest, ValidatedRelayEvent, service_error, other_error, Outcome, thrown, returned,
}
use submittedit.Relay.Keys.{
  fingerprint_request, derive_extension_key_fingerprint, verify_extension_signature,
}
use submittedit.Relay.Requests.{find_blob}
use submittedit.Relay.Action.{Service, Action, ◌>>=◌, give, fail, or_fail, read, chain_call}

-- `isRelayOpaqueId`.
unfoldable pub is_relay_opaque_id : Text → Bool
unfolding is_base64url_char
is_relay_opaque_id token = length token == 43 && all is_base64url_char token

abbrev pub signer_is : Text → Option SignatureEnvelope → Bool
signer_is key_id none = false
signer_is key_id (some s) = text_eq s.key_id key_id

-- The two tests of `#validateStaticTransition`.
unfoldable pub static_transition_is_wrong : EventStage → Text → Bool
static_transition_is_wrong attempted previous = not (text_eq previous zero_hash)
static_transition_is_wrong site_confirmed previous = text_eq previous zero_hash
static_transition_is_wrong _ previous = false

-- The code that `#validateTransition` throws.
unfoldable pub transition_error :
    EventStage → Text → Text → RelayContractState → Option RelayErrorCode
transition_error attempted previous key_hash state =
    if not (state.current_stage == 0)
      || not (state.event_count == 0)
      || not (text_eq state.latest_event_hash zero_hash)
    then some invalid_transition
    else none
transition_error _ previous key_hash state =
    if not (text_eq state.latest_event_hash previous)
    then some incorrect_previous_event
    else if not (state.current_stage == 1) || not (state.event_count == 1)
    then some invalid_transition
    else if not (text_eq state.extension_key_hash key_hash)
    then some key_fingerprint_mismatch
    else none

module _ {W : Type 0} (service : Service W) where
  open service use {configuration, gateway, host, crypto, is_address}

  abbrev pub throw : {A : Type 0} → RelayErrorCode → Action W A
  throw code = fail (service_error code)

  abbrev pub throw_if : Bool → RelayErrorCode → Action W (Unit {0})
  throw_if true code = throw code
  throw_if false code = give tt

  abbrev pub throw_some : Option RelayErrorCode → Action W (Unit {0})
  throw_some none = give tt
  throw_some (some code) = throw code

  abbrev pub or_throw : {A : Type 0} → RelayErrorCode → Option A → Action W A
  or_throw code = or_fail (service_error code)

  abbrev pub from_outcome : {A : Type 0} → Outcome A → Action W A
  from_outcome (thrown f) = fail f
  from_outcome (returned a) = give a

  -- `#validateRequest`.
  unfoldable pub validate_request : RelayEventRequest → Action W ValidatedRelayEvent
  validate_request request = do
    found ← read (λ db. find_blob request.blob_id db.blobs)
    blob ← or_throw blob_not_found found
    schema_ok ←
        throw_if (not (text_eq blob.blob_receipt_id request.event.core.receipt_id)) invalid_schema
    keys_ok ←
        throw_if
          (not (text_eq blob.blob_extension_key_id request.extension_public_key.key_id)
            || not
                (signer_is request.extension_public_key.key_id request.event.extension_signature))
          key_fingerprint_mismatch
    signature_ok ←
        throw_if
          (not (verify_extension_signature host crypto request.event request.extension_public_key))
          invalid_signature
    key_hash ←
        from_outcome (derive_extension_key_fingerprint host crypto request.extension_public_key)
    fingerprint ←
        or_fail other_error (
          fingerprint_request host crypto request.blob_id request.event
            request.extension_public_key)
    give (record {
      request = request;
      extension_key_hash = key_hash;
      request_fingerprint = fingerprint;
    })

  abbrev pub from_result : {A : Type 0} → Result A → Action W A
  from_result (err e) = fail other_error
  from_result (ok a) = give a

  -- `#buildAnchorRequest`.
  unfoldable pub build_anchor_request : ValidatedRelayEvent → Action W AnchorRequest
  build_anchor_request v = do
    projection ← from_result (
        create_chain_anchor_payload host v.event (num (pos configuration.chain_id))
          (str configuration.contract_address))
    or_fail other_error (
        create_anchor_request_for_target is_address projection v.extension_key_hash zero_hash
          configuration.chain_id configuration.contract_address)

  -- `#precheckRuntime`; calls that are made at once are made in order.
  unfoldable pub precheck_runtime : ValidatedRelayEvent → Action W RelayContractState
  precheck_runtime v = do
    chain_id ← chain_call gateway.get_chain_id
    has_code ← chain_call gateway.has_contract_code
    chain_ok ← throw_if (not (chain_id == configuration.chain_id)) wrong_chain
    code_ok ← throw_if (not has_code) contract_mismatch
    version ← chain_call gateway.get_protocol_version
    state ← chain_call (gateway.get_receipt_state v.event.core.receipt_id v.event.event_hash)
    version_ok ← throw_if (not (version == 1)) contract_mismatch
    give state
