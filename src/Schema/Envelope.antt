-- ===== src/Schema/Envelope.antt =====
-- packages/receipt-core/src/schema.ts, `parsePublicKeyDescriptor` to `parseEventEnvelope`: keys,
-- signatures, chain anchors and event envelopes.
use submittedit.Common.{Bool, true, false, not, ◌&&◌, Option, none, some, [], ◌∷◌}
use submittedit.Text.{u}
use submittedit.Result.{
  Result, ok, throw_if, ◌>>=◌, ◌>>◌, JsonPath, prop, signer_role_mismatch,
  authority_signature_stage_mismatch,
}
use submittedit.Value.{Value, get}
use submittedit.Value.Read.{as_record, assert_keys, parse_enum, parse_optional}
use submittedit.Host.{Host}
use submittedit.Types.{
  EventStage, authority_accepted, authority_rejected, PublicKeyDescriptor, Signer, extension,
  authority, SignatureEnvelope, ChainAnchorMetadata, LifecycleEventEnvelope, stage,
}
use submittedit.Normalize.{
  normalize_non_empty_text, normalize_hash, normalize_address, normalize_base64_url,
  normalize_decimal_string, normalize_positive_safe_integer,
}
use submittedit.Normalize.Timestamp.{normalize_timestamp}
use submittedit.Schema.Tables.{signers, only}
use submittedit.Schema.Core.{parse_event_core}

module _ (host : Host) where
  unfoldable pub parse_public_key_descriptor : Value → JsonPath → Result PublicKeyDescriptor
  parse_public_key_descriptor input path = do
    value ← as_record input path
    assert_keys value (u "algorithm" ∷ u "encoding" ∷ u "keyId" ∷ u "value" ∷ []) [] path
    parse_enum (get (u "algorithm") value) (only "ECDSA_P256_SHA256") (prop path "algorithm")
    parse_enum (get (u "encoding") value) (only "SPKI_BASE64URL") (prop path "encoding")
    key_id ← normalize_non_empty_text host (get (u "keyId") value) (prop path "keyId")
    key ← normalize_base64_url (get (u "value") value) (prop path "value")
    ok (record { key_id = key_id; value = key })

  unfoldable pub parse_signature_envelope : Value → JsonPath → Result SignatureEnvelope
  parse_signature_envelope input path = do
    value ← as_record input path
    assert_keys value
        (u "algorithm"
          ∷ u "encoding"
          ∷ u "keyId"
          ∷ u "payloadHash"
          ∷ u "signature"
          ∷ u "signer"
          ∷ [])
        [] path
    parse_enum (get (u "algorithm") value) (only "ECDSA_P256_SHA256") (prop path "algorithm")
    parse_enum (get (u "encoding") value) (only "P1363_BASE64URL") (prop path "encoding")
    key_id ← normalize_non_empty_text host (get (u "keyId") value) (prop path "keyId")
    payload_hash ← normalize_hash (get (u "payloadHash") value) (prop path "payloadHash")
    signature ← normalize_base64_url (get (u "signature") value) (prop path "signature")
    signer ← parse_enum (get (u "signer") value) signers (prop path "signer")
    ok (record {
      key_id = key_id;
      payload_hash = payload_hash;
      signature = signature;
      signer = signer;
    })

unfoldable pub parse_chain_anchor_metadata : Value → JsonPath → Result ChainAnchorMetadata
parse_chain_anchor_metadata input path = do
  value ← as_record input path
  assert_keys value
      (u "anchoredAt"
        ∷ u "blockNumber"
        ∷ u "chainId"
        ∷ u "contractAddress"
        ∷ u "transactionHash"
        ∷ [])
      [] path
  anchored_at ← normalize_timestamp (get (u "anchoredAt") value) (prop path "anchoredAt")
  block_number ← normalize_decimal_string (get (u "blockNumber") value) (prop path "blockNumber")
  chain_id ← normalize_positive_safe_integer (get (u "chainId") value) (prop path "chainId")
  address ← normalize_address (get (u "contractAddress") value) (prop path "contractAddress")
  transaction ← normalize_hash (get (u "transactionHash") value) (prop path "transactionHash")
  ok (record {
    anchored_at = anchored_at;
    block_number = block_number;
    chain_id = chain_id;
    contract_address = address;
    transaction_hash = transaction;
  })

-- A signature that is there and has another role.
abbrev pub has_wrong_role : Signer → Option SignatureEnvelope → Bool
has_wrong_role role none = false
has_wrong_role extension (some s) = elim s.signer [ extension ↦ false | authority ↦ true ]
has_wrong_role authority (some s) = elim s.signer [ extension ↦ true | authority ↦ false ]

abbrev pub is_present {ℓ} : {A : Type ℓ} → Option A → Bool
is_present none = false
is_present (some a) = true

-- `stage.startsWith("AUTHORITY_")`.
abbrev pub is_authority_stage : EventStage → Bool
is_authority_stage authority_accepted = true
is_authority_stage authority_rejected = true
is_authority_stage _ = false

module _ (host : Host) where
  unfoldable pub parse_event_envelope : Value → JsonPath → Result LifecycleEventEnvelope
  parse_event_envelope input path = do
    value ← as_record input path
    assert_keys value (u "core" ∷ u "eventHash" ∷ [])
        (u "authoritySignature" ∷ u "chainAnchor" ∷ u "extensionSignature" ∷ []) path
    core ← parse_event_core host (get (u "core") value) (prop path "core")
    extension_signature ←
        parse_optional (u "extensionSignature") value
          λ v. parse_signature_envelope host v (prop path "extensionSignature")
    authority_signature ←
        parse_optional (u "authoritySignature") value
          λ v. parse_signature_envelope host v (prop path "authoritySignature")
    throw_if (has_wrong_role extension extension_signature) signer_role_mismatch
        (prop (prop path "extensionSignature") "signer")
    throw_if (has_wrong_role authority authority_signature) signer_role_mismatch
        (prop (prop path "authoritySignature") "signer")
    throw_if (is_present authority_signature && not (is_authority_stage (stage core)))
        authority_signature_stage_mismatch path
    chain_anchor ←
        parse_optional (u "chainAnchor") value
          λ v. parse_chain_anchor_metadata v (prop path "chainAnchor")
    event_hash ← normalize_hash (get (u "eventHash") value) (prop path "eventHash")
    ok (record {
      authority_signature = authority_signature;
      chain_anchor = chain_anchor;
      core = core;
      event_hash = event_hash;
      extension_signature = extension_signature;
    })
