-- ===== src/Relay/Keys.antt =====
-- apps/web/lib/relay/crypto.ts: the fingerprint of an extension's key, and the verification of its
-- signature. What node:crypto and Buffer do is a parameter.
use submittedit.Common.{
  ℕ, Bool, true, false, not, ◌&&◌, Option, none, some, List, ◌++◌, ◌==◌, if◌then◌else◌,
}
use submittedit.Common.Lists.{length}
use submittedit.Text.{Text, u, text_eq}
use submittedit.Result.{Result, err, ok, root, prop, ◌>>=◌}
use submittedit.Value.{Value, str, obj, field, end}
use submittedit.Host.{Host}
use submittedit.Types.{
  LifecycleEventEnvelope, PublicKeyDescriptor, SignatureEnvelope, Signer, extension, authority,
}
use submittedit.Types.Values.{envelope_value, public_key_value}
use submittedit.Schema.Envelope.{parse_event_envelope, parse_public_key_descriptor}
use submittedit.Hash.{extension_signature, create_domain_separated_preimage}
use submittedit.Canonical.Json.{canonicalize}
use submittedit.Protocol.{
  hash_extension_signature_payload, create_extension_signature_payload, extension_payload_value,
}
use submittedit.Relay.Types.{
  service_error, other_error, Outcome, thrown, returned, key_fingerprint_mismatch,
}

pub record NodeCrypto : Type 0 where
  -- `createHash("sha256").update(s, "utf8").digest("hex")`.
  pub sha256_hex : Text → Text
  -- `createHmac("sha256", key).update(s, "utf8").digest("hex")`.
  pub hmac_sha256_hex : Text → Text → Text
  -- The same digest of bytes, in hexadecimal.
  pub sha256_bytes_hex : List ℕ → Text
  -- `Buffer.from(s, "base64url")` and `toString("base64url")`.
  pub decode_base64url : Text → List ℕ
  pub encode_base64url : List ℕ → Text
  -- `createPublicKey` of DER bytes: `none` where it throws, and whether the key is of P-256.
  pub is_p256_key : List ℕ → Option Bool
  -- `verify("sha256", preimage, { key, dsaEncoding }, signature)`, `none` where it throws.
  pub verify_bytes : Text → List ℕ → List ℕ → Option Bool

-- Whether an optional answer is a yes: an exception is none.
abbrev pub holds : Option Bool → Bool
holds none = false
holds (some b) = b

abbrev result_option {ℓ} : {A : Type ℓ} → Result A → Option A
result_option (err e) = none
result_option (ok a) = some a

abbrev option_map : (Text → Text) → Option Text → Option Text
option_map f none = none
option_map f (some s) = some (f s)

abbrev is_extension : Signer → Bool
is_extension extension = true
is_extension authority = false

module _ (host : Host) (crypto : NodeCrypto) where
  -- `fingerprintRequest`; `none` where `canonicalize` throws.
  unfoldable pub fingerprint_request :
      Text → LifecycleEventEnvelope → PublicKeyDescriptor → Option Text
  unfolding canonicalize envelope_value public_key_value u
  fingerprint_request blob_id event key =
      option_map crypto.sha256_hex (result_option (canonicalize host request_value))
    where
      request_value : Value
      request_value = obj (
          field (u "blobId") (str blob_id) (
            field (u "event") (envelope_value event)
              (field (u "extensionPublicKey") (public_key_value key) end)))

  abbrev fingerprint_of : Text → Outcome Text
  fingerprint_of value =
      if not (text_eq (crypto.encode_base64url (crypto.decode_base64url value)) value)
      then thrown (service_error key_fingerprint_mismatch)
      else if not (holds (crypto.is_p256_key (crypto.decode_base64url value)))
      then thrown (service_error key_fingerprint_mismatch)
      else returned (u "0x" ++ crypto.sha256_bytes_hex (crypto.decode_base64url value))

  abbrev fingerprint_of_parsed : Result PublicKeyDescriptor → Outcome Text
  fingerprint_of_parsed (err e) = thrown other_error
  fingerprint_of_parsed (ok descriptor) = fingerprint_of descriptor.value

  -- The `bytes32` of `deriveExtensionKeyFingerprint`.
  unfoldable pub derive_extension_key_fingerprint : PublicKeyDescriptor → Outcome Text
  unfolding u public_key_value parse_public_key_descriptor
  derive_extension_key_fingerprint key =
      fingerprint_of_parsed
        (parse_public_key_descriptor host (public_key_value key) (prop root "extensionPublicKey"))

  abbrev signature_is_valid : SignatureEnvelope → PublicKeyDescriptor → Text → Text → Bool
  signature_is_valid signature descriptor payload_hash preimage =
      is_extension signature.signer
      && text_eq signature.key_id descriptor.key_id
      && text_eq signature.payload_hash payload_hash
      && length bytes == 64
      && text_eq (crypto.encode_base64url bytes) signature.signature
      && holds (crypto.is_p256_key (crypto.decode_base64url descriptor.value))
      && holds (crypto.verify_bytes preimage (crypto.decode_base64url descriptor.value) bytes)
    where
      bytes : List ℕ
      bytes = crypto.decode_base64url signature.signature

  unfoldable pub check_signature :
      LifecycleEventEnvelope → PublicKeyDescriptor → Option SignatureEnvelope → Result Bool
  check_signature event descriptor none = ok false
  check_signature event descriptor (some signature) = do
    payload_hash ← hash_extension_signature_payload host event
    payload ← create_extension_signature_payload host event
    preimage ←
        create_domain_separated_preimage host extension_signature (extension_payload_value payload)
    ok (signature_is_valid signature descriptor payload_hash preimage)

  -- `verifyExtensionSignature`; what its `try` catches is `false`.
  unfoldable pub verify_extension_signature : LifecycleEventEnvelope → PublicKeyDescriptor → Bool
  unfolding check_signature
  verify_extension_signature event_input key_input = holds (result_option verified)
    where
      verified : Result Bool
      verified = do
        event ← parse_event_envelope host (envelope_value event_input) (prop root "event")
        descriptor ←
            parse_public_key_descriptor host (public_key_value key_input)
              (prop root "extensionPublicKey")
        check_signature event descriptor event.extension_signature
