-- ===== src/Relay/Parsed.antt =====
-- apps/web/lib/relay/validation.ts: which requests `parseRelayEventRequest` returns.
use submittedit.Common.{
  ◌≤◌, ◌&&◌, not, sym, subst, arith, ◌≡◌, ◌⊎◌, refl, ap, ◌∙◌, inl, inr, Bool, true, false, Option,
  none, some, Bool-cases, if◌then◌else◌,
}
use submittedit.Text.{Text, u, text_eq}
use submittedit.Text.Order.{text_eq_iff}
use submittedit.Value.{
  Value, undefined, null, class_instance, opaque, non_integer, bool, num, str, arr, obj, Fields,
  get,
}
use submittedit.Result.{Result, err, ok, root, prop}
use submittedit.Host.{Host}
use submittedit.Types.{
  EventStage, attempted, site_confirmed, authority_accepted, authority_rejected, stage,
  SignatureEnvelope, LifecycleEventEnvelope, PublicKeyDescriptor,
}
use submittedit.Common.Lists.{all, length}
use submittedit.Normalize.{is_base64url_char}
use submittedit.Relay.Database.{is_some}
use submittedit.Relay.Tables.{some-injective}
use submittedit.Types.Values.{core_value}
use submittedit.Schema.Envelope.{parse_event_envelope, parse_public_key_descriptor}
use submittedit.Protocol.{hash_event_core}
use submittedit.Relay.Types.{
  invalid_schema, invalid_event_hash, RelayEventRequest, service_error, Outcome, thrown, returned,
}
use submittedit.Relay.Checks.{is_relay_opaque_id}
use submittedit.Relay.Parsing.{
  is_relay_stage, is_idempotency_key, blob_id_of, idempotency_key_of, can_be_relayed, reading,
  check_event_hash, check_event, parse_fields, parse_relay_event_request,
}

-- The key that a value gives: none where it is undefined, or its text of 16 to 128 characters.
abbrev pub IsAllowedKey : Value → Option Text → Type 0
IsAllowedKey v none = v ≡ undefined
IsAllowedKey v (some key) =
    (v ≡ str key) × ((is_idempotency_key key ≡ true) × ((16 ≤ length key) × (length key ≤ 128)))

-- What the relay may take for granted of a request that was read from this value.
pub record IsRelayable (host : Host) (input : Fields) (r : RelayEventRequest) : Type 0 where
  pub blob_given : get (u "blobId") input ≡ str r.blob_id
  pub opaque_blob : (length r.blob_id ≡ 43) × (all is_base64url_char r.blob_id ≡ true)
  pub key_allowed : IsAllowedKey (get (u "idempotencyKey") input) r.idempotency_key
  pub event_given :
      parse_event_envelope host (get (u "event") input) (prop root "event") ≡ ok r.event
  pub key_given :
      parse_public_key_descriptor host
        (get (u "extensionPublicKey") input)
        (prop root "extensionPublicKey")
      ≡ ok r.extension_public_key
  pub staged : (stage r.event.core ≡ attempted) ⊎ (stage r.event.core ≡ site_confirmed)
  pub signature : SignatureEnvelope
  pub signed : r.event.extension_signature ≡ some signature
  pub not_decided : r.event.authority_signature ≡ none
  pub not_anchored : r.event.chain_anchor ≡ none
  pub hashed : hash_event_core host (core_value r.event.core) ≡ ok r.event.event_hash

-- A request that was read from this object, or one of the two errors.
abbrev pub IsJudgedFrom : Host → Fields → Outcome RelayEventRequest → Type 0
IsJudgedFrom host input (returned r) = IsRelayable host input r
IsJudgedFrom host input (thrown f) =
    (f ≡ service_error invalid_schema) ⊎ (f ≡ service_error invalid_event_hash)

-- The same of any value: one that is not an object is refused.
abbrev pub IsJudged : Host → Value → Outcome RelayEventRequest → Type 0
IsJudged host (obj input) outcome = IsJudgedFrom host input outcome
IsJudged host _ outcome = outcome ≡ thrown (service_error invalid_schema)

-- What an event that can be relayed is and has.
record IsUnanchored (event : LifecycleEventEnvelope) : Type 0 where
  staged : (stage event.core ≡ attempted) ⊎ (stage event.core ≡ site_confirmed)
  signature : SignatureEnvelope
  signed : event.extension_signature ≡ some signature
  not_decided : event.authority_signature ≡ none
  not_anchored : event.chain_anchor ≡ none

relay_stages : (s : EventStage) → is_relay_stage s ≡ true → (s ≡ attempted) ⊎ (s ≡ site_confirmed)
relay_stages attempted h = inl refl
relay_stages site_confirmed h = inr refl
relay_stages authority_accepted h = cc
relay_stages authority_rejected h = cc

present {ℓ} : {A : Type ℓ} (o : Option A) → is_some o ≡ true → (a : A) × (o ≡ some a)
present none h = cc
present (some a) h = (a, refl)

missing {ℓ} : {A : Type ℓ} (o : Option A) → is_some o ≡ false → o ≡ none
missing none h = refl
missing (some a) h = cc

four_tests :
    (a b c d : Bool)
    → (a && b && not c && not d) ≡ true
    → (a ≡ true) × ((b ≡ true) × ((c ≡ false) × (d ≡ false)))
four_tests a b c d h = ground arith

can_be_relayed-IsUnanchored :
    (event : LifecycleEventEnvelope) → can_be_relayed event ≡ true → IsUnanchored event
unfolding can_be_relayed
can_be_relayed-IsUnanchored event h =
    let (in_stage, (has_signature, (undecided, unanchored))) =
      four_tests (is_relay_stage (stage event.core)) (is_some event.extension_signature)
        (is_some event.authority_signature) (is_some event.chain_anchor) h in
    let (signature, signed) = present event.extension_signature has_signature in
    record {
      staged = relay_stages (stage event.core) in_stage;
      signature = signature;
      signed = signed;
      not_decided = missing event.authority_signature undecided;
      not_anchored = missing event.chain_anchor unanchored;
    }

opaque_id_form :
    (s : Text) → is_relay_opaque_id s ≡ true → (length s ≡ 43) × (all is_base64url_char s ≡ true)
unfolding is_relay_opaque_id
opaque_id_form s h = (ground arith, ground arith)

idempotency_key-IsAllowedKey :
    (s : Text) → is_idempotency_key s ≡ true → IsAllowedKey (str s) (some s)
unfolding is_idempotency_key
idempotency_key-IsAllowedKey s h = (refl, (h, (ground arith, ground arith)))

-- The texts that a value is read as.
blob_given :
    (v : Value) (s : Text) → blob_id_of v ≡ some s → (v ≡ str s) × (is_relay_opaque_id s ≡ true)
blob_given undefined t h = cc
blob_given null t h = cc
blob_given class_instance t h = cc
blob_given opaque t h = cc
blob_given non_integer t h = cc
blob_given (bool b) t h = cc
blob_given (num n) t h = cc
blob_given (str s) t h = text_case (Bool-cases (is_relay_opaque_id s))
  where
    text_case :
        (is_relay_opaque_id s ≡ true) ⊎ (is_relay_opaque_id s ≡ false)
        → (str s ≡ str t) × (is_relay_opaque_id t ≡ true)
    text_case (inl e) =
        let same : s ≡ t = ground (arith, h, e) in
        (ap str same, ap is_relay_opaque_id (sym same) ∙ e)
    text_case (inr e) = ground (arith, h, e)
blob_given (arr vs) t h = cc
blob_given (obj fs) t h = cc

key_given : (v : Value) (key : Option Text) → idempotency_key_of v ≡ some key → IsAllowedKey v key
key_given undefined key h = subst (IsAllowedKey undefined) (some-injective h) refl
key_given null key h = cc
key_given class_instance key h = cc
key_given opaque key h = cc
key_given non_integer key h = cc
key_given (bool b) key h = cc
key_given (num n) key h = cc
key_given (str s) key h = text_case (Bool-cases (is_idempotency_key s))
  where
    text_case :
        (is_idempotency_key s ≡ true) ⊎ (is_idempotency_key s ≡ false) → IsAllowedKey (str s) key
    text_case (inl e) =
        let same : some s ≡ key = ground (arith, h, e) in
        subst (IsAllowedKey (str s)) same (idempotency_key-IsAllowedKey s e)
    text_case (inr e) = absurd (ground (arith, h, e))
key_given (arr vs) key h = cc
key_given (obj fs) key h = cc

module _ (host : Host) (input : Fields) where
  reading-IsJudged :
      {A : Type 0} (m : Result A) (next : A → Outcome RelayEventRequest)
      → ((a : A) → m ≡ ok a → IsJudgedFrom host input (next a))
      → IsJudgedFrom host input (reading m next)
  reading-IsJudged (err e) next judged = inl refl
  reading-IsJudged (ok a) next judged = judged a refl

  module _ (blob_id : Text) (key : Option Text) (event : LifecycleEventEnvelope)
      (descriptor : PublicKeyDescriptor) (given : get (u "blobId") input ≡ str blob_id)
      (opaque_blob : is_relay_opaque_id blob_id ≡ true)
      (key_allowed : IsAllowedKey (get (u "idempotencyKey") input) key)
      (event_read : parse_event_envelope host (get (u "event") input) (prop root "event")
        ≡ ok event)
      (key_read : parse_public_key_descriptor host
          (get (u "extensionPublicKey") input)
          (prop root "extensionPublicKey")
        ≡ ok descriptor) where
    check_event_hash-IsJudged :
        (hash : Text)
        → can_be_relayed event ≡ true
        → hash_event_core host (core_value event.core) ≡ ok hash
        → IsJudgedFrom host input (check_event_hash host blob_id key descriptor event hash)
    unfolding check_event_hash
    check_event_hash-IsJudged hash relayable hashed =
        let checked = can_be_relayed-IsUnanchored event relayable in
        elim (Bool-cases (text_eq hash event.event_hash)) [
          | inl e ↦ rw (e) (record {
            blob_given = given;
            opaque_blob = opaque_id_form blob_id opaque_blob;
            key_allowed = key_allowed;
            event_given = event_read;
            key_given = key_read;
            staged = checked.staged;
            signature = checked.signature;
            signed = checked.signed;
            not_decided = checked.not_decided;
            not_anchored = checked.not_anchored;
            hashed = hashed ∙ ap ok ((text_eq_iff hash event.event_hash).0 e);
          })
          | inr e ↦ rw (e) (inr refl)
        ]

    check_event-IsJudged : IsJudgedFrom host input (check_event host blob_id key event descriptor)
    unfolding check_event
    check_event-IsJudged = elim (Bool-cases (can_be_relayed event)) [
      | inl e ↦ rw (e) (
          reading-IsJudged (hash_event_core host (core_value event.core)) _
            λ hash hashed. check_event_hash-IsJudged hash e hashed)
      | inr e ↦ rw (e) (inl refl)
    ]

  parse_fields-IsJudged :
      (blob_id : Option Text) (key : Option (Option Text))
      → blob_id_of (get (u "blobId") input) ≡ blob_id
      → idempotency_key_of (get (u "idempotencyKey") input) ≡ key
      → IsJudgedFrom host input (parse_fields host blob_id key input)
  parse_fields-IsJudged none key b k = inl refl
  parse_fields-IsJudged (some blob_id) none b k = inl refl
  parse_fields-IsJudged (some blob_id) (some key) b k =
      let (given, opaque_blob) = blob_given (get (u "blobId") input) blob_id b in
      let allowed = key_given (get (u "idempotencyKey") input) key k in
      reading-IsJudged (parse_event_envelope host (get (u "event") input) (prop root "event")) _
        λ event read.
          reading-IsJudged
            (parse_public_key_descriptor host (get (u "extensionPublicKey") input)
              (prop root "extensionPublicKey"))
            _
            λ descriptor read_key.
              check_event-IsJudged blob_id key event descriptor given opaque_blob allowed read
                read_key

  if-IsJudged :
      (b : Bool) (outcome : Outcome RelayEventRequest)
      → IsJudgedFrom host input outcome
      → IsJudgedFrom host input (if b then outcome else thrown (service_error invalid_schema))
  if-IsJudged true outcome judged = judged
  if-IsJudged false outcome judged = inl refl

-- `parseRelayEventRequest` returns a request only if the input is an object whose blob identifier has
-- 43 characters of base64url and is the request's, whose key is not there or has 16 to 128 allowed
-- characters and is the request's, and whose event and public key read as the request's; the event carries an extension's
-- signature and neither an authority's nor an anchor, is an attempt or a site's confirmation, and has
-- the hash of its core. What it throws is INVALID_SCHEMA or INVALID_EVENT_HASH, whatever the input is.
pub parse_relay_event_request-IsJudged :
    (host : Host) (input : Value) → IsJudged host input (parse_relay_event_request host input)
unfolding parse_relay_event_request
parse_relay_event_request-IsJudged host undefined = refl
parse_relay_event_request-IsJudged host null = refl
parse_relay_event_request-IsJudged host class_instance = refl
parse_relay_event_request-IsJudged host opaque = refl
parse_relay_event_request-IsJudged host non_integer = refl
parse_relay_event_request-IsJudged host (bool b) = refl
parse_relay_event_request-IsJudged host (num n) = refl
parse_relay_event_request-IsJudged host (str s) = refl
parse_relay_event_request-IsJudged host (arr vs) = refl
parse_relay_event_request-IsJudged host (obj fs) =
    if-IsJudged host fs _ _ (parse_fields-IsJudged host fs _ _ refl refl)
