-- ===== src/Stable/Hashes.antt =====
-- packages/receipt-core/src/protocol.ts, `hashEventCore` and `createEventEnvelope`: event hashes and
-- new envelopes, read again.
use submittedit.Common.{◌≡◌, refl, subst, arith, true, none, [], ◌∷◌, ◌++◌, map}
use submittedit.Common.Lists.{all, length}
use submittedit.Text.{Text, u, is_hex, to_lower}
use submittedit.Text.Order.{text_eq_refl}
use submittedit.Result.{
  ok, ok-injective, JsonPath, root, prop, invert, index, map_indexed, map_indexed_from,
}
use submittedit.Value.{Value, str}
use submittedit.Value.Read.{reading}
use submittedit.Host.{Host, IsLawful}
use submittedit.Types.{
  HashHex, zero_hash, attempted, LifecycleEventCore, LifecycleEventEnvelope, stage,
}
use submittedit.Types.Values.{core_value, envelope_value}
use submittedit.Normalize.{normalize_hash, is_prefixed_hex}
use submittedit.Schema.Core.{parse_event_core}
use submittedit.Schema.Envelope.{parse_event_envelope}
use submittedit.Hash
use submittedit.Canonical.Json.{utf8}
use submittedit.Hash.{hash_canonical, create_domain_separated_preimage}
use submittedit.Protocol.{hash_event_core, create_event_envelope, parse_hashed_event_envelope}
use submittedit.Lifecycle.Chain.{validate_event_chain}
use submittedit.Lifecycle.Linked.{validate_event_chain_complete}
use submittedit.Lifecycle.Links.{chain_result}
use submittedit.Stable.Events.{parse_event_core_stable}

normalize_prefixed_hash :
    (digits : Text) (q : JsonPath)
    → length digits ≡ 64
    → all is_hex digits ≡ true
    → map to_lower digits ≡ digits
    → normalize_hash (str (u "0x" ++ digits)) q ≡ ok (u "0x" ++ digits)
unfolding normalize_hash is_prefixed_hex u
normalize_prefixed_hash d q a b c = ground (arith, a, b, c)

module _ (host : Host) (lawful : IsLawful host) where
  normalize_hash-hash_canonical :
      (d : Hash.HashDomain) (v : Value) (h : HashHex) (q : JsonPath)
      → hash_canonical host d v ≡ ok h
      → normalize_hash (str h) q ≡ ok h
  unfolding hash_canonical
  normalize_hash-hash_canonical d v h q e =
      invert (create_domain_separated_preimage host d v) _ e λ text read made.
        let bytes = utf8 text in
        subst (λ t. normalize_hash (str t) q ≡ ok t) (ok-injective made)
          (normalize_prefixed_hash (host.keccak_256_hex bytes) q (lawful.digest_length bytes)
            (lawful.digest_hex bytes) (lawful.digest_lower bytes))

  normalize_hash-hash_event_core :
      (v : Value) (h : HashHex) (q : JsonPath)
      → hash_event_core host v ≡ ok h
      → normalize_hash (str h) q ≡ ok h
  unfolding hash_event_core
  normalize_hash-hash_event_core v h q e =
      invert (parse_event_core host v (prop root "core")) _ e
        λ c read e. normalize_hash-hash_canonical Hash.event (core_value c) h q e

  -- When `parseEventCore` reads `v` as the core `c`, hashing the core `c` gives the same result as
  -- hashing `v`.
  pub hash_event_core_stable :
      (v : Value) (c : LifecycleEventCore)
      → parse_event_core host v (prop root "core") ≡ ok c
      → hash_event_core host (core_value c) ≡ hash_event_core host v
  unfolding hash_event_core
  hash_event_core_stable v c h =
      rw (h, parse_event_core_stable host lawful v (prop root "core") c h (prop root "core")) refl

  reparse_envelope :
      (c : LifecycleEventCore) (h : HashHex) (q : JsonPath)
      → ((r : JsonPath) → parse_event_core host (core_value c) r ≡ ok c)
      → normalize_hash (str h) (prop q "eventHash") ≡ ok h
      → let e : LifecycleEventEnvelope = record {
        authority_signature = none;
        chain_anchor = none;
        core = c;
        event_hash = h;
        extension_signature = none;
      } in
        parse_event_envelope host (envelope_value e) q ≡ ok e
  unfolding parse_event_envelope envelope_value reading core_value
  reparse_envelope c h q a b = simp (a (prop q "core"), b)

  created_reads :
      (v : Value) (e : LifecycleEventEnvelope)
      → create_event_envelope host v ≡ ok e
      → ((q : JsonPath) → parse_event_envelope host (envelope_value e) q ≡ ok e)
        × (hash_event_core host (core_value e.core) ≡ ok e.event_hash)
  unfolding create_event_envelope
  created_reads v e h = invert (parse_event_core host v (prop root "core")) _ h λ c read h.
      invert (hash_event_core host (core_value c)) _ h λ t hashed made.
        subst
          (λ (x : LifecycleEventEnvelope).
            ((q : JsonPath) → parse_event_envelope host (envelope_value x) q ≡ ok x)
            × (hash_event_core host (core_value x.core) ≡ ok x.event_hash))
          (ok-injective made)
          (
            (λ q.
                reparse_envelope c t q
                  (parse_event_core_stable host lawful v (prop root "core") c read)
                  (normalize_hash-hash_event_core (core_value c) t (prop q "eventHash") hashed)),
            hashed,
          )

  -- Whatever envelope `createEventEnvelope` returns, `parseHashedEventEnvelope` accepts it and returns
  -- it unchanged.
  pub create_event_envelope_verifies :
      (v : Value) (e : LifecycleEventEnvelope)
      → create_event_envelope host v ≡ ok e
      → parse_hashed_event_envelope host e ≡ ok e
  unfolding parse_hashed_event_envelope
  create_event_envelope_verifies v e h =
      let (reads, hashed) = created_reads v e h in
      rw (reads (prop root "event"), hashed, text_eq_refl e.event_hash) refl

  -- If `createEventEnvelope` returns an envelope whose core is an attempt that links to the zero hash,
  -- then `validateEventChain` accepts the chain of that one envelope, and its result has the
  -- envelope's stage, hash and receipt.
  pub create_event_envelope_starts :
      (v : Value) (e : LifecycleEventEnvelope)
      → create_event_envelope host v ≡ ok e
      → e.core.previous_event_hash ≡ zero_hash
      → stage e.core ≡ attempted
      → validate_event_chain host (envelope_value e ∷ []) ≡ ok (chain_result (e ∷ []))
  unfolding map_indexed map_indexed_from
  create_event_envelope_starts v e h zero first =
      let (reads, hashed) = created_reads v e h in
      validate_event_chain_complete host (envelope_value e ∷ []) (e ∷ [])
        (rw (reads (index (prop root "events") 0)) refl) (hashed, zero, first, tt)
