-- ===== src/Lifecycle/Linked.antt =====
-- packages/receipt-core/src/lifecycle.ts, `validateEventChain`, against a description of linked
-- chains over the events themselves.
use submittedit.Common.{ℕ, suc, ap, sym, subst, ◌∙◌, ◌≡◌, refl, ◌↔◌, List, [], ◌∷◌, arith}
use submittedit.Text.{contains}
use submittedit.Text.Order.{
  text_eq_iff, text_eq_refl, text_eq_of_ne, contains-eq-false, not_contains_of_All,
}
use submittedit.Result.{
  ok, ok-injective, >>=-returns, invert, JsonPath, root, prop, index, map_indexed, map_indexed_from,
  map_indexed_from-cons, map_indexed_from-ne-nil, map_indexed_from_step,
}
use submittedit.Value.{Value}
use submittedit.Host.{Host}
use submittedit.Types.{HashHex, zero_hash, attempted, LifecycleEventEnvelope, stage}
use submittedit.Types.Values.{core_value}
use submittedit.Schema.Envelope.{parse_event_envelope}
use submittedit.Protocol.{hash_event_core}
use submittedit.Lifecycle.Transitions.{is_valid_transition, assert_valid_transition}
use submittedit.Lifecycle.Chain.{
  ChainState, EventChainResult, initial, check_link, chain_event, chain_step, chain_from,
  validate_event_chain,
}
use submittedit.Lifecycle.Links.{
  HasHash, Follows, Continues, IsLinked, state_after, outcome_of, result_after, chain_result,
}

module _ (host : Host) where
  chain_event_sound :
      (i : ℕ) (prev e : LifecycleEventEnvelope) (seen : List HashHex) (path : JsonPath)
      (s : ChainState)
      → chain_event host (suc i) (state_after prev seen) e path ≡ ok s
      → Follows host prev seen e × (s ≡ state_after e (e.event_hash ∷ seen))
  unfolding chain_event check_link assert_valid_transition
  chain_event_sound i prev e seen path s h =
      let (r, hashed, rest) = >>=-returns (hash_event_core host (core_value e.core)) _ h in
      let hash_eq = text_eq_iff e.event_hash r in
      let zero_eq = text_eq_iff e.core.previous_event_hash zero_hash in
      let link_eq = text_eq_iff e.core.previous_event_hash prev.event_hash in
      let id_eq = text_eq_iff e.core.receipt_id prev.core.receipt_id in
      let version_eq = text_eq_iff e.core.schema_version prev.core.schema_version in
      (
        record {
          has_hash = ground arith;
          is_new = contains-eq-false seen e.event_hash (ground arith);
          links = ground arith;
          not_first = ground arith;
          same_receipt = ground arith;
          same_version = ground arith;
          may_follow = ground arith;
        },
        ground arith,
      )

  chain_event_complete :
      (i : ℕ) (prev e : LifecycleEventEnvelope) (seen : List HashHex) (path : JsonPath)
      → Follows host prev seen e
      → chain_event host (suc i) (state_after prev seen) e path
        ≡ ok (state_after e (e.event_hash ∷ seen))
  unfolding chain_event check_link assert_valid_transition
  chain_event_complete i prev e seen path f =
      let new = not_contains_of_All seen e.event_hash f.is_new in
      let hash_eq = text_eq_refl e.event_hash in
      let zero_ne = text_eq_of_ne e.core.previous_event_hash zero_hash f.not_first in
      let link_eq = text_eq_iff e.core.previous_event_hash prev.event_hash in
      let id_eq = text_eq_iff e.core.receipt_id prev.core.receipt_id in
      let version_eq = text_eq_iff e.core.schema_version prev.core.schema_version in
      let hashed = f.has_hash in ground arith

  chain_from_sound :
      (i : ℕ) (prev : LifecycleEventEnvelope) (seen : List HashHex) (items : List Value)
      (s : ChainState)
      → chain_from host (suc i) (state_after prev seen) items ≡ ok s
      → (es : List LifecycleEventEnvelope) × (map_indexed_from
            (parse_event_envelope host)
            (prop root "events")
            (suc i)
            items
          ≡ ok es)
        × Continues host prev seen es
        × (outcome_of s ≡ result_after prev es)
  unfolding chain_from chain_step map_indexed_from
  chain_from_sound i prev seen [] s h = ([], refl, tt, ground arith)
  chain_from_sound i prev seen (item ∷ items) s h =
      invert (chain_step host (suc i) (state_after prev seen) item) _ h λ next stepped rest.
        invert (parse_event_envelope host item (index (prop root "events") (suc i))) _ stepped
          λ e read event.
            let (f, after) = chain_event_sound i prev e seen _ next event in
            let (es, later, continues, ends) =
              chain_from_sound (suc i) e (e.event_hash ∷ seen) items s
                (subst (λ t. chain_from host (suc (suc i)) t items ≡ ok s) after rest) in
            (
              e ∷ es,
              map_indexed_from_step (parse_event_envelope host) _ _ item items e es read later,
              (f, continues),
              ends,
            )

  chain_from_complete :
      (i : ℕ) (prev : LifecycleEventEnvelope) (seen : List HashHex) (items : List Value)
      (es : List LifecycleEventEnvelope)
      → map_indexed_from (parse_event_envelope host) (prop root "events") (suc i) items ≡ ok es
      → Continues host prev seen es
      → (s : ChainState) × (chain_from host (suc i) (state_after prev seen) items ≡ ok s)
        × (outcome_of s ≡ result_after prev es)
  unfolding chain_from chain_step map_indexed_from
  chain_from_complete i prev seen [] [] h c = (state_after prev seen, refl, refl)
  chain_from_complete i prev seen [] (e ∷ es) h c = cc
  chain_from_complete i prev seen (item ∷ items) [] h c =
      absurd (map_indexed_from-ne-nil (parse_event_envelope host) _ _ item items h)
  chain_from_complete i prev seen (item ∷ items) (e ∷ es) h (f, c) =
      let (read, later) =
        map_indexed_from-cons (parse_event_envelope host) (prop root "events") (suc i) item items e
          es h in
      let (s, done, ends) = chain_from_complete (suc i) e (e.event_hash ∷ seen) items es later c in
      let stepped = chain_event_complete i prev e seen (index (prop root "events") (suc i)) f in
      (s, rw (read, stepped) done, ends)

  first_event_sound :
      (e : LifecycleEventEnvelope) (path : JsonPath) (s : ChainState)
      → chain_event host 0 initial e path ≡ ok s
      → HasHash host e
        × (e.core.previous_event_hash ≡ zero_hash)
        × (stage e.core ≡ attempted)
        × (s ≡ state_after e (e.event_hash ∷ []))
  unfolding chain_event check_link assert_valid_transition is_valid_transition contains
  first_event_sound e path s h =
      let (r, hashed, rest) = >>=-returns (hash_event_core host (core_value e.core)) _ h in
      let hash_eq = text_eq_iff e.event_hash r in
      let zero_eq = text_eq_iff e.core.previous_event_hash zero_hash in
      (ground arith, ground arith, ground arith, ground arith)

  first_event_complete :
      (e : LifecycleEventEnvelope) (path : JsonPath)
      → HasHash host e
      → e.core.previous_event_hash ≡ zero_hash
      → stage e.core ≡ attempted
      → chain_event host 0 initial e path ≡ ok (state_after e (e.event_hash ∷ []))
  unfolding chain_event check_link assert_valid_transition is_valid_transition contains
  first_event_complete e path h z a =
      let hash_eq = text_eq_refl e.event_hash in
      let zero_eq = text_eq_iff e.core.previous_event_hash zero_hash in ground arith

  -- The events are those of the input, as they are read one by one.
  abbrev pub ReadsAs : List Value → List LifecycleEventEnvelope → Type 0
  ReadsAs input events =
      map_indexed (parse_event_envelope host) (prop root "events") input ≡ ok events

  validate_event_chain_sound :
      (input : List Value) (r : EventChainResult)
      → validate_event_chain host input ≡ ok r
      → (events : List LifecycleEventEnvelope) × ReadsAs input events
        × IsLinked host events
        × (r ≡ chain_result events)
  unfolding validate_event_chain chain_from chain_step map_indexed
  validate_event_chain_sound [] r h = ([], refl, tt, ground arith)
  validate_event_chain_sound (item ∷ items) r h =
      invert (chain_from host 0 initial (item ∷ items)) _ h λ s ran made.
        invert (chain_step host 0 initial item) _ ran λ next stepped rest.
          invert (parse_event_envelope host item (index (prop root "events") 0)) _ stepped
            λ e read event.
              let (hashed, z, a, after) = first_event_sound e _ next event in
              let (es, later, continues, ends) =
                chain_from_sound 0 e (e.event_hash ∷ []) items s
                  (subst (λ t. chain_from host 1 t items ≡ ok s) after rest) in
              (
                e ∷ es,
                map_indexed_from_step (parse_event_envelope host) _ _ item items e es read later,
                (hashed, z, a, continues),
                sym (ok-injective made) ∙ ends,
              )

  pub validate_event_chain_complete :
      (input : List Value) (events : List LifecycleEventEnvelope)
      → ReadsAs input events
      → IsLinked host events
      → validate_event_chain host input ≡ ok (chain_result events)
  unfolding validate_event_chain chain_from chain_step map_indexed
  validate_event_chain_complete [] [] h l = refl
  validate_event_chain_complete [] (e ∷ es) h l = cc
  validate_event_chain_complete (item ∷ items) [] h l =
      absurd (map_indexed_from-ne-nil (parse_event_envelope host) _ _ item items h)
  validate_event_chain_complete (item ∷ items) (e ∷ es) h (hashed, z, a, c) =
      let path = index (prop root "events") 0 in
      let (read, later) =
        map_indexed_from-cons (parse_event_envelope host) (prop root "events") 0 item items e es
          h in
      let first = first_event_complete e path hashed z a in
      let (s, done, ends) = chain_from_complete 0 e (e.event_hash ∷ []) items es later c in
      rw (read, first, done) (ap ok ends)

  -- `validateEventChain` returns `r` exactly when the input reads as a list of events that is linked
  -- (each hash is the hash of its core and is new, the first event is an attempt with the zero hash,
  -- each later one names the hash before it, shares receipt and version, and makes an allowed
  -- transition), and `r` has the stage, hash and receipt of the last event.
  pub validate_event_chain_iff :
      (input : List Value) (r : EventChainResult)
      → (validate_event_chain host input ≡ ok r) ↔ (
          (events : List LifecycleEventEnvelope) × ReadsAs input events
          × IsLinked host events
          × (r ≡ chain_result events))
  validate_event_chain_iff input r = (
    validate_event_chain_sound input r,
    λ (events, reads, linked, e).
        validate_event_chain_complete input events reads linked ∙ ap ok (sym e),
  )
