-- ===== src/Lifecycle/Terminal.antt =====
-- packages/receipt-core/src/lifecycle.ts, `validateEventChain`: the length and the end of a chain.
use submittedit.Common.{ℕ, suc, ◌≤◌, ◌≡◌, ◌≢◌, subst, sym, ◌∙◌, ◌++◌, List, [], ◌∷◌, arith, true}
use submittedit.Common.Lists.{length}
use submittedit.Result.{ok, ok-injective, invert, JsonPath, root, prop, index, length-map_indexed}
use submittedit.Schema.Envelope.{parse_event_envelope}
use submittedit.Lifecycle.Receipts.{is_terminal}
use submittedit.Value.{Value}
use submittedit.Host.{Host}
use submittedit.Types.{
  HashHex, EventStage, attempted, site_confirmed, authority_accepted, authority_rejected, at,
  LifecycleEventEnvelope, stage,
}
use submittedit.Lifecycle.Transitions.{is_valid_transition, assert_valid_transition}
use submittedit.Lifecycle.Chain.{
  ChainState, EventChainResult, initial, chain_event, chain_step, chain_from, validate_event_chain,
}
use submittedit.Lifecycle.Linked.{validate_event_chain_iff}
use submittedit.Lifecycle.Links.{Continues, IsLinked}

-- How many events may still follow one of a stage.
room : EventStage → ℕ
room attempted = 2
room site_confirmed = 1
room authority_accepted = 0
room authority_rejected = 0

room-lt :
    (from to : EventStage) → is_valid_transition (at from) to ≡ true → suc (room to) ≤ room from
unfolding room is_valid_transition
room-lt attempted to h = ground arith
room-lt site_confirmed to h = ground arith
room-lt authority_accepted to h = ground arith
room-lt authority_rejected to h = ground arith

module _ (host : Host) where
  length-Continues :
      (prev : LifecycleEventEnvelope) (seen : List HashHex) (es : List LifecycleEventEnvelope)
      → Continues host prev seen es
      → length es ≤ room (stage prev.core)
  length-Continues prev seen [] c = omega arith
  length-Continues prev seen (e ∷ es) (f, c) = omega (
    arith,
    room-lt (stage prev.core) (stage e.core) f.may_follow,
    length-Continues e (e.event_hash ∷ seen) es c,
  )

  length-IsLinked : (es : List LifecycleEventEnvelope) → IsLinked host es → length es ≤ 3
  unfolding room
  length-IsLinked [] l = omega arith
  length-IsLinked (e ∷ es) (h, z, a, c) =
      let most : length es ≤ room (stage e.core) = length-Continues e (e.event_hash ∷ []) es c in
      let start : length es ≤ room attempted = subst (λ s. length es ≤ room s) a most in omega arith

  -- An input that `validateEventChain` accepts has at most three events.
  pub length-validate_event_chain :
      (input : List Value) (r : EventChainResult)
      → validate_event_chain host input ≡ ok r
      → length input ≤ 3
  length-validate_event_chain input r h =
      let (events, reads, linked, ends) = (validate_event_chain_iff host input r).0 h in
      omega (
        arith,
        length-IsLinked events linked,
        length-map_indexed (parse_event_envelope host) (prop root "events") input events reads,
      )

  chain_event_terminal :
      (i : ℕ) (s t : ChainState) (e : LifecycleEventEnvelope) (path : JsonPath)
      → is_terminal s.current_stage ≡ true
      → chain_event host i s e path ≢ ok t
  unfolding chain_event assert_valid_transition is_valid_transition
  chain_event_terminal i s t e path terminal h = ground arith

  chain_from_terminal :
      (i : ℕ) (s t : ChainState) (item : Value) (more : List Value)
      → is_terminal s.current_stage ≡ true
      → chain_from host i s (item ∷ more) ≢ ok t
  unfolding chain_from chain_step
  chain_from_terminal i s t item more terminal h =
      invert (chain_step host i s item) _ h λ next stepped rest.
        invert (parse_event_envelope host item (index (prop root "events") i)) _ stepped
          λ e read event.
            chain_event_terminal i s next e (index (prop root "events") i) terminal event

  chain_from-append :
      (i : ℕ) (s t : ChainState) (xs : List Value) (item : Value) (more : List Value)
      → chain_from host i s xs ≡ ok t
      → is_terminal t.current_stage ≡ true
      → (v : ChainState) → chain_from host i s (xs ++ (item ∷ more)) ≢ ok v
  unfolding chain_from
  chain_from-append i s t [] item more h terminal v k =
      chain_from_terminal i s v item more
        (subst (λ (x : ChainState). is_terminal x.current_stage ≡ true) (sym (ok-injective h))
          terminal)
        k
  chain_from-append i s t (x ∷ xs) item more h terminal v k =
      invert (chain_step host i s x) _ h λ next stepped rest.
        invert (chain_step host i s x) _ k λ next' stepped' rest'.
          chain_from-append (suc i) next t xs item more rest terminal v (
            subst (λ y. chain_from host (suc i) y (xs ++ (item ∷ more)) ≡ ok v)
              (ok-injective (sym stepped' ∙ stepped)) rest')

  -- If `validateEventChain` accepts an input whose last stage is an authority's decision, then it
  -- rejects every input that continues it.
  pub validate_event_chain_final :
      (input : List Value) (item : Value) (more : List Value) (r r' : EventChainResult)
      → validate_event_chain host input ≡ ok r
      → is_terminal r.current_stage ≡ true
      → validate_event_chain host (input ++ (item ∷ more)) ≢ ok r'
  unfolding validate_event_chain
  validate_event_chain_final input item more r r' h terminal k =
      invert (chain_from host 0 initial input) _ h λ t ran made.
        invert (chain_from host 0 initial (input ++ (item ∷ more))) _ k λ v ran' made'.
          chain_from-append 0 initial t input item more ran
            (subst (λ (x : EventChainResult). is_terminal x.current_stage ≡ true)
              (sym (ok-injective made)) terminal)
            v ran'
