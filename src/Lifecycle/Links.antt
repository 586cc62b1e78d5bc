-- ===== src/Lifecycle/Links.antt =====
-- Linked chains of events, described over the events themselves: what `validateEventChain` of
-- packages/receipt-core/src/lifecycle.ts tests for.
use submittedit.Common.{◌≡◌, ◌≢◌, true, none, some, List, [], ◌∷◌}
use submittedit.Common.Lists.{All}
use submittedit.Result.{ok}
use submittedit.Host.{Host}
use submittedit.Types.{HashHex, zero_hash, attempted, no_event, at, LifecycleEventEnvelope, stage}
use submittedit.Types.Values.{core_value}
use submittedit.Protocol.{hash_event_core}
use submittedit.Lifecycle.Transitions.{is_valid_transition}
use submittedit.Lifecycle.Chain.{ChainState, EventChainResult}

abbrev pub state_after : LifecycleEventEnvelope → List HashHex → ChainState
state_after e seen = record {
  current_stage = at (stage e.core);
  latest_event_hash = e.event_hash;
  receipt_id = some e.core.receipt_id;
  schema_version = some e.core.schema_version;
  seen_hashes = seen;
}

abbrev pub outcome_of : ChainState → EventChainResult
outcome_of s = record {
  current_stage = s.current_stage;
  latest_event_hash = s.latest_event_hash;
  receipt_id = s.receipt_id;
}

-- What the events after `prev` end in.
abbrev pub result_after : LifecycleEventEnvelope → List LifecycleEventEnvelope → EventChainResult
result_after e [] = record {
  current_stage = at (stage e.core);
  latest_event_hash = e.event_hash;
  receipt_id = some e.core.receipt_id;
}
result_after prev (e ∷ es) = result_after e es

-- The result of a chain: the stage, the hash and the receipt of its last event.
abbrev pub chain_result : List LifecycleEventEnvelope → EventChainResult
chain_result [] = record {
  current_stage = no_event;
  latest_event_hash = zero_hash;
  receipt_id = none;
}
chain_result (e ∷ es) = result_after e es

module _ (host : Host) where
  -- The event's hash is the hash of its core.
  abbrev pub HasHash : LifecycleEventEnvelope → Type 0
  HasHash e = hash_event_core host (core_value e.core) ≡ ok e.event_hash

  -- `e` may follow `prev`, where `seen` are the hashes so far.
  pub record Follows (prev : LifecycleEventEnvelope) (seen : List HashHex)
      (e : LifecycleEventEnvelope) : Type 0 where
    pub has_hash : HasHash e
    pub is_new : All (λ h. h ≢ e.event_hash) seen
    pub links : e.core.previous_event_hash ≡ prev.event_hash
    pub not_first : e.core.previous_event_hash ≢ zero_hash
    pub same_receipt : e.core.receipt_id ≡ prev.core.receipt_id
    pub same_version : e.core.schema_version ≡ prev.core.schema_version
    pub may_follow : is_valid_transition (at (stage prev.core)) (stage e.core) ≡ true

  abbrev pub Continues :
      LifecycleEventEnvelope → List HashHex → List LifecycleEventEnvelope → Type 0
  Continues prev seen [] = Unit
  Continues prev seen (e ∷ es) = Follows prev seen e × Continues e (e.event_hash ∷ seen) es

  -- A chain starts with an attempt that links to the zero hash.
  abbrev pub IsLinked : List LifecycleEventEnvelope → Type 0
  IsLinked [] = Unit
  IsLinked (e ∷ es) =
      HasHash e
      × (e.core.previous_event_hash ≡ zero_hash)
      × (stage e.core ≡ attempted)
      × Continues e (e.event_hash ∷ []) es
