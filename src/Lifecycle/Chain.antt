-- ===== src/Lifecycle/Chain.antt =====
-- packages/receipt-core/src/lifecycle.ts, `validateEventChain`: the loop over the events is a
-- recursion whose state is the record of its variables.
use submittedit.Common.{ℕ, zero, suc, Bool, true, not, Option, none, some, List, [], ◌∷◌}
use submittedit.Text.{Text, text_eq, contains}
use submittedit.Result.{
  Result, ok, throw_if, ◌>>=◌, ◌>>◌, JsonPath, root, prop, index, event_hash_mismatch,
  duplicate_event_hash, first_event_previous_hash, later_event_zero_hash,
  previous_event_hash_mismatch, receipt_id_mismatch, schema_version_mismatch,
}
use submittedit.Value.{Value}
use submittedit.Host.{Host}
use submittedit.Types.{
  HashHex, zero_hash, LifecycleStage, no_event, at, LifecycleEventEnvelope, stage,
}
use submittedit.Types.Values.{core_value}
use submittedit.Schema.Envelope.{parse_event_envelope}
use submittedit.Protocol.{hash_event_core}
use submittedit.Lifecycle.Transitions.{assert_valid_transition}

-- The variables of the loop; `receipt_id` and `schema_version` are `undefined` at first.
pub record ChainState : Type 0 where
  pub current_stage : LifecycleStage
  pub latest_event_hash : HashHex
  pub receipt_id : Option HashHex
  pub schema_version : Option Text
  pub seen_hashes : List HashHex

pub record EventChainResult : Type 0 where
  pub current_stage : LifecycleStage
  pub latest_event_hash : HashHex
  pub receipt_id : Option HashHex

abbrev pub initial : ChainState
initial = record {
  current_stage = no_event;
  latest_event_hash = zero_hash;
  receipt_id = none;
  schema_version = none;
  seen_hashes = [];
}

-- `a !== b`, where `b` may be `undefined`.
abbrev pub differs : Text → Option Text → Bool
differs a none = true
differs a (some b) = not (text_eq a b)

-- The tests on the link of an event to those before it. At index 0 the event gives the receipt's
-- identifier and version; later events must share them.
unfoldable pub check_link : ℕ → ChainState → LifecycleEventEnvelope → JsonPath → Result ChainState
check_link zero s event path = do
  throw_if (not (text_eq event.core.previous_event_hash zero_hash)) first_event_previous_hash
      (prop (prop path "core") "previousEventHash")
  ok (record s {
    receipt_id = some event.core.receipt_id;
    schema_version = some event.core.schema_version;
  })
check_link (suc i) s event path = do
  throw_if (text_eq event.core.previous_event_hash zero_hash) later_event_zero_hash
      (prop (prop path "core") "previousEventHash")
  throw_if (not (text_eq event.core.previous_event_hash s.latest_event_hash))
      previous_event_hash_mismatch (prop (prop path "core") "previousEventHash")
  throw_if (differs event.core.receipt_id s.receipt_id) receipt_id_mismatch path
  throw_if (differs event.core.schema_version s.schema_version) schema_version_mismatch path
  ok s

module _ (host : Host) where
  -- What one round does with the event that it has read.
  unfoldable pub chain_event :
      ℕ → ChainState → LifecycleEventEnvelope → JsonPath → Result ChainState
  chain_event i s event path = do
    recomputed ← hash_event_core host (core_value event.core)
    throw_if (not (text_eq event.event_hash recomputed)) event_hash_mismatch path
    throw_if (contains s.seen_hashes event.event_hash) duplicate_event_hash path
    linked ← check_link i s event path
    assert_valid_transition s.current_stage (stage event.core)
    ok (record linked {
      current_stage = at (stage event.core);
      latest_event_hash = event.event_hash;
      seen_hashes = event.event_hash ∷ s.seen_hashes;
    })

  unfoldable pub chain_step : ℕ → ChainState → Value → Result ChainState
  unfolding chain_event
  chain_step i s item = do
    event ← parse_event_envelope host item (index (prop root "events") i)
    chain_event i s event (index (prop root "events") i)

  unfoldable pub chain_from : ℕ → ChainState → List Value → Result ChainState
  chain_from i s [] = ok s
  chain_from i s (item ∷ items) = do next ← chain_step i s item; chain_from (suc i) next items

  unfoldable pub validate_event_chain : List Value → Result EventChainResult
  validate_event_chain input = do
    s ← chain_from 0 initial input
    ok (record {
      current_stage = s.current_stage;
      latest_event_hash = s.latest_event_hash;
      receipt_id = s.receipt_id;
    })
