-- ===== src/Lifecycle/Transitions.antt =====
-- packages/receipt-core/src/lifecycle.ts: `ALLOWED_TRANSITIONS`, `isValidTransition` and
-- `assertValidTransition`.
use submittedit.Common.{Bool, true, false, not, List, [], ◌∷◌}
use submittedit.Common.Lists.{any}
use submittedit.Result.{Result, throw_if, root, prop, invalid_lifecycle_transition}
use submittedit.Types.{
  EventStage, attempted, site_confirmed, authority_accepted, authority_rejected, LifecycleStage,
  no_event, at,
}

abbrev pub stage_eq : EventStage → EventStage → Bool
stage_eq attempted attempted = true
stage_eq site_confirmed site_confirmed = true
stage_eq authority_accepted authority_accepted = true
stage_eq authority_rejected authority_rejected = true
stage_eq _ _ = false

unfoldable pub allowed_transitions : LifecycleStage → List EventStage
allowed_transitions no_event = attempted ∷ []
allowed_transitions (at attempted) = site_confirmed ∷ authority_accepted ∷ authority_rejected ∷ []
allowed_transitions (at site_confirmed) = authority_accepted ∷ authority_rejected ∷ []
allowed_transitions (at authority_accepted) = []
allowed_transitions (at authority_rejected) = []

unfoldable pub is_valid_transition : LifecycleStage → EventStage → Bool
unfolding allowed_transitions
is_valid_transition from to = any (stage_eq to) (allowed_transitions from)

unfoldable pub assert_valid_transition : LifecycleStage → EventStage → Result (Unit {0})
unfolding is_valid_transition
assert_valid_transition from to =
    throw_if (not (is_valid_transition from to)) invalid_lifecycle_transition (prop root "stage")
