-- ===== src/Relay/Moves.antt =====
-- apps/web/db/migrations/0002_relay_foundation.sql: the life of an operation, and the trigger's table.
use submittedit.Common.{◌≡◌, ◌⊎◌, inl, inr, sym, true, arith, Bool-cases}
use submittedit.Relay.Types.{
  OperationState, validating, ready, submitting, submitted, confirmed, reverted, failed_retryable,
  failed_final, Operation,
}
use submittedit.Relay.Database.{state_eq, may_become, update_is_allowed}

-- The changes of state that an operation may go through.
pub data Moves : OperationState → OperationState → Type 0 where
  is_validated : Moves validating ready
  fails_validation : Moves validating failed_final
  is_prepared : Moves ready submitting
  is_delayed : Moves ready failed_retryable
  is_given_up : Moves ready failed_final
  is_broadcast : Moves submitting submitted
  misses_broadcast : Moves submitting failed_retryable
  fails_broadcast : Moves submitting failed_final
  is_confirmed : Moves submitted confirmed
  is_reverted : Moves submitted reverted
  waits_again : Moves submitted failed_retryable
  fails_check : Moves submitted failed_final
  is_reset : Moves failed_retryable ready
  is_sent_again : Moves failed_retryable submitting
  is_found_sent : Moves failed_retryable submitted
  is_confirmed_late : Moves failed_retryable confirmed
  is_reverted_late : Moves failed_retryable reverted
  fails_late : Moves failed_retryable failed_final

-- A state and the next one: the same, or a move.
abbrev pub IsStep : OperationState → OperationState → Type 0
IsStep s t = (t ≡ s) ⊎ Moves s t

may_become-Moves : (s t : OperationState) → may_become s t ≡ true → Moves s t
may_become-Moves validating validating h = cc
may_become-Moves validating ready h = is_validated
may_become-Moves validating submitting h = cc
may_become-Moves validating submitted h = cc
may_become-Moves validating confirmed h = cc
may_become-Moves validating reverted h = cc
may_become-Moves validating failed_retryable h = cc
may_become-Moves validating failed_final h = fails_validation
may_become-Moves ready validating h = cc
may_become-Moves ready ready h = cc
may_become-Moves ready submitting h = is_prepared
may_become-Moves ready submitted h = cc
may_become-Moves ready confirmed h = cc
may_become-Moves ready reverted h = cc
may_become-Moves ready failed_retryable h = is_delayed
may_become-Moves ready failed_final h = is_given_up
may_become-Moves submitting validating h = cc
may_become-Moves submitting ready h = cc
may_become-Moves submitting submitting h = cc
may_become-Moves submitting submitted h = is_broadcast
may_become-Moves submitting confirmed h = cc
may_become-Moves submitting reverted h = cc
may_become-Moves submitting failed_retryable h = misses_broadcast
may_become-Moves submitting failed_final h = fails_broadcast
may_become-Moves submitted validating h = cc
may_become-Moves submitted ready h = cc
may_become-Moves submitted submitting h = cc
may_become-Moves submitted submitted h = cc
may_become-Moves submitted confirmed h = is_confirmed
may_become-Moves submitted reverted h = is_reverted
may_become-Moves submitted failed_retryable h = waits_again
may_become-Moves submitted failed_final h = fails_check
may_become-Moves confirmed t h = cc
may_become-Moves reverted t h = cc
may_become-Moves failed_retryable validating h = cc
may_become-Moves failed_retryable ready h = is_reset
may_become-Moves failed_retryable submitting h = is_sent_again
may_become-Moves failed_retryable submitted h = is_found_sent
may_become-Moves failed_retryable confirmed h = is_confirmed_late
may_become-Moves failed_retryable reverted h = is_reverted_late
may_become-Moves failed_retryable failed_retryable h = cc
may_become-Moves failed_retryable failed_final h = fails_late
may_become-Moves failed_final t h = cc

pub state_eq_sound : (s t : OperationState) → state_eq s t ≡ true → s ≡ t
state_eq_sound s t h = ground arith

pub allowed-IsStep :
    (row later : Operation) → update_is_allowed row later ≡ true → IsStep row.state later.state
unfolding update_is_allowed
allowed-IsStep row later allowed = elim (Bool-cases (state_eq row.state later.state)) [
  | inl same ↦ inl (sym (state_eq_sound row.state later.state same))
  | inr differ ↦ inr (may_become-Moves row.state later.state (ground arith))
]
