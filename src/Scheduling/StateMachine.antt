-- ===== src/Scheduling/StateMachine.antt =====
-- server/go/internal/scheduling/statemachine.go. A Go map is a function into `Option`, and the
-- index of a missing key is the empty slice.
pub mod Graph
pub mod Laws
use project_dia.Prelude.{
  Bool, true, false, not, ◌&&◌, ◌||◌, Option, none, some, List, [], ◌∷◌, if◌then◌else◌,
}
use project_dia.Domain.{
  PassStatus, pending_approval, approved, rejected, cancelled, executing, completed, failed, missed,
  status_eq,
}

abbrev pub allowed_transitions : PassStatus → Option (List PassStatus)
allowed_transitions pending_approval = some (approved ∷ rejected ∷ cancelled ∷ [])
allowed_transitions approved = some (cancelled ∷ executing ∷ missed ∷ [])
allowed_transitions executing = some (completed ∷ failed ∷ [])
allowed_transitions rejected = some []
allowed_transitions cancelled = some []
allowed_transitions completed = some []
allowed_transitions failed = some []
allowed_transitions missed = some []
allowed_transitions (PassStatus.unknown s) = none

abbrev pub live_statuses : List PassStatus
live_statuses = pending_approval ∷ approved ∷ executing ∷ []

abbrev pub is_known : PassStatus → Bool
is_known s = elim (allowed_transitions s) [ none ↦ false | some _ ↦ true ]

-- `for _, x := range xs { if x == s { return true } }; return false`
abbrev pub contains : List PassStatus → PassStatus → Bool
contains [] s = false
contains (x ∷ xs) s = status_eq x s || contains xs s

unfoldable pub is_terminal : PassStatus → Bool
is_terminal s = elim (allowed_transitions s) [ some [] ↦ true | _ ↦ false ]

unfoldable pub holds_station_resource : PassStatus → Bool
unfolding status_eq
holds_station_resource s = contains live_statuses s

unfoldable pub can_transition : PassStatus → PassStatus → Bool
unfolding status_eq
can_transition from to = elim (allowed_transitions from) [
  | none ↦ false
  | some next ↦ contains next to
]

-- The five refusals, each wrapping `ErrInvalidTransition`.
pub data TransitionError : Type 0 where
  unknown_status unknown_target already is_final : PassStatus → TransitionError
  not_allowed : PassStatus → PassStatus → TransitionError

unfoldable pub validate_transition : PassStatus → PassStatus → Option TransitionError
unfolding status_eq is_terminal can_transition
validate_transition from to =
    if not (is_known from)
    then some (unknown_status from)
    else if not (is_known to)
    then some (unknown_target to)
    else if status_eq from to
    then some (already from)
    else if is_terminal from
    then some (is_final from)
    else if not (can_transition from to)
    then some (not_allowed from to)
    else none
