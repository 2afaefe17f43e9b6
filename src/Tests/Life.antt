-- ===== src/Tests/Life.antt =====
-- The state machine of a pass on concrete statuses.
use project_dia.Prelude.{ℕ, ◌≡◌, ◌↔◌, refl, none, true, false}
use project_dia.Domain.{PassStatus, approved, executing}
use project_dia.Scheduling.StateMachine.{validate_transition, is_terminal, holds_station_resource}
use project_dia.Scheduling.StateMachine.Graph.{◌⟶◌, Chain}
use project_dia.Scheduling.StateMachine.Laws.{validate_transition_iff, holds-released}
use project_dia.Scheduling.Rules.{Reservation}
use project_dia.Tests.Fixtures.{at_minute}

validate_transition_iff_example :
    (validate_transition approved executing ≡ none) ↔ (approved ⟶ executing)
validate_transition_iff_example = validate_transition_iff approved executing

holds-released_example :
    (n : ℕ) × (t : PassStatus) × Chain executing n t
    × (holds_station_resource t ≡ false)
    × (is_terminal t ≡ true)
unfolding holds_station_resource
holds-released_example = holds-released executing refl

abbrev early : Reservation
early = record { from = at_minute 0; to = at_minute 10 }

abbrev late : Reservation
late = record { from = at_minute 9; to = at_minute 20 }
