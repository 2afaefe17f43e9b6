-- ===== src/Scheduling/StateMachine/Laws.antt =====
-- server/go/internal/scheduling/statemachine.go against the diagram of Graph.antt.
use project_dia.Prelude.{ℕ, ◌+◌, ◌≤◌, ◌<◌, ◌≡◌, ◌≢◌, refl, ◌↔◌, true, false, not, none, some, arith}
use project_dia.Domain.{PassStatus, pending_approval, approved, rejected, executing, failed, missed}
use project_dia.Scheduling.StateMachine.{
  is_known, is_terminal, can_transition, holds_station_resource, validate_transition,
  TransitionError, unknown_status, unknown_target, already, is_final, not_allowed,
}
use project_dia.Scheduling.StateMachine.Graph.{
  ◌⟶◌, approve, reject, withdraw, cancel, start, miss, complete, fail, Chain, here, next, age,
  ⟶-can_transition, can_transition-⟶,
}

pub validate_transition-can :
    (from to : PassStatus) → (validate_transition from to ≡ none) ↔ (can_transition from to ≡ true)
unfolding validate_transition
validate_transition-can from to = (λ h. ground arith, λ h. ground arith)

-- The validation lets a change pass exactly when the diagram has an edge for it.
pub validate_transition_iff :
    (from to : PassStatus) → (validate_transition from to ≡ none) ↔ (from ⟶ to)
validate_transition_iff from to =
    let (pass, back) = validate_transition-can from to in
    (λ h. can_transition-⟶ from to (pass h), λ e. back (⟶-can_transition e))

-- What each refusal says of the two statuses.
abbrev pub Explains : PassStatus → PassStatus → TransitionError → Type 0
Explains from to (unknown_status s) = (s ≡ from) × (is_known from ≡ false)
Explains from to (unknown_target s) = (s ≡ to) × (is_known from ≡ true) × (is_known to ≡ false)
Explains from to (already s) = (s ≡ from) × (is_known from ≡ true) × (from ≡ to)
Explains from to (is_final s) =
    (s ≡ from) × (is_known to ≡ true) × (is_terminal from ≡ true) × (from ≢ to)
Explains from to (not_allowed s t) =
    (s ≡ from)
    × (t ≡ to)
    × (is_terminal from ≡ false)
    × (can_transition from to ≡ false)
    × (from ≢ to)

-- A refusal names the status at fault: an unknown one, the one that the pass already has, a final
-- one, or two between which the table has no transition.
pub validate_transition-Explains :
    (from to : PassStatus) (e : TransitionError)
    → validate_transition from to ≡ some e
    → Explains from to e
unfolding validate_transition
validate_transition-Explains from to (unknown_status s) h = ground arith
validate_transition-Explains from to (unknown_target s) h = ground arith
validate_transition-Explains from to (already s) h = ground arith
validate_transition-Explains from to (is_final s) h = ground arith
validate_transition-Explains from to (not_allowed s t) h = ground arith

-- A known status is final exactly when it does not hold the station.
pub is_terminal-not-holds :
    (s : PassStatus) → is_known s ≡ true → is_terminal s ≡ not (holds_station_resource s)
unfolding is_terminal holds_station_resource
is_terminal-not-holds s h = ground arith

⟶-age : {s t : PassStatus} → s ⟶ t → age s < age t
⟶-age approve = omega arith
⟶-age reject = omega arith
⟶-age withdraw = omega arith
⟶-age cancel = omega arith
⟶-age start = omega arith
⟶-age miss = omega arith
⟶-age complete = omega arith
⟶-age fail = omega arith

Chain-age : {s t : PassStatus} {n : ℕ} → Chain s n t → n + age s ≤ age t
Chain-age here = omega arith
Chain-age (next c e) = omega (arith, Chain-age c, ⟶-age (can_transition-⟶ _ _ e))

age-le : (s : PassStatus) → age s ≤ 3
age-le s = ground arith

-- No pass changes its status more than three times.
pub Chain-le : (s t : PassStatus) (n : ℕ) → Chain s n t → n ≤ 3
Chain-le s t n c = omega (arith, Chain-age c, age-le t)

-- A pass that holds the station can still reach a status that does not hold it, and that is final.
pub holds-released :
    (s : PassStatus)
    → holds_station_resource s ≡ true
    → (n : ℕ) × (t : PassStatus) × Chain s n t
      × (holds_station_resource t ≡ false)
      × (is_terminal t ≡ true)
unfolding is_terminal holds_station_resource can_transition
holds-released pending_approval h = (1, rejected, next here refl, refl, refl)
holds-released approved h = (1, missed, next here refl, refl, refl)
holds-released executing h = (1, failed, next here refl, refl, refl)
holds-released s h = cc
