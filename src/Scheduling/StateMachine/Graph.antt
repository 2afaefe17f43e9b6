-- ===== src/Scheduling/StateMachine/Graph.antt =====
-- The transition diagram of a pass, as a relation beside the code of statemachine.go.
use project_dia.Prelude.{ℕ, suc, ◌≡◌, refl, true, arith}
use project_dia.Domain.{
  PassStatus, pending_approval, approved, rejected, cancelled, executing, completed, failed, missed,
}
use project_dia.Scheduling.StateMachine.{can_transition}

infix 40 ◌⟶◌
pub data ◌⟶◌ : PassStatus → PassStatus → Type 0 where
  approve : pending_approval ⟶ approved
  reject : pending_approval ⟶ rejected
  withdraw : pending_approval ⟶ cancelled
  cancel : approved ⟶ cancelled
  start : approved ⟶ executing
  miss : approved ⟶ missed
  complete : executing ⟶ completed
  fail : executing ⟶ failed

pub ruleset edges = (approve, reject, withdraw, cancel, start, miss, complete, fail)

-- A chain of changes that the code allows, with its length.
pub data Chain (s : PassStatus) : ℕ → PassStatus → Type 0 where
  here : Chain s 0 s
  next : {n : ℕ} {t u : PassStatus} → Chain s n t → can_transition t u ≡ true → Chain s (suc n) u

-- How many transitions lie behind a status at most.
abbrev pub age : PassStatus → ℕ
age pending_approval = 0
age approved = 1
age executing = 2
age _ = 3

pub ⟶-can_transition : {s t : PassStatus} → s ⟶ t → can_transition s t ≡ true
unfolding can_transition
⟶-can_transition approve = refl
⟶-can_transition reject = refl
⟶-can_transition withdraw = refl
⟶-can_transition cancel = refl
⟶-can_transition start = refl
⟶-can_transition miss = refl
⟶-can_transition complete = refl
⟶-can_transition fail = refl

pub can_transition-⟶ : (s t : PassStatus) → can_transition s t ≡ true → s ⟶ t
unfolding can_transition
can_transition-⟶ s t h = grind (arith, edges)

pub Chain-trans : {s t u : PassStatus} {m n : ℕ} → Chain s m t → Chain t n u → (k : ℕ) × Chain s k u
Chain-trans c here = (_, c)
Chain-trans c (next d e) = let (k, f) = Chain-trans c d in (suc k, next f e)
