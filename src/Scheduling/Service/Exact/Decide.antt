-- ===== src/Scheduling/Service/Exact/Decide.antt =====
-- `Approve` and `Reject` of server/go/internal/scheduling/service.go without faults of the
-- environment.
use mathlib.Core.Option
use mathlib.Core.Path.{subst}
use project_dia.Prelude.{
  Option, Bool-cases, Option-cases, inl, inr, if◌then◌else◌, ◌≡◌, refl, sym, ap, ◌∙◌, true, false,
  none, some, update, count_where, first,
}
use project_dia.Domain.{Uuid, Time, User, Pass, pending_approval, status_eq}
use project_dia.Errors.{Error, not_found, forbidden, invalid_transition}
use project_dia.Store.World.{World, Action, ◌>>◌, ◌>>=◌, ok, err, pure, raise, advance}
use project_dia.Store.World.Laws.{
  NoFaults, wrote, bind_ok, bind_err, then_ok, then_err, found_row, missing_row, not_refused,
  refused,
}
use project_dia.Store.Passes.{get_pass_by_id, is_pending}
use project_dia.Store.Passes.Table.{IsValid}
use project_dia.Store.Passes.Invariant.{InOrder}
use project_dia.Store.Passes.Exact.{with_passes, found_or_missing}
use project_dia.Store.Passes.Rows.{has_id, changed, first-update, count-chosen, first-has_id}
use project_dia.Auth.Rbac.{can_approve_passes}
use project_dia.Scheduling.StateMachine.{validate_transition, TransitionError}
use project_dia.Scheduling.Service.{Service, audit}
use project_dia.Scheduling.Service.Decisions.{
  Decision, target, record_decision, decision_action, decide, refuse_transition,
}
use project_dia.Scheduling.Service.Exact.{
  PlanRuns, decided, audit_lem, decided-pending, record_decision_lem, pending_allowed, decided-id,
}

module _ (s : Service) (actor : User) (id : Uuid) (d : Decision) (p : Pass) (w : World)
    (plan : PlanRuns s d p (wrote w w.db)) (n : NoFaults w) (v : InOrder w.db)
    (found : first (has_id id) w.db.passes ≡ some p) (pending : p.status ≡ pending_approval) where
  abbrev planned : World
  planned = plan.after

  quiet : NoFaults planned
  quiet = λ k. ap (λ e. e.fault k) plan.same_env ∙ n k

  selected : count_where (is_pending id) planned.db.passes ≡ 1
  unfolding status_eq
  selected =
      ap (count_where (is_pending id)) plan.same_passes
      ∙ count-chosen id (λ q. status_eq q.status pending_approval) w.db.passes v.1
      ∙ rw (found, pending) refl

  abbrev at_decision : Time
  at_decision = planned.env.clock planned.tick

  abbrev decided_world : World
  decided_world = wrote (advance planned) (
      with_passes planned.db
        (update (is_pending id) (decided d actor.id at_decision) planned.db.passes))

  recorded : record_decision d id actor.id planned ≡ (ok tt, decided_world)
  recorded =
      record_decision_lem d id actor.id planned quiet (subst IsValid (sym plan.same_passes) v)
      ∙ ap (λ k. (found_or_missing k, decided_world)) selected

  abbrev at_audit :
      (u : World) × (audit (some actor.id) (decision_action d) id decided_world ≡ (ok tt, u))
      × (u.env ≡ decided_world.env)
      × (u.db.passes ≡ decided_world.db.passes)
  at_audit = audit_lem (some actor.id) (decision_action d) id decided_world quiet

  found_after : first (has_id id) at_audit.0.db.passes ≡ some (decided d actor.id at_decision p)
  found_after =
      ap (first (has_id id)) at_audit.3
      ∙ first-update id (is_pending id) _ (decided-id d actor.id at_decision) planned.db.passes
      ∙ ap
          (λ ps.
            Option.map
              (changed id (is_pending id) (decided d actor.id at_decision)
                (decided-id d actor.id at_decision))
              (first (has_id id) ps))
          plan.same_passes
      ∙ ap
          (Option.map (
            changed id (is_pending id) (decided d actor.id at_decision)
              (decided-id d actor.id at_decision)))
          found
      ∙ ap some (
          decided-pending d id actor.id at_decision p (first-has_id id w.db.passes p found) pending)

  decide_run :
      can_approve_passes actor ≡ true
      → decide s actor id d w
        ≡ (ok (decided d actor.id at_decision p), wrote at_audit.0 at_audit.0.db)
  unfolding decide get_pass_by_id pure
  decide_run can =
      then_ok _ _ w w tt (rw can (not_refused _ w))
      ∙ bind_ok _ _ w _ p (found_row _ w p n found)
      ∙ then_ok _ _ _ _ tt (rw (pending_allowed d p pending) refl)
      ∙ then_ok _ _ _ planned tt plan.runs
      ∙ then_ok _ _ _ _ tt recorded
      ∙ then_ok _ _ _ at_audit.0 tt at_audit.1
      ∙ found_row _ at_audit.0 _ (λ k. ap (λ e. e.fault k) at_audit.2 ∙ quiet k) found_after

-- While no statement fails and the table of passes is in order, an administrator who decides on a
-- pending pass, for which an approval can make the plan without a change of the passes, gets the pass
-- with the new status and the name and time of the decision, and the row that the table holds for it
-- is changed in that way alone.
pub decide_pending :
    (s : Service) (actor : User) (id : Uuid) (d : Decision) (p : Pass) (w : World)
    → PlanRuns s d p (wrote w w.db)
    → NoFaults w
    → InOrder w.db
    → can_approve_passes actor ≡ true
    → first (has_id id) w.db.passes ≡ some p
    → p.status ≡ pending_approval
    → (at : Time) × ((decide s actor id d w).0 ≡ ok (decided d actor.id at p))
      × ((decide s actor id d w).1.db.passes
          ≡ update (is_pending id) (decided d actor.id at) w.db.passes)
decide_pending s actor id d p w plan n v can found pending =
    let run = decide_run s actor id d p w plan n v found pending can in
    let entry = at_audit s actor id d p w plan n v found pending in
    let at = at_decision s actor id d p w plan n v found pending in
    (
      at,
      ap (λ r. r.0) run,
      ap (λ r. r.1.db.passes) run
          ∙ entry.3
          ∙ ap (update (is_pending id) (decided d actor.id at)) plan.same_passes,
    )

-- Why a decision is refused, from the row that the table holds for the pass, if it holds one.
abbrev pub row_refusal : Decision → Option Pass → Option Error
row_refusal d none = some not_found
row_refusal d (some p) = Option.map invalid_transition (validate_transition p.status (target d))

abbrev pub decide_refusal : User → Decision → Option Pass → Option Error
decide_refusal actor d o = if can_approve_passes actor then row_refusal d o else some forbidden

refuse_row :
    {A : Type 0} (o : Option TransitionError) (w : World) (e : Error) (rest : Action A)
    → Option.map invalid_transition o ≡ some e
    → (refuse_transition o >> rest) w ≡ (err e, w)
unfolding pure raise ◌>>=◌ ◌>>◌
refuse_row none w e rest h = cc
refuse_row (some x) w e rest h = cc

refused_after :
    (s : Service) (actor : User) (id : Uuid) (d : Decision) (w : World) (e : Error)
    → NoFaults w
    → can_approve_passes actor ≡ true
    → row_refusal d (first (has_id id) w.db.passes) ≡ some e
    → decide s actor id d w ≡ (err e, wrote w w.db)
unfolding decide get_pass_by_id
refused_after s actor id d w e n can h =
    then_ok _ _ w w tt (rw can (not_refused _ w))
    ∙ elim (Option-cases (first (has_id id) w.db.passes)) [
      | inl missing ↦
          let same : not_found ≡ e = cc in
          bind_err _ _ w _ not_found (missing_row _ w n missing)
          ∙ ap (λ x. (err x, wrote w w.db)) same
      | inr (p, found) ↦
          bind_ok _ _ w _ p (found_row _ w p n found)
          ∙ refuse_row (validate_transition p.status (target d)) _ e _
              (sym (ap (row_refusal d) found) ∙ h)
    ]

refused_before :
    (s : Service) (actor : User) (id : Uuid) (d : Decision) (w : World)
    → can_approve_passes actor ≡ false
    → decide s actor id d w ≡ (err forbidden, w)
unfolding decide
refused_before s actor id d w can = then_err _ _ w w forbidden (rw can (refused _ w))

-- While no statement fails, a caller without the right, a missing pass and a pass whose status has no
-- such transition are refused with their error each, in this order, and the tables stay as they are.
pub decide_refused :
    (s : Service) (actor : User) (id : Uuid) (d : Decision) (w : World) (e : Error)
    → NoFaults w
    → decide_refusal actor d (first (has_id id) w.db.passes) ≡ some e
    → ((decide s actor id d w).0 ≡ err e) × ((decide s actor id d w).1.db ≡ w.db)
decide_refused s actor id d w e n h = elim (Bool-cases (can_approve_passes actor)) [
  | inl can ↦
      let run = refused_after s actor id d w e n can (
        sym (
          ap (λ b. if b then row_refusal d (first (has_id id) w.db.passes) else some forbidden) can)
        ∙ h) in
      (ap (λ r. r.0) run, ap (λ r. r.1.db) run)
  | inr cannot ↦
      let run = refused_before s actor id d w cannot in
      let same : forbidden ≡ e = cc in (ap (λ r. r.0) run ∙ ap err same, ap (λ r. r.1.db) run)
]
