-- ===== src/Scheduling/Service/Exact.antt =====
-- The parts of the decisions of server/go/internal/scheduling/service.go, without faults of the
-- environment.
pub mod Decide
pub mod Cancel
use mathlib.Core.Path.{subst}
use project_dia.Prelude.{
  ℕ, suc, ◌≡◌, ◌≢◌, refl, sym, ap, ◌∙◌, Bool, true, false, not, Option, none, some, List, [], ◌∷◌,
  arith, ◌==◌, if◌then◌else◌, update, count_where, first, String,
}
use project_dia.Domain.{
  identified, Uuid, Time, User, Pass, PassStatus, pending_approval, approved, rejected, cancelled,
  AuditRecord, status_eq,
}
use project_dia.Errors.{Error, not_found, forbidden, invalid_transition}
use project_dia.Store.World.{
  World, Db, Action, Result, ok, err, handle, pure, rescue, advance, now, ◌>>=◌, ◌>>◌,
}
use project_dia.Store.World.Laws.{
  NoFaults, wrote, statement_lem, bind_ok, bind_err, then_ok, then_err, found_row, missing_row,
  now_lem, not_refused, refused,
}
use project_dia.Store.Reads.{append_audit}
use project_dia.Store.Passes.{
  get_pass_by_id, approve_row, reject_row, cancel_row, is_pending, is_cancellable, approve_pass,
}
use project_dia.Store.Passes.Table.{IsValid}
use project_dia.Store.Passes.Invariant.{
  InOrder, update-IsValid, approve-Succeeds, reject-Succeeds, cancel-Succeeds,
}
use project_dia.Store.Passes.Exact.{
  with_passes, found_or_missing, approve_pass_lem, reject_pass_lem, cancel_pass_lem,
}
use project_dia.Store.Passes.Rows.{has_id, first-update, count-chosen, first-has_id}
use project_dia.Auth.Rbac.{can_approve_passes}
use project_dia.Scheduling.StateMachine.{validate_transition, TransitionError}
use project_dia.Scheduling.Rules.{can_cancel_pass, cancellation_reason_for}
use project_dia.Scheduling.Service.{Service, generate_plan, audit}
use project_dia.Scheduling.Service.Decisions.{
  Decision, approval, rejection, target, plan_first, record_decision, decision_action, decide,
  cancel, refuse_transition,
}

-- A run that makes the plan before a decision, without an error and without a change of the passes or
-- of the environment.
pub record PlanRuns (s : Service) (d : Decision) (p : Pass) (w : World) : Type 0 where
  pub after : World
  pub runs : plan_first s d p w ≡ (ok tt, after)
  pub same_env : after.env ≡ w.env
  pub same_passes : after.db.passes ≡ w.db.passes

abbrev pub decided : Decision → Uuid → Time → Pass → Pass
decided approval by at p = approve_row by at p
decided rejection by at p = reject_row by at p

pub audit_lem :
    (actor : Option Uuid) (action : String) (id : Uuid) (w : World)
    → NoFaults w
    → (v : World) × (audit actor action id w ≡ (ok tt, v))
      × (v.env ≡ w.env)
      × (v.db.passes ≡ w.db.passes)
unfolding audit rescue append_audit pure
audit_lem actor action id w n = (
  wrote w (record w.db { audits = entry ∷ w.db.audits }),
  ap (handle (λ _. pure tt)) (then_ok _ (pure tt) w _ _ (statement_lem _ w n)),
  refl,
  refl,
)
  where
    entry : AuditRecord
    entry = record {
      actor_user_id = actor;
      action = action;
      entity_type = "pass";
      entity_id = identified id;
      reason = "";
    }

pub decided-pending :
    (d : Decision) (id by : Uuid) (at : Time) (p : Pass)
    → has_id id p ≡ true
    → p.status ≡ pending_approval
    → (if is_pending id p then decided d by at p else p) ≡ decided d by at p
unfolding status_eq
decided-pending d id by at p h e = rw (h, e) refl

pub record_decision_lem :
    (d : Decision) (id by : Uuid) (w : World)
    → NoFaults w
    → InOrder w.db
    → record_decision d id by w ≡ (
      found_or_missing (count_where (is_pending id) w.db.passes),
      wrote (advance w) (
          with_passes w.db
            (update (is_pending id) (decided d by (w.env.clock w.tick)) w.db.passes)),
    )
record_decision_lem approval id by w n v =
    bind_ok now _ w _ _ (now_lem w) ∙ approve_pass_lem id by _ (advance w) n v
record_decision_lem rejection id by w n v =
    bind_ok now _ w _ _ (now_lem w) ∙ reject_pass_lem id by _ (advance w) n v

pub pending_allowed :
    (d : Decision) (p : Pass)
    → p.status ≡ pending_approval
    → validate_transition p.status (target d) ≡ none
unfolding validate_transition
pending_allowed approval p e = rw e refl
pending_allowed rejection p e = rw e refl

pub decided-id : (d : Decision) (by : Uuid) (at : Time) (p : Pass) → (decided d by at p).id ≡ p.id
decided-id approval by at p = refl
decided-id rejection by at p = refl
