-- ===== src/Scheduling/Service/Decisions.antt =====
-- server/go/internal/scheduling/service.go: `Approve`, `Reject`, `Cancel` and
-- `UpdateSchedulingConfig`.
use project_dia.Prelude.{not, Option, none, some, String}
use project_dia.Domain.{
  Uuid, User, Pass, PassStatus, approved, rejected, cancelled, SchedulingConfig,
}
use project_dia.Errors.{forbidden, invalid_transition}
use project_dia.Store.World.{Action, pure, raise, now, refuse_if, ◌>>=◌, ◌>>◌}
use project_dia.Store.Reads.{create_scheduling_config}
use project_dia.Store.Passes.{get_pass_by_id, approve_pass, reject_pass, cancel_pass}
use project_dia.Auth.Rbac.{can_approve_passes, can_configure_station}
use project_dia.Scheduling.StateMachine.{TransitionError, validate_transition}
use project_dia.Scheduling.Rules.{
  can_cancel_pass, cancellation_reason_for, effective_from_for_new_config,
}
use project_dia.Scheduling.Service.{Service, station_and_config, generate_plan, audit}

abbrev pub refuse_transition : Option TransitionError → Action (Unit {0})
refuse_transition none = pure tt
refuse_transition (some e) = raise (invalid_transition e)

-- `decide` is called with these two targets only.
pub data Decision : Type 0 where
  approval rejection : Decision

abbrev pub target : Decision → PassStatus
target approval = approved
target rejection = rejected

abbrev pub plan_first : Service → Decision → Pass → Action (Unit {0})
plan_first s approval pass = generate_plan s (record pass { status = approved })
plan_first s rejection pass = pure tt

abbrev pub record_decision : Decision → Uuid → Uuid → Action (Unit {0})
record_decision approval id actor = do at ← now; approve_pass id actor at
record_decision rejection id actor = do at ← now; reject_pass id actor at

abbrev pub decision_action : Decision → String
decision_action approval = "pass.approved"
decision_action rejection = "pass.rejected"

unfoldable pub decide : Service → User → Uuid → Decision → Action Pass
decide s actor id decision = do
  refuse_if (not (can_approve_passes actor)) forbidden
  pass ← get_pass_by_id id
  refuse_transition (validate_transition pass.status (target decision))
  plan_first s decision pass
  record_decision decision id actor.id
  audit (some actor.id) (decision_action decision) id
  get_pass_by_id id

unfoldable pub approve : Service → User → Uuid → Action Pass
approve s actor id = decide s actor id approval

unfoldable pub reject : Service → User → Uuid → Action Pass
reject s actor id = decide s actor id rejection

unfoldable pub cancel : User → Uuid → Action Pass
cancel actor id = do
  pass ← get_pass_by_id id
  refuse_if (not (can_cancel_pass actor pass)) forbidden
  refuse_transition (validate_transition pass.status cancelled)
  at ← now
  cancel_pass id actor.id (cancellation_reason_for actor pass) at
  audit (some actor.id) "pass.cancelled" id
  get_pass_by_id id

unfoldable pub update_scheduling_config : User → SchedulingConfig → Action SchedulingConfig
update_scheduling_config actor config = do
  refuse_if (not (can_configure_station actor)) forbidden
  (station, current) ← station_and_config
  at ← now
  saved ← create_scheduling_config (record config {
    station_id = station.id;
    created_by = some actor.id;
    effective_from =
        effective_from_for_new_config at current.minimum_lead_time config.minimum_lead_time;
  })
  audit (some actor.id) "scheduling_config.updated" saved.id
  pure saved
