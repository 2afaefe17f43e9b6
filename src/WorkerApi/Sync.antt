-- ===== src/WorkerApi/Sync.antt =====
-- server/go/internal/workerapi/sync.go and service.go: the heartbeat of a worker, the monitor that
-- marks silent workers offline, and the synchronisation of plans.
pub mod Laws
pub mod Heartbeat
use project_dia.Prelude.{
  ℕ, ◌*◌, String, str_eq, not, Bool, true, false, Option, none, some, List, [], ◌∷◌, if◌then◌else◌,
}
use project_dia.Prelude.Int.{ℤ, pos, floor_div, ◌-ℤ◌}
use project_dia.Domain.{Entity, identified, named, Uuid, Time, second, Worker, online, state_eq}
use project_dia.Errors.{
  Error, status_error, invalid_argument, unknown_entity, internal, is_not_found,
}
use project_dia.Store.World.{
  Db, Action, StoredPassPlan, pure, raise, rescue, require, now, ◌>>=◌, ◌>>◌,
}
use project_dia.Store.Reads.{append_audit}
use project_dia.Store.Plans.{list_pass_plans_for_station}
use project_dia.Store.Workers.{
  get_worker_by_id, record_heartbeat, record_worker_sync, mark_stale_workers_offline,
}
use project_dia.PassPlan.Wire.{PassPlan, Machine}
use project_dia.PassPlan.Generate.{set_generation}

abbrev pub stale_after : ℤ
stale_after = pos (15 * second)

pub record HeartbeatRequest : Type 0 where
  pub worker_id : String
  pub worker_version : String
  pub pending_uploads : ℕ
  pub pending_reports : ℕ
  pub state_generation : String

pub record HeartbeatResponse : Type 0 where
  pub server_time_unix_ms : ℤ
  pub desired_generation : String
  pub state_is_current : Bool

-- A failure to write the audit record is logged and forgotten.
unfoldable pub audit_worker : String → Entity → Action (Unit {0})
audit_worker action id =
    rescue
      (append_audit (record {
        actor_user_id = none;
        action = action;
        entity_type = "worker";
        entity_id = id;
        reason = "";
      })
        >> pure tt)
      (λ _. pure tt)

-- The loop over the stored plans; one that cannot be read ends the request.
abbrev pub cons_if : Option PassPlan → Option (List PassPlan) → Option (List PassPlan)
cons_if (some p) (some ps) = some (p ∷ ps)
cons_if _ _ = none

abbrev pub decode_all : Machine → List StoredPassPlan → Option (List PassPlan)
decode_all m [] = some []
decode_all m (r ∷ rs) = cons_if (m.unmarshal r.encoded) (decode_all m rs)

-- The plans that a station should hold.
unfoldable pub desired_plans : Machine → Uuid → Action (List PassPlan)
desired_plans m station = do
  at ← now
  stored ← rescue (list_pass_plans_for_station station at) (λ _. raise (status_error internal))
  require (decode_all m stored) (status_error internal)

unfoldable pub desired_generation : Machine → Uuid → Action String
desired_generation m station = do plans ← desired_plans m station; pure (set_generation m plans)

abbrev pub announce : Worker → Action (Unit {0})
announce worker =
    if not (state_eq worker.connection_state online)
    then audit_worker "worker.online" (identified worker.id)
    else pure tt

-- A failure to record the synchronisation is logged and forgotten.
abbrev pub note_sync : Bool → Uuid → Time → String → Action (Unit {0})
note_sync false id at generation = pure tt
note_sync true id at generation = rescue (record_worker_sync id at generation) (λ _. pure tt)

-- `t.UnixMilli()`
abbrev pub unix_milli : Time → ℤ
unix_milli t = floor_div t 1000000

module _ (m : Machine) (parse_uuid : String → Option Uuid) where
  unfoldable pub heartbeat : HeartbeatRequest → Action HeartbeatResponse
  heartbeat request = do
    id ← require (parse_uuid request.worker_id) (status_error invalid_argument)
    worker ← rescue (get_worker_by_id id) λ e.
        if is_not_found e
        then raise (status_error unknown_entity)
        else raise (status_error internal)
    at ← now
    rescue
        (record_heartbeat (record {
          worker_id = id;
          seen_at = at;
          worker_version = request.worker_version;
          pending_uploads = request.pending_uploads;
          pending_reports = request.pending_reports;
        }))
        (λ _. raise (status_error internal))
    announce worker
    desired ← desired_generation m worker.station_id
    let current = str_eq desired request.state_generation
    note_sync current id at desired
    pure (record {
      server_time_unix_ms = unix_milli at;
      desired_generation = desired;
      state_is_current = current;
    })

  -- `none` says that nothing has changed; `some` is the set of plans with its generation.
  abbrev pub answer_with : Bool → List PassPlan → String → Option (List PassPlan × String)
  answer_with true plans generation = none
  answer_with false plans generation = some (plans, generation)

  unfoldable pub sync_pass_plans : String → String → Action (Option (List PassPlan × String))
  sync_pass_plans station current = do
    id ← require (parse_uuid station) (status_error invalid_argument)
    plans ← desired_plans m id
    let generation = set_generation m plans
    pure (answer_with (str_eq generation current) plans generation)

-- The loop over the names of the workers that have gone silent.
unfoldable pub audit_all : List String → Action (Unit {0})
audit_all [] = pure tt
audit_all (name ∷ names) = audit_worker "worker.offline" (named name) >> audit_all names

-- One tick of the monitor; a failure waits for the next tick.
unfoldable pub monitor_tick : Action (Unit {0})
monitor_tick = do
  at ← now
  names ← rescue (mark_stale_workers_offline (at -ℤ stale_after)) (λ _. pure [])
  audit_all names
