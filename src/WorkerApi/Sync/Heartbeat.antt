-- ===== src/WorkerApi/Sync/Heartbeat.antt =====
-- `Heartbeat` of server/go/internal/workerapi/sync.go, without faults of the environment.
use project_dia.Prelude.{◌≡◌, Bool, true, false, Option, some, List, String, where_, update}
use project_dia.Domain.{Uuid, Time, Worker}
use project_dia.Store.World.{StoredPassPlan, World, Db}
use project_dia.Store.Order.{order_by}
use project_dia.Store.Plans.{plans_of, is_planned}
use project_dia.Store.Workers.{is_worker, seen, synced, HeartbeatUpdate}
use project_dia.PassPlan.Wire.{Machine, PassPlan}
use project_dia.WorkerApi.Sync.{decode_all, HeartbeatRequest}

-- The plans that the tables hold for a station.
abbrev pub desired_in : Machine → Db → Uuid → Time → Option (List PassPlan)
desired_in m d station t =
    decode_all m
      (plans_of d.plans (order_by (λ p. p.aos_at) (where_ (is_planned station t) d.passes)))

-- A stored plan that the machine can decode.
abbrev pub CanBeRead : Machine → StoredPassPlan → Type 0
CanBeRead m r = (p : PassPlan) × (m.unmarshal r.encoded ≡ some p)

-- The workers after a heartbeat at a time, with or without a note that the worker is in step.
abbrev pub beaten : HeartbeatUpdate → Bool → String → List Worker → List Worker
beaten u true generation ws =
    update (is_worker u.worker_id) (synced u.seen_at generation)
      (update (is_worker u.worker_id) (seen u) ws)
beaten u false generation ws = update (is_worker u.worker_id) (seen u) ws

abbrev pub update_of : Uuid → Time → HeartbeatRequest → HeartbeatUpdate
update_of id at request = record {
  worker_id = id;
  seen_at = at;
  worker_version = request.worker_version;
  pending_uploads = request.pending_uploads;
  pending_reports = request.pending_reports;
}
