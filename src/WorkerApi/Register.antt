-- ===== src/WorkerApi/Register.antt =====
-- server/go/internal/workerapi/service.go and sync.go: the shared secret, and the registration of a
-- worker. The metadata of a call are the values of its header `authorization`, none where there are
-- no metadata at all.
use project_dia.Prelude.{
  String, str_eq, Bool, false, Option, none, some, List, [], ◌∷◌, if◌then◌else◌,
}
use project_dia.Prelude.Text.{Text, codes, text_eq, after_prefix}
use project_dia.Domain.{Uuid, identified}
use project_dia.Errors.{
  Error, is_not_found, status_error, invalid_argument, unknown_entity, internal,
}
use project_dia.Store.World.{Action, pure, raise, rescue, refuse_if, ◌>>=◌, ◌>>◌}
use project_dia.Store.Reads.{get_station_by_id}
use project_dia.Store.Workers.{get_worker_by_name}
use project_dia.Store.Pipelines.{replace_standard_pipelines}
use project_dia.WorkerApi.Sync.{audit_worker}

-- `strings.TrimPrefix`
abbrev pub or_whole : Text → Option Text → Text
or_whole whole none = whole
or_whole whole (some rest) = rest

unfoldable pub valid_secret : Text → Option (List Text) → Bool
unfolding after_prefix text_eq
valid_secret expected (some (value ∷ [])) =
    text_eq (or_whole value (after_prefix (codes "Bearer ") value)) expected
valid_secret expected _ = false

pub record RegisterRequest : Type 0 where
  pub worker_name : String
  pub available_pipelines : List String

pub record RegisterResponse : Type 0 where
  pub worker_id : Uuid
  pub station_id : Uuid
  pub station_name : String

-- A failure to record the pipelines is logged and forgotten.
abbrev pub record_pipelines : List String → Action (Unit {0})
record_pipelines [] = pure tt
record_pipelines (name ∷ names) =
    rescue (replace_standard_pipelines (name ∷ names) >> pure tt) (λ _. pure tt)

abbrev pub worker_error : Error → Error
worker_error e = if is_not_found e then status_error unknown_entity else status_error internal

unfoldable pub register : RegisterRequest → Action RegisterResponse
unfolding replace_standard_pipelines
register request = do
  refuse_if (str_eq request.worker_name "") (status_error invalid_argument)
  worker ← rescue (get_worker_by_name request.worker_name) (λ e. raise (worker_error e))
  station ← rescue (get_station_by_id worker.station_id) (λ _. raise (status_error internal))
  record_pipelines request.available_pipelines
  audit_worker "worker.registered" (identified worker.id)
  pure (record { worker_id = worker.id; station_id = station.id; station_name = station.name })
