-- ===== src/Scheduling/Service.antt =====
-- server/go/internal/scheduling/service.go: what its operations share. The predictor is a service
-- that the program only calls: its reply to the request made at the n-th event is a parameter, and
-- so is the plan generator, which may be missing.
pub mod Booking
pub mod Decisions
pub mod Exact
pub mod Hull
pub mod Requests
pub mod Outcome
pub mod Override
use project_dia.Prelude.{
  ℕ, ◌*◌, ◌≡◌, Bool, true, false, not, ◌&&◌, ◌||◌, Option, none, some, List, [], ◌∷◌, ◌==◌,
  if◌then◌else◌, first, String,
}
use project_dia.Prelude.Int.{ℤ, pos, ◌+ℤ◌, ◌-ℤ◌, ltb_ℤ, leb_ℤ}
use project_dia.Domain.{
  identified, Uuid, Time, Duration, Float64, second, minute, hour, Any, User, Station,
  SchedulingConfig, Worker, Satellite, TleRecord, Pass, AuditRecord, RfBand, vhf, uhf,
  PassVisibility, private, RecordingMode, raw, process, raw_and_process, PassStatus,
  pending_approval, online, band_eq, state_eq, visibility_is_empty, mode_is_empty,
}
use project_dia.Domain.Clock.{difference}
use project_dia.Errors.{
  Error, not_found, conflict, worker_offline, pass_not_found, no_station, prediction_failed,
  is_not_found,
}
use project_dia.PassPlan.Wire.{PassPlan}
use project_dia.Prediction.{PredictionRequest, PredictedPass}
use project_dia.Store.World.{
  World, Result, ok, err, Action, pure, raise, rescue, now, refuse_if, require, advance, ◌>>=◌,
  ◌>>◌,
}
use project_dia.Store.Reads.{
  list_stations, latest_effective_scheduling_config, get_station_worker, append_audit,
}
use project_dia.Store.Passes.{find_conflicting_passes}
use project_dia.Scheduling.StateMachine.{live_statuses}
use project_dia.Scheduling.Rules.{Reservation, Warning, before, band_mismatch_warning}

abbrev pub match_tolerance : ℤ
match_tolerance = pos (2 * minute)

abbrev pub search_margin : ℤ
search_margin = pos (3 * hour)

abbrev pub track_step : ℤ
track_step = pos (5 * second)

pub record Service : Type 0 where
  pub predictor : ℕ → PredictionRequest → Option (List PredictedPass)
  pub plans : Option (Pass → Action (PassPlan × Bool))

pub record RequestInput : Type 0 where
  pub satellite_id : Uuid
  pub requested_aos : Time
  pub band : RfBand
  pub recording_mode : RecordingMode
  pub visibility : PassVisibility
  pub pipeline_id : Option Uuid
  pub radio_settings : List (String × Any)

pub record Booked : Type 0 where
  pub pass : Pass
  pub warnings : List Warning
  pub overridden_pass_ids : List Uuid

-- The request that `resolvePass` sends.
abbrev pub request_for : Station → SchedulingConfig → TleRecord → Time → PredictionRequest
request_for station config tle requested_aos = record {
  line1 = tle.line1;
  line2 = tle.line2;
  latitude_degrees = station.latitude;
  longitude_degrees = station.longitude;
  altitude_m = station.altitude_m;
  minimum_elevation_degrees = config.minimum_elevation_degrees;
  search_start = requested_aos -ℤ search_margin;
  search_end = requested_aos +ℤ search_margin;
  track_step = track_step;
}

abbrev pub matches : Time → PredictedPass → Bool
matches requested_aos candidate = leb_ℤ (difference candidate.aos requested_aos) match_tolerance

unfoldable pub predict : Service → PredictionRequest → Action (List PredictedPass)
unfolding require
predict s request w = require (s.predictor w.tick request) prediction_failed (advance w)

unfoldable pub resolve_pass :
    Service → Station → SchedulingConfig → TleRecord → Time → Action PredictedPass
resolve_pass s station config tle requested_aos = do
  candidates ← predict s (request_for station config tle requested_aos)
  require (first (matches requested_aos) candidates) pass_not_found

-- The loop of `conflictFor` over the conflicts after the first.
unfoldable pub widen : Time → Time → List Pass → Error
widen from to [] = conflict from to
widen from to (p ∷ ps) =
    widen (if before p.reserved_from from then p.reserved_from else from)
      (if before to p.reserved_to then p.reserved_to else to) ps

abbrev pub conflict_error : Reservation → List Pass → Error
conflict_error r [] = conflict r.from r.to
conflict_error r (p ∷ ps) = widen p.reserved_from p.reserved_to ps

-- The error that names the occupied period; it falls back to the reservation asked for.
unfoldable pub conflict_for : Uuid → Reservation → Action Error
conflict_for station r =
    rescue
      (do
        conflicts ← find_conflicting_passes station r.from r.to live_statuses
        pure (conflict_error r conflicts))
      (λ _. pure (conflict r.from r.to))

abbrev pub head : List Station → Option Station
head [] = none
head (x ∷ xs) = some x

unfoldable pub station_and_config : Action (Station × SchedulingConfig)
station_and_config = do
  stations ← list_stations
  station ← require (head stations) no_station
  at ← now
  config ← latest_effective_scheduling_config station.id at
  pure (station, config)

unfoldable pub require_worker_online : Uuid → Action (Unit {0})
require_worker_online station = do
  worker ←
      rescue (get_station_worker station)
        λ e. if is_not_found e then raise worker_offline else raise e
  refuse_if (not (state_eq worker.connection_state online)) worker_offline

abbrev pub generate_plan_with : Option (Pass → Action (PassPlan × Bool)) → Pass → Action (Unit {0})
generate_plan_with none pass = pure tt
generate_plan_with (some generate) pass = generate pass >> pure tt

unfoldable pub generate_plan : Service → Pass → Action (Unit {0})
generate_plan s pass = generate_plan_with s.plans pass

-- A failure to write the audit record is logged and forgotten.
unfoldable pub audit : Option Uuid → String → Uuid → Action (Unit {0})
audit actor action id =
    rescue
      (append_audit (record {
        actor_user_id = actor;
        action = action;
        entity_type = "pass";
        entity_id = identified id;
        reason = "";
      })
        >> pure tt)
      (λ _. pure tt)

unfoldable pub needs_pipeline : RecordingMode → Bool
needs_pipeline process = true
needs_pipeline raw_and_process = true
needs_pipeline _ = false

-- The steps on the input that both ways of booking share: the defaults and the warning.
abbrev pub visibility_or_private : PassVisibility → PassVisibility
visibility_or_private v = if visibility_is_empty v then private else v

abbrev pub mode_or_raw : RecordingMode → RecordingMode
mode_or_raw m = if mode_is_empty m then raw else m

abbrev pub warnings_of : Option Warning → List Warning
warnings_of none = []
warnings_of (some w) = w ∷ []

abbrev pub is_none {ℓ} : {A : Type ℓ} → Option A → Bool
is_none none = true
is_none (some a) = false

-- The literal that both ways of booking hand to `CreatePass`; the database sets the identifier.
abbrev pub new_pass :
    User
    → RequestInput
    → Satellite
    → Station
    → SchedulingConfig
    → TleRecord
    → PredictedPass
    → Reservation
    → Pass
new_pass actor input satellite station config tle predicted reservation = record {
  id = 0;
  station_id = station.id;
  satellite_id = satellite.id;
  requested_by = actor.id;
  tle_record_id = tle.id;
  scheduling_config_id = config.id;
  status = pending_approval;
  visibility = visibility_or_private input.visibility;
  band = input.band;
  aos_at = predicted.aos;
  los_at = predicted.los;
  tca_at = some predicted.tca;
  max_elevation_degrees = predicted.max_elevation_degrees;
  reserved_from = reservation.from;
  reserved_to = reservation.to;
  recording_mode = mode_or_raw input.recording_mode;
  recording_pre_roll = config.recording_pre_roll;
  recording_post_roll = config.recording_post_roll;
  pipeline_id = input.pipeline_id;
  radio_settings = input.radio_settings;
  approved_by = none;
  approved_at = none;
  cancellation_reason = none;
  cancelled_by = none;
  cancelled_at = none;
}
