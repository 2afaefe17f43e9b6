-- ===== src/Scheduling/Service/Requests.antt =====
-- `RequestPass` up to the insertion of the row, when nothing stands in the way.
use project_dia.Prelude.{
  if◌then◌else◌, ◌≡◌, refl, ap, ◌∙◌, not, ◌&&◌, true, false, none, some, List, [], first, where_,
  ◌==◌,
}
use project_dia.Domain.{
  Uuid, Time, User, Pass, Station, SchedulingConfig, Worker, Satellite, TleRecord, vhf, uhf, online,
  band_eq, state_eq,
}
use project_dia.Prediction.{PredictedPass}
use project_dia.Errors.{is_station_overlap}
use project_dia.Store.World.{
  World, Action, ok, handle, pure, raise, rescue, advance, query, refuse_if, ◌>>=◌, ◌>>◌,
}
use project_dia.Store.World.Laws.{
  NoFaults, wrote, bind_ok, then_ok, found_row, statement_lem, now_lem, not_refused, require_lem,
}
use project_dia.Store.Order.{order_by, latest}
use project_dia.Store.Reads.{
  get_satellite_by_id, list_stations, latest_effective_scheduling_config, config_newer,
  is_effective, get_station_worker, worker_older, latest_tle_record, tle_newer,
}
use project_dia.Store.Passes.{inserted, create_pass}
use project_dia.Scheduling.Rules.{reservation_for, check_lead_time, band_mismatch_warning}
use project_dia.Scheduling.Service.{
  conflict_for, Service, RequestInput, Booked, head, request_for, matches, predict, resolve_pass,
  station_and_config, require_worker_online, needs_pipeline, mode_or_raw, is_none, new_pass, audit,
  warnings_of,
}
use project_dia.Scheduling.Service.Booking.{request_pass, refuse_some}

-- The world after a statement that only reads, and after a reading of the clock.
abbrev read : World → World
read w = wrote w w.db

-- The worlds in which `RequestPass` reads the clock, first for the configuration and then for the lead
-- time, asks the predictor, and inserts the row.
abbrev pub at_config : World → World
at_config w = read (read w)

abbrev pub at_prediction : World → World
at_prediction w = read (read (read (advance (at_config w))))

abbrev pub at_lead_time : World → World
at_lead_time w = advance (at_prediction w)

abbrev pub at_insert : World → World
at_insert w = advance (at_lead_time w)

-- What a booking finds when nothing stands in its way.
pub record Bookable (s : Service) (input : RequestInput) (w : World) : Type 0 where
  pub satellite : Satellite
  pub station : Station
  pub config : SchedulingConfig
  pub worker : Worker
  pub tle : TleRecord
  pub candidates : List PredictedPass
  pub predicted : PredictedPass
  pub has_satellite : first (λ x. x.id == input.satellite_id) w.db.satellites ≡ some satellite
  pub schedulable : satellite.is_schedulable ≡ true
  pub valid_band : (not (band_eq input.band vhf) && not (band_eq input.band uhf)) ≡ false
  pub has_station : head (order_by (λ x. x.created_at) w.db.stations) ≡ some station
  pub has_config :
      latest config_newer
        (where_ (is_effective station.id (w.env.clock (at_config w).tick)) w.db.configs)
      ≡ some config
  pub has_worker :
      latest worker_older (where_ (λ x. x.station_id == station.id) w.db.workers) ≡ some worker
  pub is_online : worker.connection_state ≡ online
  pub has_tle :
      latest tle_newer (where_ (λ x. x.satellite_id == satellite.id) w.db.tle_records) ≡ some tle
  pub predicts :
      s.predictor (at_prediction w).tick (request_for station config tle input.requested_aos)
      ≡ some candidates
  pub is_matched : first (matches input.requested_aos) candidates ≡ some predicted
  pub early : check_lead_time (w.env.clock (at_lead_time w).tick) predicted.aos config ≡ none
  pub has_pipeline :
      (needs_pipeline (mode_or_raw input.recording_mode) && is_none input.pipeline_id) ≡ false

-- The row that the booking inserts.
abbrev pub row_of :
    (s : Service) (actor : User) (input : RequestInput) (w : World) → Bookable s input w → Pass
row_of s actor input w b = inserted (w.env.uuid (at_insert w).tick) (
    new_pass actor input b.satellite b.station b.config b.tle b.predicted
      (reservation_for b.predicted.aos b.predicted.los b.config))

station_and_config_lem :
    (w : World) (station : Station) (config : SchedulingConfig)
    → NoFaults w
    → head (order_by (λ x. x.created_at) w.db.stations) ≡ some station
    → latest config_newer
        (where_ (is_effective station.id (w.env.clock (read w).tick)) w.db.configs)
      ≡ some config
    → station_and_config w ≡ (ok (station, config), read (advance (read w)))
unfolding station_and_config list_stations latest_effective_scheduling_config query pure
station_and_config_lem w station config n hs hc =
    bind_ok _ _ w (read w) _ (statement_lem _ w n)
    ∙ bind_ok _ _ (read w) (read w) station (require_lem _ _ station _ hs)
    ∙ bind_ok _ _ (read w) (advance (read w)) _ (now_lem (read w))
    ∙ bind_ok _ _ (advance (read w)) (read (advance (read w))) config
        (found_row _ (advance (read w)) config n hc)

require_worker_online_lem :
    (s : Uuid) (x : Worker) (w : World)
    → NoFaults w
    → latest worker_older (where_ (λ y. y.station_id == s) w.db.workers) ≡ some x
    → x.connection_state ≡ online
    → require_worker_online s w ≡ (ok tt, read w)
unfolding require_worker_online get_station_worker rescue refuse_if pure state_eq
require_worker_online_lem s x w n h e =
    bind_ok _ _ w (read w) x (ap (handle _) (found_row _ w x n h)) ∙ rw e refl

resolve_pass_lem :
    (s : Service) (station : Station) (config : SchedulingConfig) (tle : TleRecord) (aos : Time)
    (candidates : List PredictedPass) (predicted : PredictedPass) (w : World)
    → s.predictor w.tick (request_for station config tle aos) ≡ some candidates
    → first (matches aos) candidates ≡ some predicted
    → resolve_pass s station config tle aos w ≡ (ok predicted, advance w)
unfolding resolve_pass predict
resolve_pass_lem s station config tle aos candidates predicted w h m =
    bind_ok _ _ w (advance w) candidates (require_lem _ _ candidates _ h)
    ∙ require_lem _ _ predicted _ m

-- What is left to do when every check has passed.
abbrev pub finish :
    (s : Service) (actor : User) (input : RequestInput) (w : World)
    → Bookable s input w
    → Action Booked
finish s actor input w b =
    let reservation = reservation_for b.predicted.aos b.predicted.los b.config in
    do
      created ←
          rescue
            (create_pass
              (new_pass actor input b.satellite b.station b.config b.tle b.predicted reservation))
            λ e.
              if is_station_overlap e
              then (do refusal ← conflict_for b.station.id reservation; raise refusal)
              else raise e
      audit (some actor.id) "pass.requested" created.id
      pure (record {
        pass = created;
        warnings = warnings_of (band_mismatch_warning input.band b.station.active_rf_band);
        overridden_pass_ids = [];
      })

pub request_pass-finish :
    (s : Service) (actor : User) (input : RequestInput) (w : World) (b : Bookable s input w)
    → NoFaults w
    → request_pass s actor input w ≡ finish s actor input w b (at_insert w)
unfolding request_pass get_satellite_by_id latest_tle_record rescue pure
request_pass-finish s actor input w b n =
    let w1 = read w in
    let w4 = read (advance (at_config w)) in
    let w8 = at_insert w in
    bind_ok _ _ w w1 b.satellite (found_row _ w _ n b.has_satellite)
    ∙ then_ok _ _ w1 w1 tt (rw b.schedulable (not_refused _ w1))
    ∙ then_ok _ _ w1 w1 tt (rw b.valid_band (not_refused _ w1))
    ∙ bind_ok _ _ w1 w4 (b.station, b.config)
        (station_and_config_lem w1 b.station b.config n b.has_station b.has_config)
    ∙ then_ok _ _ w4 (read w4) tt
        (require_worker_online_lem b.station.id b.worker w4 n b.has_worker b.is_online)
    ∙ bind_ok _ _ (read w4) (at_prediction w) b.tle
        (ap (handle _) (found_row _ (read w4) b.tle n b.has_tle))
    ∙ bind_ok _ _ (at_prediction w) (at_lead_time w) b.predicted (
        resolve_pass_lem s b.station b.config b.tle input.requested_aos b.candidates b.predicted
          (at_prediction w) b.predicts b.is_matched)
    ∙ bind_ok _ _ (at_lead_time w) w8 _ (now_lem (at_lead_time w))
    ∙ then_ok _ _ w8 w8 tt (ap (λ o. refuse_some o w8) b.early)
    ∙ then_ok _ _ w8 w8 tt (rw b.has_pipeline (not_refused _ w8))
