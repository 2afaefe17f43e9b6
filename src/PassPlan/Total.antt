-- ===== src/PassPlan/Total.antt =====
-- What server/go/internal/passplan/generator.go needs to return a plan.
use project_dia.Prelude.{
  String, ℕ, ◌≡◌, refl, ap, ◌∙◌, false, Option, none, some, List, first, where_, ◌==◌, arith,
}
use project_dia.Prelude.Int.{ℤ, pos, leb_ℤ, ◌<ℤ◌}
use project_dia.Domain.{
  Uuid, Station, SchedulingConfig, Worker, Satellite, TleRecord, Pass, StationBandConfig, approved,
  status_eq, band_eq,
}
use project_dia.Prediction.{PredictedPass}
use project_dia.Store.World.{advance, World, Db, Pipeline, ok, pure, query}
use project_dia.Store.World.Laws.{
  NoFaults, wrote, bind_ok, then_ok, found_row, statement_lem, not_refused, require_lem,
}
use project_dia.Store.Order.{order_by, latest}
use project_dia.Store.Reads.{
  get_satellite_by_id, get_station_by_id, get_tle_record_by_id, get_station_worker,
  get_scheduling_config_by_id, get_station_band_configs, get_pipeline_by_id, selected_row,
  band_place, worker_older,
}
use project_dia.PassPlan.Wire.{Machine, Generator, PassPlan, RadioSettings, SatdumpPipeline}
use project_dia.PassPlan.Radio.{radio_for, station_radio, apply_radio_overrides}
use project_dia.PassPlan.Content.{IsTuned}
use project_dia.PassPlan.Generate.{
  no_pipeline, wire_pipeline, pipeline_of, track_request, is_track_of, predict_track, track_for,
  generation_of, new_plan, generate,
}

-- The radio that the tables and the pass ask for.
abbrev pub configs_in : Db → Uuid → List StationBandConfig
configs_in db station =
    order_by (λ c. band_place c.band) (where_ (λ c. c.station_id == station) db.band_configs)

abbrev pub radio_in : Machine → Db → Station → Pass → RadioSettings
radio_in m db station pass =
    apply_radio_overrides m
      (station_radio (first (λ c. band_eq c.band pass.band) (configs_in db station.id)))
      pass.radio_settings

-- The pipeline that the tables hold for the pass, if it asks for one.
abbrev pub wired : Option Pipeline → Option SatdumpPipeline
wired none = none
wired (some p) = some (wire_pipeline p)

abbrev pub pipeline_in : Db → Option Uuid → Option SatdumpPipeline
pipeline_in db none = some no_pipeline
pipeline_in db (some id) = wired (selected_row (first (λ p. p.id == id) db.pipelines))

-- The world after a statement that only reads.
abbrev pub read : World → World
read w = wrote w w.db

not_positive : (z : ℤ) → pos 0 <ℤ z → leb_ℤ z (pos 0) ≡ false
not_positive z h = ground arith

radio_for_lem :
    (m : Machine) (s : Station) (p : Pass) (w : World)
    → NoFaults w
    → IsTuned (radio_in m w.db s p)
    → radio_for m s p w ≡ (ok (radio_in m w.db s p), read w)
unfolding radio_for get_station_band_configs query pure
radio_for_lem m s p w n tuned =
    bind_ok _ _ w (read w) (configs_in w.db s.id) (statement_lem _ w n)
    ∙ then_ok _ _ (read w) (read w) tt (rw (not_positive _ tuned.0) (not_refused _ _))
    ∙ then_ok _ _ (read w) (read w) tt (rw (not_positive _ tuned.1) (not_refused _ _))

wired_row :
    (o : Option Pipeline) (q : SatdumpPipeline)
    → wired o ≡ some q
    → (p : Pipeline) × (o ≡ some p) × (wire_pipeline p ≡ q)
wired_row none q h = cc
wired_row (some p) q h = (p, refl, cc)

pipeline_of_lem :
    (o : Option Uuid) (w : World) (q : SatdumpPipeline)
    → NoFaults w
    → pipeline_in w.db o ≡ some q
    → (v : World) × (pipeline_of o w ≡ (ok q, v)) × (v.env ≡ w.env) × (v.db ≡ w.db)
unfolding pipeline_of get_pipeline_by_id pure
pipeline_of_lem none w q n h =
    let same : no_pipeline ≡ q = cc in (w, ap (λ x. (ok x, w)) same, refl, refl)
pipeline_of_lem (some id) w q n h =
    let (p, found, same) = wired_row (selected_row (first (λ p. p.id == id) w.db.pipelines)) q h in
    (
      read w,
      bind_ok _ _ w (read w) p (found_row _ w p n found) ∙ ap (λ x. (ok x, read w)) same,
      refl,
      refl,
    )

track_for_lem :
    (g : Generator) (s : Station) (p : Pass) (t : TleRecord) (w : World) (config : SchedulingConfig)
    (candidates : List PredictedPass) (candidate : PredictedPass)
    → NoFaults w
    → first (λ c. c.id == p.scheduling_config_id) w.db.configs ≡ some config
    → g.predictor (read w).tick (track_request s p t config) ≡ some candidates
    → first (is_track_of p) candidates ≡ some candidate
    → track_for g s p t w ≡ (ok candidate.track, advance (read w))
unfolding track_for get_scheduling_config_by_id predict_track pure
track_for_lem g s p t w config candidates candidate n found predicted matched =
    bind_ok _ _ w (read w) config (found_row _ w config n found)
    ∙ bind_ok _ _ (read w) (advance (read w)) candidates (require_lem _ _ candidates _ predicted)
    ∙ bind_ok _ _ _ _ candidate (require_lem _ _ candidate _ matched)

-- What the tables hold for a pass.
pub record Inputs (g : Generator) (p : Pass) (d : Db) : Type 0 where
  pub satellite : Satellite
  pub station : Station
  pub elements : TleRecord
  pub worker : Worker
  pub pipeline : SatdumpPipeline
  pub config : SchedulingConfig
  pub candidates : List PredictedPass
  pub candidate : PredictedPass
  pub has_satellite : first (λ s. s.id == p.satellite_id) d.satellites ≡ some satellite
  pub has_station : first (λ s. s.id == p.station_id) d.stations ≡ some station
  pub has_elements : first (λ r. r.id == p.tle_record_id) d.tle_records ≡ some elements
  pub has_worker :
      latest worker_older (where_ (λ w. w.station_id == p.station_id) d.workers) ≡ some worker
  pub has_pipeline : pipeline_in d p.pipeline_id ≡ some pipeline
  pub has_config : first (λ c. c.id == p.scheduling_config_id) d.configs ≡ some config
  pub is_tuned : IsTuned (radio_in g.machine d station p)
  pub predicts : (k : ℕ) → g.predictor k (track_request station p elements config) ≡ some candidates
  pub matches : first (is_track_of p) candidates ≡ some candidate

-- The plan that these inputs make up, before its generation is known.
abbrev pub plan_from : (g : Generator) (p : Pass) (d : Db) → Inputs g p d → PassPlan
plan_from g p d i =
    new_plan p i.satellite.norad_id i.satellite.name i.elements i.worker.id
      (radio_in g.machine d i.station p) i.pipeline i.candidate.track

-- If the pass is approved, the tables hold its satellite, station, orbital data, worker, settings and
-- pipeline, the radio is set, the predictor answers with a pass that starts within a minute of it,
-- and the plan can be encoded, then the generator returns the plan that these make up.
pub generate_total :
    (g : Generator) (p : Pass) (w : World) (i : Inputs g p w.db) (generation : String)
    → NoFaults w
    → p.status ≡ approved
    → generation_of g.machine (plan_from g p w.db i) ≡ some generation
    → (generate g p w).0 ≡ ok (record (plan_from g p w.db i) { generation = generation })
unfolding generate get_station_by_id get_tle_record_by_id get_satellite_by_id get_station_worker
    pure status_eq
generate_total g p w i generation n is_approved hashed =
    let w1 = read w in
    let w4 = read (read (read w1)) in
    let w5 = read w4 in
    let (v, run, env, tables) = pipeline_of_lem p.pipeline_id w5 i.pipeline n i.has_pipeline in
    let quiet : NoFaults v = λ k. ap (λ e. e.fault k) env ∙ n k in
    ap (λ r. r.0)
      (then_ok _ _ w w tt (rw is_approved (not_refused _ w))
        ∙ bind_ok _ _ w w1 i.satellite (found_row _ w _ n i.has_satellite)
        ∙ bind_ok _ _ w1 (read w1) i.station (found_row _ w1 _ n i.has_station)
        ∙ bind_ok _ _ (read w1) (read (read w1)) i.elements
            (found_row _ (read w1) _ n i.has_elements)
        ∙ bind_ok _ _ (read (read w1)) w4 i.worker (found_row _ (read (read w1)) _ n i.has_worker)
        ∙ bind_ok _ _ w4 w5 _ (radio_for_lem g.machine i.station p w4 n i.is_tuned)
        ∙ bind_ok _ _ w5 v i.pipeline run
        ∙ bind_ok _ _ v (advance (read v)) i.candidate.track (
            track_for_lem g i.station p i.elements v i.config i.candidates i.candidate quiet
              (ap (λ d. first (λ c. c.id == p.scheduling_config_id) d.configs) tables
                ∙ i.has_config)
              (i.predicts _) i.matches)
        ∙ bind_ok _ _ _ (advance (read v)) generation (require_lem _ _ generation _ hashed))
