-- ===== src/PassPlan/Generate.antt =====
-- server/go/internal/passplan/generator.go: `Generate` and `GenerateAndStore`, with the track, the
-- pipeline and the generation of a plan.
use project_dia.Prelude.{
  ℕ, String, Bool, false, not, Option, none, some, List, map, first, if◌then◌else◌,
}
use project_dia.Prelude.Int.{pos, ◌+ℤ◌, ◌-ℤ◌, leb_ℤ}
use project_dia.Domain.{
  Uuid, minute, hour, Station, SchedulingConfig, TleRecord, Pass, approved, status_eq,
}
use project_dia.Domain.Clock.{negate}
use project_dia.Errors.{not_approved, no_matching_prediction, encoding_failed, prediction_failed}
use project_dia.Prediction.{TrackPoint, PredictedPass, PredictionRequest}
use project_dia.Store.World.{Action, Pipeline, pure, now, refuse_if, require, advance, ◌>>=◌, ◌>>◌}
use project_dia.Store.Reads.{
  get_satellite_by_id, get_station_by_id, get_tle_record_by_id, get_station_worker,
  get_scheduling_config_by_id, get_pipeline_by_id,
}
use project_dia.Store.Plans.{upsert_pass_plan}
use project_dia.Domain.Clock.{difference}
use project_dia.PassPlan.Wire.{
  plan_version, track_step, RadioSettings, SatdumpPipeline, PassPlan, Machine, Generator, int32,
  band_to_proto, recording_mode_to_proto,
}
use project_dia.PassPlan.Radio.{radio_for}

abbrev pub no_pipeline : SatdumpPipeline
no_pipeline = record {
  identifier = "";
  is_custom = false;
  checksum_sha256 = "";
  definition_json = "";
}

abbrev pub wire_pipeline : Pipeline → SatdumpPipeline
wire_pipeline p = record {
  identifier = p.name;
  is_custom = p.is_custom;
  checksum_sha256 = p.checksum_sha256;
  definition_json = if p.is_custom then p.definition else "";
}

unfoldable pub pipeline_of : Option Uuid → Action SatdumpPipeline
pipeline_of none = pure no_pipeline
pipeline_of (some id) = do pipeline ← get_pipeline_by_id id; pure (wire_pipeline pipeline)

abbrev pub track_request : Station → Pass → TleRecord → SchedulingConfig → PredictionRequest
track_request station pass elements config = record {
  line1 = elements.line1;
  line2 = elements.line2;
  latitude_degrees = station.latitude;
  longitude_degrees = station.longitude;
  altitude_m = station.altitude_m;
  minimum_elevation_degrees = config.minimum_elevation_degrees;
  search_start = pass.aos_at -ℤ pos hour;
  search_end = pass.los_at +ℤ pos hour;
  track_step = track_step;
}

abbrev pub is_track_of : Pass → PredictedPass → Bool
is_track_of pass candidate = leb_ℤ (difference candidate.aos pass.aos_at) (pos minute)

unfoldable pub predict_track : Generator → PredictionRequest → Action (List PredictedPass)
predict_track g request w = require (g.predictor w.tick request) prediction_failed (advance w)

unfoldable pub track_for : Generator → Station → Pass → TleRecord → Action (List TrackPoint)
track_for g station pass elements = do
  config ← get_scheduling_config_by_id pass.scheduling_config_id
  candidates ← predict_track g (track_request station pass elements config)
  candidate ← require (first (is_track_of pass) candidates) no_matching_prediction
  pure candidate.track

-- The hash of the plan without its generation and its time.
abbrev pub hash_of : Machine → Option (List ℕ) → Option String
hash_of m none = none
hash_of m (some encoded) = some (m.sha256_hex encoded)

unfoldable pub generation_of : Machine → PassPlan → Option String
generation_of m plan = hash_of m (m.marshal (record plan { generated_at = none; generation = "" }))

-- The literal that `Generate` fills.
abbrev pub new_plan :
    Pass
    → ℕ
    → String
    → TleRecord
    → Uuid
    → RadioSettings
    → SatdumpPipeline
    → List TrackPoint
    → PassPlan
new_plan pass norad_id name elements worker radio pipeline track = record {
  plan_version = plan_version;
  generation = "";
  generated_at = none;
  pass_id = pass.id;
  station_id = pass.station_id;
  worker_id = worker;
  norad_id = int32 norad_id;
  satellite_name = name;
  elements = record {
    line1 = elements.line1;
    line2 = elements.line2;
    epoch = elements.epoch;
    tle_record_id = elements.id;
  };
  aos = pass.aos_at;
  los = pass.los_at;
  tca = pass.tca_at;
  max_elevation_degrees = pass.max_elevation_degrees;
  recording_start = pass.aos_at +ℤ negate pass.recording_pre_roll;
  recording_end = pass.los_at +ℤ pass.recording_post_roll;
  band = band_to_proto pass.band;
  radio = radio;
  recording_mode = recording_mode_to_proto pass.recording_mode;
  pipeline = pipeline;
  track = track;
}

unfoldable pub generate : Generator → Pass → Action PassPlan
generate g pass = do
  refuse_if (not (status_eq pass.status approved)) (not_approved pass.status)
  satellite ← get_satellite_by_id pass.satellite_id
  station ← get_station_by_id pass.station_id
  elements ← get_tle_record_by_id pass.tle_record_id
  worker ← get_station_worker pass.station_id
  radio ← radio_for g.machine station pass
  pipeline ← pipeline_of pass.pipeline_id
  track ← track_for g station pass elements
  let plan = new_plan pass satellite.norad_id satellite.name elements worker.id radio pipeline track
  generation ← require (generation_of g.machine plan) encoding_failed
  pure (record plan { generation = generation })

unfoldable pub generate_and_store : Generator → Pass → Action (PassPlan × Bool)
generate_and_store g pass = do
  plan ← generate g pass
  at ← now
  let dated = record plan { generated_at = some at }
  encoded ← require (g.machine.marshal dated) encoding_failed
  changed ← upsert_pass_plan (record {
    pass_id = pass.id;
    generation = dated.generation;
    plan_version = dated.plan_version;
    encoded = encoded;
    generated_at = at;
  })
  pure (dated, changed)

-- `SetGeneration`
unfoldable pub set_generation : Machine → List PassPlan → String
set_generation m plans = m.sha256_of_texts (map (λ p. p.generation) plans)
