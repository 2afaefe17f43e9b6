-- ===== src/PassPlan/Described.antt =====
-- What the plans of server/go/internal/passplan/generator.go say, spelled out from the tables.
pub mod Generated
use mathlib.Core.Path.{subst}
use project_dia.Prelude.{
  ℕ, String, Bool, true, false, ◌≡◌, refl, sym, ap, ◌∙◌, ◌⊎◌, Option, none, some, List, [], ◌∷◌,
  ◌++◌, All, first, where_, ◌==◌, ◌<◌, arith, Bool-cases, inl, inr,
}
use project_dia.Prelude.Int.{
  ℤ, pos, pos_part, neg_part, leb_ℤ, ltb_ℤ, ◌+ℤ◌, ◌-ℤ◌, ◌≤ℤ◌, ◌<ℤ◌, +ℤ_parts, -ℤ_parts, eq_of_parts,
}
use project_dia.Domain.{
  Uuid, Time, minute, Station, SchedulingConfig, Worker, Satellite, TleRecord, Pass,
  StationBandConfig, RfBand, vhf, uhf, RecordingMode, raw, process, raw_and_process, approved,
  band_eq,
}
use project_dia.Domain.Clock.Laws.{difference_lem, less_lem}
use project_dia.Domain.Clock.{min_duration, max_duration, difference, sub_time, negate}
use project_dia.Prediction.{PredictedPass, PredictionRequest, TrackPoint}
use project_dia.Store.World.{World, Db, Pipeline, ok}
use project_dia.Store.World.Laws.{NoFaults}
use project_dia.Store.Order.{latest}
use project_dia.Store.Reads.{worker_older, selected_row}
use project_dia.PassPlan.Wire.{
  Machine, Generator, PassPlan, RadioSettings, SatdumpPipeline, WireBand, band_unspecified,
  band_vhf, band_uhf, WireMode, mode_unspecified, mode_raw, mode_process, mode_raw_and_process,
  int32, band_to_proto, recording_mode_to_proto,
}
use project_dia.PassPlan.Generate.{is_track_of, generation_of, hash_of, generate}
use project_dia.PassPlan.Content.{IsTuned}
use project_dia.PassPlan.Radio.{apply_radio_overrides}
use project_dia.PassPlan.Total.{
  configs_in, pipeline_in, radio_in, Inputs, plan_from, generate_total,
}

-- The words of the protocol for a band and for a mode.
pub data IsBand : RfBand → WireBand → Type 0 where
  is_vhf : IsBand vhf band_vhf
  is_uhf : IsBand uhf band_uhf
  no_band : (s : String) → IsBand (RfBand.unknown s) band_unspecified

pub data IsMode : RecordingMode → WireMode → Type 0 where
  is_raw : IsMode raw mode_raw
  is_process : IsMode process mode_process
  is_both : IsMode raw_and_process mode_raw_and_process
  no_mode : (s : String) → IsMode (RecordingMode.unknown s) mode_unspecified

-- A pipeline on the wire: none, or the row of the table without its definition.
pub data IsPipeline (d : Db) : Option Uuid → SatdumpPipeline → Type 0 where
  no_row :
      IsPipeline d none
        (record { identifier = ""; is_custom = false; checksum_sha256 = ""; definition_json = "" })
  row :
      (id : Uuid) (p : Pipeline)
      → first (λ q. q.id == id) d.pipelines ≡ some p
      → IsPipeline d (some id) (record {
        identifier = p.name;
        is_custom = p.is_custom;
        checksum_sha256 = p.checksum_sha256;
        definition_json = "";
      })

-- The rows that a plan is made of.
pub record Stored (p : Pass) (d : Db) : Type 0 where
  pub satellite : Satellite
  pub station : Station
  pub elements : TleRecord
  pub worker : Worker
  pub config : SchedulingConfig
  pub receiver : StationBandConfig
  pub pipeline : SatdumpPipeline
  pub frequency : ℤ
  pub sample_rate : ℤ
  pub gain : ℕ
  pub has_satellite : first (λ s. s.id == p.satellite_id) d.satellites ≡ some satellite
  pub has_station : first (λ s. s.id == p.station_id) d.stations ≡ some station
  pub has_elements : first (λ r. r.id == p.tle_record_id) d.tle_records ≡ some elements
  pub has_worker :
      latest worker_older (where_ (λ w. w.station_id == p.station_id) d.workers) ≡ some worker
  pub has_config : first (λ c. c.id == p.scheduling_config_id) d.configs ≡ some config
  pub has_pipeline : IsPipeline d p.pipeline_id pipeline
  pub has_receiver : first (λ c. band_eq c.band p.band) (configs_in d station.id) ≡ some receiver
  pub has_frequency : receiver.center_frequency_hz ≡ some frequency
  pub has_sample_rate : receiver.sample_rate_hz ≡ some sample_rate
  pub has_gain : (receiver.gain_db ≡ some gain) ⊎ ((receiver.gain_db ≡ none) × (gain ≡ 0))
  pub tuned : pos 0 <ℤ frequency
  pub sampled : pos 0 <ℤ sample_rate

-- What the predictor is asked: from an hour before the pass to an hour after it, in steps of five
-- seconds.
abbrev pub search_of : (p : Pass) {d : Db} → Stored p d → PredictionRequest
search_of p i = record {
  line1 = i.elements.line1;
  line2 = i.elements.line2;
  latitude_degrees = i.station.latitude;
  longitude_degrees = i.station.longitude;
  altitude_m = i.station.altitude_m;
  minimum_elevation_degrees = i.config.minimum_elevation_degrees;
  search_start = p.aos_at -ℤ pos 3600000000000;
  search_end = p.los_at +ℤ pos 3600000000000;
  track_step = pos 5000000000;
}

-- A predicted pass that starts at most a minute before or after the pass.
abbrev pub IsNear : Pass → PredictedPass → Type 0
IsNear p c = (c.aos ≤ℤ p.aos_at +ℤ pos 60000000000) × (p.aos_at ≤ℤ c.aos +ℤ pos 60000000000)

-- The first near one of the predicted passes, none of which starts 292 years or more before the pass.
pub record Picks (p : Pass) (candidates : List PredictedPass) (candidate : PredictedPass)
    : Type 0 where
  pub before : List PredictedPass
  pub after : List PredictedPass
  pub splits : candidates ≡ before ++ candidate ∷ after
  pub others : All (λ c. ¬ (IsNear p c)) before
  pub near : IsNear p candidate
  pub in_range : All (λ c. p.aos_at ≤ℤ c.aos +ℤ max_duration) before
  pub near_in_range : p.aos_at ≤ℤ candidate.aos +ℤ max_duration

-- The plan says of the pass what the tables say, and carries the track.
pub record Describes (p : Pass) (d : Db) (i : Stored p d) (track : List TrackPoint) (q : PassPlan)
    : Type 0 where
  pub version : q.plan_version ≡ 1
  pub same_pass : q.pass_id ≡ p.id
  pub same_station : q.station_id ≡ p.station_id
  pub same_worker : q.worker_id ≡ i.worker.id
  pub same_number : q.norad_id ≡ pos i.satellite.norad_id
  pub same_name : q.satellite_name ≡ i.satellite.name
  pub same_line1 : q.elements.line1 ≡ i.elements.line1
  pub same_line2 : q.elements.line2 ≡ i.elements.line2
  pub same_epoch : q.elements.epoch ≡ i.elements.epoch
  pub same_elements : q.elements.tle_record_id ≡ p.tle_record_id
  pub same_aos : q.aos ≡ p.aos_at
  pub same_los : q.los ≡ p.los_at
  pub same_tca : q.tca ≡ p.tca_at
  pub same_elevation : q.max_elevation_degrees ≡ p.max_elevation_degrees
  pub starts : q.recording_start ≡ p.aos_at -ℤ p.recording_pre_roll
  pub ends : q.recording_end ≡ p.los_at +ℤ p.recording_post_roll
  pub same_band : IsBand p.band q.band
  pub same_mode : IsMode p.recording_mode q.recording_mode
  pub source : q.radio.source ≡ "rtlsdr"
  pub frequency : q.radio.frequency_hz ≡ i.frequency
  pub sample_rate : q.radio.sample_rate_hz ≡ i.sample_rate
  pub gain : q.radio.gain_db ≡ i.gain
  pub correction : q.radio.ppm_correction ≡ i.receiver.ppm_correction
  pub bias_tee : q.radio.bias_tee_enabled ≡ i.receiver.bias_tee_enabled
  pub same_pipeline : q.pipeline ≡ i.pipeline
  pub same_track : q.track ≡ track

-- The generation is the hash of the plan without its generation and its time.
pub record IsHashed (m : Machine) (q : PassPlan) : Type 0 where
  pub undated : q.generated_at ≡ none
  pub bytes : List ℕ
  pub encoded : m.marshal (record q { generated_at = none; generation = "" }) ≡ some bytes
  pub hashed : q.generation ≡ m.sha256_hex bytes
