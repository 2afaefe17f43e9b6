-- ===== src/PassPlan/Wire.antt =====
-- server/go/internal/passplan/generator.go: the messages of the worker's protocol that a plan
-- consists of, as the generator fills them. The wire format, the hash and the machine's conversions
-- of floats are parameters; a timestamp on the wire is the time itself.
use project_dia.Prelude.{ℕ, ◌*◌, ◌-◌, ◌^◌, ◌%◌, String, Bool, Option, List, ltb, if◌then◌else◌}
use project_dia.Prelude.Int.{ℤ, pos, negsuc}
use project_dia.Domain.{
  Uuid, Time, Float64, second, RfBand, vhf, uhf, RecordingMode, raw, process, raw_and_process,
}
use project_dia.Prediction.{TrackPoint, PredictedPass, PredictionRequest}

abbrev pub plan_version : ℕ
plan_version = 1

abbrev pub track_step : ℤ
track_step = pos (5 * second)

pub record OrbitalElements : Type 0 where
  pub line1 : String
  pub line2 : String
  pub epoch : Time
  pub tle_record_id : Uuid

pub record RadioSettings : Type 0 where
  pub source : String
  pub frequency_hz : ℤ
  pub sample_rate_hz : ℤ
  pub gain_db : Float64
  pub ppm_correction : ℤ
  pub bias_tee_enabled : Bool

pub record SatdumpPipeline : Type 0 where
  pub identifier : String
  pub is_custom : Bool
  pub checksum_sha256 : String
  pub definition_json : String

pub data WireBand : Type 0 where
  band_unspecified band_vhf band_uhf : WireBand

pub data WireMode : Type 0 where
  mode_unspecified mode_raw mode_process mode_raw_and_process : WireMode

-- The message of the worker's protocol.
pub record PassPlan : Type 0 where
  pub plan_version : ℕ
  pub generation : String
  pub generated_at : Option Time
  pub pass_id : Uuid
  pub station_id : Uuid
  pub worker_id : Uuid
  pub norad_id : ℤ
  pub satellite_name : String
  pub elements : OrbitalElements
  pub aos : Time
  pub los : Time
  pub tca : Option Time
  pub max_elevation_degrees : Float64
  pub recording_start : Time
  pub recording_end : Time
  pub band : WireBand
  pub radio : RadioSettings
  pub recording_mode : WireMode
  pub pipeline : SatdumpPipeline
  pub track : List TrackPoint

-- Deterministic marshalling, its inverse, SHA-256 in hexadecimal digits, of bytes and of the bytes of
-- texts one after the other, and the conversions of
-- floats, whose result out of range Go leaves to the machine.
pub record Machine : Type 0 where
  pub marshal : PassPlan → Option (List ℕ)
  pub unmarshal : List ℕ → Option PassPlan
  pub sha256_hex : List ℕ → String
  pub sha256_of_texts : List String → String
  pub float_of_int : ℤ → Float64
  pub int64_of_float : Float64 → ℤ
  pub int32_of_float : Float64 → ℤ

pub record Generator : Type 0 where
  pub machine : Machine
  pub predictor : ℕ → PredictionRequest → Option (List PredictedPass)

-- `int32(n)`
unfoldable pub int32 : ℕ → ℤ
int32 n = let m = n % 2 ^ 32 in if ltb m (2 ^ 31) then pos m else negsuc (2 ^ 32 - 1 - m)

abbrev pub band_to_proto : RfBand → WireBand
band_to_proto vhf = band_vhf
band_to_proto uhf = band_uhf
band_to_proto (RfBand.unknown s) = band_unspecified

abbrev pub recording_mode_to_proto : RecordingMode → WireMode
recording_mode_to_proto raw = mode_raw
recording_mode_to_proto process = mode_process
recording_mode_to_proto raw_and_process = mode_raw_and_process
recording_mode_to_proto (RecordingMode.unknown s) = mode_unspecified
