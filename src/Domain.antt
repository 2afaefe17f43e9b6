-- ===== src/Domain.antt =====
-- server/go/internal/domain/domain.go: the records and the enumerations that the other packages
-- share. A named string type is a data type whose last constructor holds any text that is none of
-- the constants. Identifiers are numbers that are only compared, a time is a count of nanoseconds,
-- and a float64 is a bit pattern that is only carried along.
mod Eq
pub mod Clock
unfoldable pub use Eq.*
use project_dia.Prelude.{ℕ, ◌*◌, ◌^◌, String, Bool, true, false, Option, List, str_eq}
use project_dia.Prelude.Int.{ℤ, pos}
use project_dia.Prelude.Text.{Text}

abbrev pub Uuid : Type 0
Uuid = ℕ

abbrev pub Time : Type 0
Time = ℤ

abbrev pub Duration : Type 0
Duration = ℤ

abbrev pub Float64 : Type 0
Float64 = ℕ

abbrev pub second : ℕ
second = 10 ^ 9

abbrev pub minute : ℕ
minute = 60 * second

abbrev pub hour : ℕ
hour = 60 * minute

-- A value of Go's `any`, as far as the program asks for its dynamic type.
pub data Any : Type 0 where
  float : Float64 → Any
  int : ℤ → Any
  int64 : ℤ → Any
  boolean : Bool → Any
  text : String → Any
  other : Any

pub record User : Type 0 where
  pub id : Uuid
  pub username : Text
  pub password_hash : Text
  pub role : UserRole
  pub must_change_password : Bool
  pub created_at : Time

pub record Station : Type 0 where
  pub id : Uuid
  pub name : String
  pub latitude : Float64
  pub longitude : Float64
  pub altitude_m : Float64
  pub active_rf_band : RfBand
  pub created_at : Time

pub record SchedulingConfig : Type 0 where
  pub id : Uuid
  pub station_id : Uuid
  pub minimum_lead_time : Duration
  pub pre_pass_buffer : Duration
  pub post_pass_buffer : Duration
  pub recording_pre_roll : Duration
  pub recording_post_roll : Duration
  pub minimum_elevation_degrees : Float64
  pub created_by : Option Uuid
  pub created_at : Time
  pub effective_from : Time

pub record Worker : Type 0 where
  pub id : Uuid
  pub station_id : Uuid
  pub name : String
  pub worker_version : String
  pub connection_state : WorkerConnectionState
  pub last_seen_at : Option Time
  pub last_sync_at : Option Time
  pub pending_uploads : ℕ
  pub pending_reports : ℕ
  pub synced_generation : String
  pub created_at : Time

pub record Satellite : Type 0 where
  pub id : Uuid
  pub norad_id : ℕ
  pub name : String
  pub is_schedulable : Bool

pub record TleRecord : Type 0 where
  pub id : Uuid
  pub satellite_id : Uuid
  pub line1 : String
  pub line2 : String
  pub epoch : Time
  pub source : String
  pub fetched_at : Time

pub record Pass : Type 0 where
  pub id : Uuid
  pub station_id : Uuid
  pub satellite_id : Uuid
  pub requested_by : Uuid
  pub tle_record_id : Uuid
  pub scheduling_config_id : Uuid
  pub status : PassStatus
  pub visibility : PassVisibility
  pub band : RfBand
  pub aos_at : Time
  pub los_at : Time
  pub tca_at : Option Time
  pub max_elevation_degrees : Float64
  pub reserved_from : Time
  pub reserved_to : Time
  pub recording_mode : RecordingMode
  pub recording_pre_roll : Duration
  pub recording_post_roll : Duration
  pub pipeline_id : Option Uuid
  pub radio_settings : List (String × Any)
  pub approved_by : Option Uuid
  pub approved_at : Option Time
  pub cancellation_reason : Option CancellationReason
  pub cancelled_by : Option Uuid
  pub cancelled_at : Option Time

-- The frequencies, rates and gains are missing until root has set them.
pub record StationBandConfig : Type 0 where
  pub station_id : Uuid
  pub band : RfBand
  pub antenna_description : String
  pub center_frequency_hz : Option ℤ
  pub sample_rate_hz : Option ℤ
  pub gain_db : Option Float64
  pub ppm_correction : ℤ
  pub bias_tee_enabled : Bool

-- The text that names an entity: of an identifier, or a name.
pub data Entity : Type 0 where
  identified : Uuid → Entity
  named : String → Entity

pub record AuditRecord : Type 0 where
  pub actor_user_id : Option Uuid
  pub action : String
  pub entity_type : String
  pub entity_id : Entity
  pub reason : String
