-- ===== src/Tests/Fixtures.antt =====
-- The tables, the callers and the service of the concrete runs.
use project_dia.Prelude.{ℕ, ◌*◌, ◌%◌, true, false, none, some, List, [], ◌∷◌}
use project_dia.Prelude.Int.{pos}
use project_dia.Prelude.Text.{codes, replicate}
use project_dia.Domain.{
  Uuid, Time, minute, User, UserRole, Station, SchedulingConfig, Worker, Satellite, TleRecord, Pass,
  PassStatus, StationBandConfig, vhf, private, raw, online,
}
use project_dia.Store.World.{Db, Env, World}
use project_dia.PassPlan.Wire.{Machine}
use project_dia.Prediction.{PredictedPass}
use project_dia.Scheduling.Service.{Service, RequestInput}
use project_dia.System.{Server}

-- An instant, in minutes.
abbrev pub at_minute : ℕ → Time
at_minute n = pos (n * minute)

abbrev pub user_with : Uuid → UserRole → User
user_with id role = record {
  id = id;
  username = codes "someone";
  password_hash = [];
  role = role;
  must_change_password = false;
  created_at = pos 0;
}

abbrev pub alice : User
alice = user_with 1 UserRole.user

abbrev pub bob : User
bob = user_with 2 UserRole.user

abbrev pub admin : User
admin = user_with 3 UserRole.admin

abbrev pub root : User
root = user_with 4 UserRole.root

abbrev pub station : Station
station = record {
  id = 10;
  name = "hill";
  latitude = 0;
  longitude = 0;
  altitude_m = 0;
  active_rf_band = vhf;
  created_at = pos 0;
}

abbrev pub config : SchedulingConfig
config = record {
  id = 20;
  station_id = 10;
  minimum_lead_time = at_minute 30;
  pre_pass_buffer = at_minute 2;
  post_pass_buffer = at_minute 3;
  recording_pre_roll = pos 0;
  recording_post_roll = pos 0;
  minimum_elevation_degrees = 0;
  created_by = none;
  created_at = pos 0;
  effective_from = pos 0;
}

abbrev pub worker : Worker
worker = record {
  id = 30;
  station_id = 10;
  name = "worker";
  worker_version = "1";
  connection_state = online;
  last_seen_at = some (at_minute 1);
  last_sync_at = none;
  pending_uploads = 0;
  pending_reports = 0;
  synced_generation = "";
  created_at = pos 0;
}

abbrev pub satellite : Satellite
satellite = record { id = 40; norad_id = 25338; name = "NOAA 15"; is_schedulable = true }

abbrev pub tle : TleRecord
tle = record {
  id = 50;
  satellite_id = 40;
  line1 = "1";
  line2 = "2";
  epoch = pos 0;
  source = "celestrak";
  fetched_at = pos 0;
}

-- A pass of Alice's over the station, from minute 100 to minute 110.
abbrev pub pass_with : Uuid → PassStatus → Pass
pass_with id status = record {
  id = id;
  station_id = 10;
  satellite_id = 40;
  requested_by = 1;
  tle_record_id = 50;
  scheduling_config_id = 20;
  status = status;
  visibility = private;
  band = vhf;
  aos_at = at_minute 100;
  los_at = at_minute 110;
  tca_at = none;
  max_elevation_degrees = 0;
  reserved_from = at_minute 98;
  reserved_to = at_minute 113;
  recording_mode = raw;
  recording_pre_roll = pos 0;
  recording_post_roll = pos 0;
  pipeline_id = none;
  radio_settings = [];
  approved_by = none;
  approved_at = none;
  cancellation_reason = none;
  cancelled_by = none;
  cancelled_at = none;
}

abbrev pub tables_with : List Pass → Db
tables_with passes = record {
  users = [];
  stations = station ∷ [];
  configs = config ∷ [];
  workers = worker ∷ [];
  satellites = satellite ∷ [];
  tle_records = tle ∷ [];
  passes = passes;
  plans = [];
  band_configs = [];
  pipelines = [];
  recordings = [];
  audits = [];
}

-- Nothing fails; the clock stands at minute 1, and identifiers are numbers of events.
abbrev pub env : Env
env = record {
  fault = λ _. none;
  uuid = λ n. n;
  clock = λ _. at_minute 1;
  context_done = λ _. false;
  random = λ n size. some (replicate size (n % 256));
  fold_case = λ name. name;
  free_bytes = λ n. none;
}

abbrev pub world_with : List Pass → World
world_with passes = record {
  env = env;
  tick = 1000;
  db = tables_with passes;
  sessions = [];
  files = [];
}

abbrev pub predicted : PredictedPass
predicted = record {
  aos = at_minute 100;
  tca = at_minute 105;
  los = at_minute 110;
  max_elevation_degrees = 0;
  track = [];
}

-- The radio of the station for the band of its passes.
abbrev pub band_config : StationBandConfig
band_config = record {
  station_id = 10;
  band = vhf;
  antenna_description = "";
  center_frequency_hz = some (pos 137620000);
  sample_rate_hz = some (pos 2400000);
  gain_db = none;
  ppm_correction = pos 0;
  bias_tee_enabled = false;
}

-- A machine whose wire format is one byte for every plan.
abbrev pub machine : Machine
machine = record {
  marshal = λ p. some (1 ∷ []);
  unmarshal = λ bytes. none;
  sha256_hex = λ bytes. "digest";
  sha256_of_texts = λ texts. "digest of all";
  float_of_int = λ z. 0;
  int64_of_float = λ x. pos 0;
  int32_of_float = λ x. pos 0;
}

-- The predictor knows one pass; there is no plan generator.
abbrev pub service : Service
service = record { predictor = λ _ _. some (predicted ∷ []); plans = none }

abbrev pub server : Server
server = record { service = service; parse_uuid = λ _. some 60 }

abbrev pub input : RequestInput
input = record {
  satellite_id = 40;
  requested_aos = at_minute 101;
  band = vhf;
  recording_mode = raw;
  visibility = private;
  pipeline_id = none;
  radio_settings = [];
}
