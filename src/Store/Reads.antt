-- ===== src/Store/Reads.antt =====
-- The queries on the other tables: server/go/internal/store/repository.go, passes.go, users.go,
-- satellites.go.
use project_dia.Prelude.{Option, none, some, ◌&&◌, ◌||◌, not, List, ◌∷◌, ◌==◌, first, where_, Bool}
use project_dia.Prelude.Int.{pos, ltb_ℤ, leb_ℤ}
use project_dia.Domain.{
  Uuid, Time, Station, SchedulingConfig, Worker, Satellite, TleRecord, AuditRecord,
  StationBandConfig, RfBand, vhf, uhf,
}
use project_dia.Store.World.{Action, Pipeline, done, statement, query_row, query}
use project_dia.Store.Order.{order_by, latest}

unfoldable pub get_satellite_by_id : Uuid → Action Satellite
get_satellite_by_id id = query_row λ db. first (λ s. s.id == id) db.satellites

unfoldable pub list_stations : Action (List Station)
list_stations = query λ db. order_by (λ s. s.created_at) db.stations

-- `ORDER BY created_at DESC`
abbrev pub config_newer : SchedulingConfig → SchedulingConfig → Bool
config_newer a b = ltb_ℤ b.created_at a.created_at

abbrev pub is_effective : Uuid → Time → SchedulingConfig → Bool
is_effective station at c = c.station_id == station && leb_ℤ c.effective_from at

unfoldable pub latest_effective_scheduling_config : Uuid → Time → Action SchedulingConfig
latest_effective_scheduling_config station at =
    query_row λ db. latest config_newer (where_ (is_effective station at) db.configs)

-- The row gets its identifier and its `created_at` from the database.
unfoldable pub create_scheduling_config : SchedulingConfig → Action SchedulingConfig
create_scheduling_config config = statement λ u t db.
    let row = record config { id = u; created_at = t } in
    done row (record db { configs = row ∷ db.configs })

-- `ORDER BY epoch DESC, fetched_at DESC`
abbrev pub tle_newer : TleRecord → TleRecord → Bool
tle_newer a b =
    ltb_ℤ b.epoch a.epoch || not (ltb_ℤ a.epoch b.epoch) && ltb_ℤ b.fetched_at a.fetched_at

unfoldable pub latest_tle_record : Uuid → Action TleRecord
latest_tle_record satellite =
    query_row λ db. latest tle_newer (where_ (λ r. r.satellite_id == satellite) db.tle_records)

-- `ORDER BY created_at LIMIT 1`
abbrev pub worker_older : Worker → Worker → Bool
worker_older a b = ltb_ℤ a.created_at b.created_at

unfoldable pub get_station_worker : Uuid → Action Worker
get_station_worker station =
    query_row λ db. latest worker_older (where_ (λ w. w.station_id == station) db.workers)

unfoldable pub get_station_by_id : Uuid → Action Station
get_station_by_id id = query_row λ db. first (λ s. s.id == id) db.stations

unfoldable pub get_tle_record_by_id : Uuid → Action TleRecord
get_tle_record_by_id id = query_row λ db. first (λ r. r.id == id) db.tle_records

unfoldable pub get_scheduling_config_by_id : Uuid → Action SchedulingConfig
get_scheduling_config_by_id id = query_row λ db. first (λ c. c.id == id) db.configs

-- The place of a band in the database's enumeration.
abbrev pub band_place : RfBand → Time
band_place vhf = pos 0
band_place uhf = pos 1
band_place (RfBand.unknown s) = pos 2

unfoldable pub get_station_band_configs : Uuid → Action (List StationBandConfig)
get_station_band_configs station =
    query λ db.
      order_by (λ c. band_place c.band) (where_ (λ c. c.station_id == station) db.band_configs)

-- The columns that are selected; the definition is none of them.
abbrev pub selected : Pipeline → Pipeline
selected p = record p { definition = "" }

abbrev pub selected_row : Option Pipeline → Option Pipeline
selected_row none = none
selected_row (some p) = some (selected p)

unfoldable pub get_pipeline_by_id : Uuid → Action Pipeline
get_pipeline_by_id id = query_row λ db. selected_row (first (λ p. p.id == id) db.pipelines)

unfoldable pub append_audit : AuditRecord → Action AuditRecord
append_audit record' = statement λ _ _ db. done record' (record db { audits = record' ∷ db.audits })
