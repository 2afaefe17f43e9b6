-- ===== src/Tests/Approval.antt =====
-- An approval by the server with its plan generator.
use project_dia.Prelude.{◌≡◌, refl, ℕ, Option, some, List, [], ◌∷◌, update, first, where_}
use project_dia.Prelude.Int.{pos_part, neg_part, ◌-ℤ◌, ◌+ℤ◌}
use project_dia.Domain.{Time, Pass, pending_approval, status_eq, band_eq}
use project_dia.Domain.Clock.{difference, sub_time, negate}
use project_dia.Prediction.{PredictionRequest, PredictedPass}
use project_dia.Store.World.{
  World, ok, pure, statement, query_row, query, now, ◌>>=◌, ◌>>◌, refuse_if, require,
}
use project_dia.Store.World.Laws.{wrote}
use project_dia.Store.Order.{insert_by, order_by, latest}
use project_dia.Store.Reads.{
  get_satellite_by_id, get_station_by_id, get_tle_record_by_id, get_station_worker,
  get_scheduling_config_by_id, get_station_band_configs,
}
use project_dia.Store.Plans.{upsert_pass_plan}
use project_dia.Store.Passes.{is_pending}
use project_dia.Store.Passes.Table.{row_violation, first_violation, first_violation-IsValid}
use project_dia.Store.Passes.Invariant.{InOrder}
use project_dia.PassPlan.Radio.{apply_radio_overrides, radio_for}
use project_dia.PassPlan.Generate.{
  pipeline_of, predict_track, track_for, generation_of, generate, generate_and_store,
}
use project_dia.Scheduling.Service.{Service, generate_plan}
use project_dia.Scheduling.Service.Decisions.{decide, approval, plan_first}
use project_dia.Auth.Rbac.{can_approve_passes}
use project_dia.Scheduling.Service.Exact.{PlanRuns, decided}
use project_dia.Scheduling.Service.Exact.Decide.{decide_pending}
use project_dia.System.Deployed.{deployed}
use project_dia.Tests.Fixtures.{predicted, machine, admin, pass_with, tables_with, env, band_config}

abbrev pending : Pass
pending = pass_with 60 pending_approval

abbrev world : World
world = record {
  env = env;
  tick = 1000;
  db = record (tables_with (pending ∷ [])) { band_configs = band_config ∷ [] };
  sessions = [];
  files = [];
}

pending-InOrder : InOrder world.db
unfolding first_violation row_violation pos_part neg_part
pending-InOrder = first_violation-IsValid (pending ∷ []) refl

abbrev predict : ℕ → PredictionRequest → Option (List PredictedPass)
predict k request = some (predicted ∷ [])

abbrev service : Service
service = (deployed predict machine (λ _. some 60)).service

abbrev planned : World
planned = (plan_first service approval pending (wrote world world.db)).1

plan_runs : PlanRuns service approval pending (wrote world world.db)
unfolding generate_plan generate_and_store generate get_satellite_by_id get_station_by_id
    get_tle_record_by_id get_station_worker get_scheduling_config_by_id get_station_band_configs
    upsert_pass_plan apply_radio_overrides radio_for pipeline_of predict_track track_for
    generation_of pure statement query_row query now ◌>>=◌ ◌>>◌ refuse_if require first where_
    insert_by order_by latest status_eq band_eq difference sub_time negate pos_part neg_part ◌-ℤ◌
    ◌+ℤ◌
plan_runs = record { after = planned; runs = refl; same_env = refl; same_passes = refl }

decide_pending_example :
    (at : Time) × ((decide service admin 60 approval world).0 ≡ ok (decided approval 3 at pending))
    × ((decide service admin 60 approval world).1.db.passes
        ≡ update (is_pending 60) (decided approval 3 at) (pending ∷ []))
unfolding can_approve_passes first
decide_pending_example =
    decide_pending service admin 60 approval pending world plan_runs (λ n. refl) pending-InOrder
      refl refl refl
