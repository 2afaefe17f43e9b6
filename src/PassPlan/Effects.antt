-- ===== src/PassPlan/Effects.antt =====
-- The tables that server/go/internal/passplan/generator.go writes.
use project_dia.Prelude.{refl, Option, none, some}
use project_dia.Domain.{Uuid, Station, TleRecord, Pass}
use project_dia.Store.World.{Db, StoredPassPlan}
use project_dia.Store.World.Moves.{Moves, moves_rules, Moves-require}
use project_dia.Store.Passes.Steps.{Steps, Moves-elsewhere, store_moves}
use project_dia.Store.Reads.{
  get_station_by_id, get_tle_record_by_id, get_scheduling_config_by_id, get_station_band_configs,
  get_pipeline_by_id,
}
use project_dia.Store.Plans.{upsert_pass_plan}
use project_dia.Prediction.{PredictionRequest}
use project_dia.PassPlan.Wire.{Machine, Generator}
use project_dia.PassPlan.Radio.{radio_for}
use project_dia.PassPlan.Generate.{
  pipeline_of, predict_track, track_for, generate, generate_and_store,
}

module _ {ℓ} {R : Db → Db → Type ℓ} (steps : Steps R) where
  Moves-upsert_pass_plan : (plan : StoredPassPlan) → Moves R (upsert_pass_plan plan)
  unfolding upsert_pass_plan
  Moves-upsert_pass_plan plan = Moves-elsewhere steps _ λ u t d. (refl, refl)

  Moves-pipeline_of : (o : Option Uuid) → Moves R (pipeline_of o)
  unfolding pipeline_of get_pipeline_by_id
  Moves-pipeline_of none = search (moves_rules, steps.pre)
  Moves-pipeline_of (some id) = search (moves_rules, steps.pre)

  Moves-radio_for : (m : Machine) (s : Station) (p : Pass) → Moves R (radio_for m s p)
  unfolding radio_for get_station_band_configs
  Moves-radio_for m s p = search (moves_rules, steps.pre) depth 12

  Moves-predict_track : (g : Generator) (r : PredictionRequest) → Moves R (predict_track g r)
  unfolding predict_track
  Moves-predict_track g r = record {
    at = λ w. (Moves-require steps.pre (g.predictor w.tick r) _).at _;
  }

  Moves-track_for :
      (g : Generator) (s : Station) (p : Pass) (t : TleRecord) → Moves R (track_for g s p t)
  unfolding track_for get_scheduling_config_by_id
  Moves-track_for g s p t = search (moves_rules, steps.pre, Moves-predict_track) depth 12

  Moves-generate : (g : Generator) (p : Pass) → Moves R (generate g p)
  unfolding generate get_station_by_id get_tle_record_by_id
  Moves-generate g p =
      search (store_moves, steps.pre, Moves-pipeline_of, Moves-radio_for, Moves-track_for) depth 24

  pub Moves-generate_and_store : (g : Generator) (p : Pass) → Moves R (generate_and_store g p)
  unfolding generate_and_store
  Moves-generate_and_store g p =
      search (moves_rules, steps.pre, Moves-generate, Moves-upsert_pass_plan) depth 12
