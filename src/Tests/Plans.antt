-- ===== src/Tests/Plans.antt =====
-- A plan for a pass that the predictor gives after an earlier one.
use project_dia.Prelude.{◌≡◌, refl, arith, inr, some, [], ◌∷◌, first, where_}
use project_dia.Prelude.Int.{pos, pos_part, neg_part, ◌+ℤ◌}
use project_dia.Domain.{Pass, approved, band_eq}
use project_dia.Prediction.{PredictedPass}
use project_dia.Store.Order.{latest, order_by, insert_by}
use project_dia.Store.World.{World, Db, ok}
use project_dia.PassPlan.Wire.{Generator, PassPlan}
use project_dia.PassPlan.Generate.{no_pipeline, generate}
use project_dia.PassPlan.Described.{no_row, Stored, Picks, Describes, IsHashed}
use project_dia.PassPlan.Described.Generated.{generate-Describes}
use project_dia.Tests.Fixtures.{
  at_minute, machine, pass_with, tables_with, predicted, worker, station, config, satellite, tle,
  env, band_config,
}

abbrev ready : Pass
ready = pass_with 60 approved

abbrev tables : Db
tables = record (tables_with (ready ∷ [])) { band_configs = band_config ∷ [] }

abbrev world : World
world = record { env = env; tick = 0; db = tables; sessions = []; files = [] }

abbrev earlier : PredictedPass
earlier = record predicted { aos = at_minute 10; los = at_minute 20 }

abbrev generator : Generator
generator = record { machine = machine; predictor = λ _ _. some (earlier ∷ predicted ∷ []) }

stored : Stored ready tables
unfolding first latest where_ order_by insert_by band_eq pos_part neg_part
stored = record {
  satellite = satellite;
  station = station;
  elements = tle;
  worker = worker;
  config = config;
  receiver = band_config;
  pipeline = no_pipeline;
  frequency = pos 137620000;
  sample_rate = pos 2400000;
  gain = 0;
  has_satellite = refl;
  has_station = refl;
  has_elements = refl;
  has_worker = refl;
  has_config = refl;
  has_pipeline = no_row;
  has_receiver = refl;
  has_frequency = refl;
  has_sample_rate = refl;
  has_gain = inr (refl, refl);
  tuned = omega arith;
  sampled = omega arith;
}

picks : Picks ready (earlier ∷ predicted ∷ []) predicted
unfolding pos_part neg_part ◌+ℤ◌
picks = record {
  before = earlier ∷ [];
  after = [];
  splits = refl;
  others = ((λ near. omega (arith, near.1)), tt);
  near = (omega arith, omega arith);
  in_range = (omega arith, tt);
  near_in_range = omega arith;
}

generate-Describes_example :
    (plan : PassPlan) × ((generate generator ready world).0 ≡ ok plan)
    × Describes ready tables stored predicted.track plan
    × IsHashed machine plan
unfolding pos_part neg_part stored
generate-Describes_example =
    generate-Describes generator ready world stored (earlier ∷ predicted ∷ []) predicted (λ n. refl)
      refl refl (omega arith) (omega arith) (λ k. refl) picks (λ q h. (1 ∷ [], refl))
