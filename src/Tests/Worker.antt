-- ===== src/Tests/Worker.antt =====
-- The generator of plans and the monitor of workers on concrete tables.
use project_dia.Prelude.{first, where_, ap, ◌≡◌, refl, some, [], ◌∷◌, ◌↔◌, ◌⊎◌, arith}
use project_dia.Prelude.Int.{◌-ℤ◌, pos_part, neg_part}
use project_dia.Domain.{Pass, approved}
use project_dia.Errors.{worker_offline}
use project_dia.Store.World.{World, Db, ok, err, ◌>>◌}
use project_dia.PassPlan.Wire.{Generator, PassPlan, Machine}
use project_dia.PassPlan.Generate.{generate, generation_of}
use project_dia.PassPlan.Content.{IsTuned, Executable, generate-Executable, generate-NoDefinition}
use project_dia.Domain.{band_eq}
use project_dia.Domain.Clock.{difference}
use project_dia.Store.Order.{latest, order_by, insert_by}
use project_dia.PassPlan.Radio.{apply_radio_overrides}
use project_dia.PassPlan.Total.{radio_in, Inputs, plan_from, generate_total}
use project_dia.Scheduling.Service.{require_worker_online}
use project_dia.WorkerApi.Sync.{monitor_tick}
use project_dia.WorkerApi.Sync.Laws.{IsAlive, monitor_tick-require_worker_online}
use project_dia.Store.World.{StoredPassPlan}
use project_dia.WorkerApi.Sync.{HeartbeatRequest}
use project_dia.Tests.Fixtures.{
  machine, at_minute, pass_with, tables_with, world_with, predicted, worker, station, config,
  satellite, tle, env, band_config,
}

abbrev generator : Generator
generator = record { machine = machine; predictor = λ _ _. some (predicted ∷ []) }

abbrev ready : Pass
ready = pass_with 60 approved

abbrev tables : Db
tables = record (tables_with (ready ∷ [])) { band_configs = band_config ∷ [] }

abbrev world : World
world = record { env = env; tick = 0; db = tables; sessions = []; files = [] }

tuned : IsTuned (radio_in machine tables station ready)
unfolding first where_ order_by insert_by apply_radio_overrides band_eq pos_part neg_part
tuned = (omega arith, omega arith)

inputs : Inputs generator ready tables
unfolding first latest where_ pos_part neg_part difference ◌-ℤ◌
inputs = record {
  satellite = satellite;
  station = station;
  elements = tle;
  worker = worker;
  pipeline = _;
  config = config;
  candidates = predicted ∷ [];
  candidate = predicted;
  has_satellite = refl;
  has_station = refl;
  has_elements = refl;
  has_worker = refl;
  has_pipeline = refl;
  has_config = refl;
  is_tuned = tuned;
  predicts = λ k. refl;
  matches = refl;
}

generate_total_example :
    (generate generator ready world).0
    ≡ ok (record (plan_from generator ready tables inputs) { generation = "digest" })
unfolding generation_of
generate_total_example = generate_total generator ready world inputs "digest" (λ n. refl) refl refl

monitor_tick-require_worker_online_example :
    ((((monitor_tick >> require_worker_online 10) (world_with [])).0 ≡ ok tt)
      ↔ IsAlive (at_minute 1) worker)
    × ((((monitor_tick >> require_worker_online 10) (world_with [])).0 ≡ ok tt)
        ⊎ (((monitor_tick >> require_worker_online 10) (world_with [])).0 ≡ err worker_offline))
unfolding latest where_
monitor_tick-require_worker_online_example =
    monitor_tick-require_worker_online 10 worker (world_with []) (λ n. refl) refl

abbrev plan : PassPlan
plan = record (plan_from generator ready tables inputs) { generation = "digest" }

generated : generate generator ready world ≡ (ok plan, (generate generator ready world).1)
generated = ap (λ r. (r, (generate generator ready world).1)) generate_total_example

generate-Executable_example : Executable machine ready plan
generate-Executable_example =
    generate-Executable generator ready world (generate generator ready world).1 plan generated

generate-NoDefinition_example : plan.pipeline.definition_json ≡ ""
generate-NoDefinition_example =
    generate-NoDefinition generator ready world (generate generator ready world).1 plan generated

abbrev stored_plan : StoredPassPlan
stored_plan = record {
  pass_id = 60;
  generation = "digest";
  plan_version = 1;
  encoded = 1 ∷ [];
  generated_at = at_minute 1;
}

abbrev request : HeartbeatRequest
request = record {
  worker_id = "30";
  worker_version = "2";
  pending_uploads = 0;
  pending_reports = 0;
  state_generation = "digest of all";
}

-- A machine that can decode a plan, a clock that goes on by a minute, and a station whose plan is kept.
abbrev reader : Machine
reader = record machine { unmarshal = λ bytes. some plan }

abbrev keeping : World
keeping = record {
  env = record env { clock = at_minute };
  tick = 20;
  db = record tables { plans = stored_plan ∷ [] };
  sessions = [];
  files = [];
}
