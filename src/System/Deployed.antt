-- ===== src/System/Deployed.antt =====
-- The server as server/go/cmd/aagasa-server/main.go puts it together: the scheduling service with the
-- plan generator of passplan/generator.go on the same repository and the same predictor.
use project_dia.Prelude.{ℕ, String, Option, some, List, Pairwise}
use project_dia.Domain.{Uuid}
use project_dia.Prediction.{PredictionRequest, PredictedPass}
use project_dia.Store.World.{World, Db}
use project_dia.Store.Passes.Invariant.{InOrder}
use project_dia.Store.Passes.Steps.{Steps}
use project_dia.PassPlan.Wire.{Machine}
use project_dia.PassPlan.Generate.{generate_and_store}
use project_dia.PassPlan.Effects.{Moves-generate_and_store}
use project_dia.Scheduling.Safety.{PlansMove}
use project_dia.System.{Server, Call, run}
use project_dia.System.Safety.{NotDoubleBooked, in_order_steps, run-NotDoubleBooked}

module _ (predictor : ℕ → PredictionRequest → Option (List PredictedPass)) (machine : Machine)
    (parse_uuid : String → Option Uuid) where
  abbrev pub deployed : Server
  deployed = record {
    service = record {
      predictor = predictor;
      plans = some (generate_and_store (record { machine = machine; predictor = predictor }));
    };
    parse_uuid = parse_uuid;
  }

  pub generator-PlansMove {ℓ} :
      {R : Db → Db → Type ℓ} → Steps R → PlansMove R deployed.service.plans
  generator-PlansMove steps p = Moves-generate_and_store steps _ p

  -- From tables in order, whatever the callers ask, whatever statement, commit, prediction or
  -- encoding fails and whatever the clock and the database answer, no instant is ever reserved by
  -- two passes that hold the same station.
  pub deployed-NotDoubleBooked :
      (w : World) (cs : List Call)
      → InOrder w.db
      → Pairwise NotDoubleBooked (run deployed w cs).db.passes
  deployed-NotDoubleBooked w cs v =
      run-NotDoubleBooked deployed w cs (generator-PlansMove in_order_steps) v
