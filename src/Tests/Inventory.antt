-- ===== src/Tests/Inventory.antt =====
-- A worker's list of pipelines, with one that goes, one that a pass uses, and one that is new.
use mathlib.Core.List.{Memᴰ}
use project_dia.Prelude.{◌≡◌, ◌≢◌, ◌⊎◌, refl, some, String, List, [], ◌∷◌, where_, count_where}
use project_dia.Domain.{Pass, approved}
use project_dia.Store.World.{World, Pipeline, ok, pure, statement, ◌>>◌, ◌>>=◌}
use project_dia.Store.Pipelines.{standard, replace_standard_pipelines}
use project_dia.Store.Pipelines.Laws.{KeptFor, IsFresh, Has, replace_standard_pipelines_lem}
use project_dia.Tests.Fixtures.{pass_with, tables_with, env}

abbrev inventory : List String
inventory = "a" ∷ "b" ∷ []

abbrev user : Pass
user = record (pass_with 60 approved) { pipeline_id = some 72 }

abbrev before : World
before = record {
  env = env;
  tick = 0;
  db = record (tables_with (user ∷ [])) {
    pipelines = standard 70 "a" ∷ standard 71 "old" ∷ standard 72 "used" ∷ [];
  };
  sessions = [];
  files = [];
}

abbrev replaced : World
replaced = (replace_standard_pipelines inventory before).1

some_names : inventory ≢ []
some_names e = cc

replacing : replace_standard_pipelines inventory before ≡ (ok 1, replaced)
unfolding replace_standard_pipelines statement ◌>>=◌ ◌>>◌ pure where_ count_where
replacing = refl

replace_standard_pipelines_lem_example :
    ((p : Pipeline)
      → Memᴰ p before.db.pipelines
      → KeptFor inventory (user ∷ []) p
      → Memᴰ p replaced.db.pipelines)
    × ((p : Pipeline)
        → Memᴰ p replaced.db.pipelines
        → (Memᴰ p before.db.pipelines × KeptFor inventory (user ∷ []) p) ⊎ IsFresh inventory p)
    × ((name : String) → Memᴰ name inventory → Has replaced.db name)
replace_standard_pipelines_lem_example =
    replace_standard_pipelines_lem inventory before replaced 1 some_names replacing
