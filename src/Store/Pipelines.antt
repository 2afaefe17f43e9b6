-- ===== src/Store/Pipelines.antt =====
-- server/go/internal/store/passes.go: `ReplaceStandardPipelines`. A column of satdump_pipelines that
-- holds no value is the empty text.
pub mod Laws
use project_dia.Prelude.{
  ℕ, ◌==◌, ◌&&◌, String, str_eq, not, Bool, true, false, Option, none, some, List, [], ◌∷◌, where_,
  count_where, any, if◌then◌else◌,
}
use project_dia.Domain.{Uuid, Pass}
use project_dia.Store.World.{Db, Effect, done, Action, Pipeline, statement, pure, ◌>>=◌, ◌>>◌}

abbrev pub is_given : Uuid → Option Uuid → Bool
is_given id none = false
is_given id (some x) = x == id

abbrev pub uses : Uuid → Pass → Bool
uses id p = is_given id p.pipeline_id

-- The `WHERE` of the deletion.
abbrev pub is_withdrawn : List String → List Pass → Pipeline → Bool
is_withdrawn names passes p =
    not p.is_custom && not (any (str_eq p.name) names) && not (any (uses p.id) passes)

abbrev pub has_name : String → Pipeline → Bool
has_name name p = str_eq p.name name

abbrev pub standard : Uuid → String → Pipeline
standard id name = record {
  id = id;
  name = name;
  is_custom = false;
  definition_path = "";
  checksum_sha256 = "";
  definition = "";
}

-- `ON CONFLICT (name) DO NOTHING`
abbrev pub put_new : Bool → Db → Db → Effect (Unit {0})
put_new true old new = done tt old
put_new false old new = done tt new

abbrev pub insert_standard : String → Uuid → Db → Effect (Unit {0})
insert_standard name id db =
    put_new (any (has_name name) db.pipelines) db
      (record db { pipelines = standard id name ∷ db.pipelines })

unfoldable pub insert_names : List String → Action (Unit {0})
insert_names [] = pure tt
insert_names (name ∷ names) =
    statement (λ id _ db. insert_standard name id db) >> insert_names names

unfoldable pub withdraw : List String → Action ℕ
withdraw names = statement λ _ _ db.
    done (count_where (is_withdrawn names db.passes) db.pipelines)
      (record db { pipelines = where_ (λ p. not (is_withdrawn names db.passes p)) db.pipelines })

unfoldable pub replace_standard_pipelines : List String → Action ℕ
unfolding withdraw insert_names
replace_standard_pipelines [] = pure 0
replace_standard_pipelines (name ∷ names) = do
  removed ← withdraw (name ∷ names)
  insert_names (name ∷ names)
  pure removed
