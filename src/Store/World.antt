-- ===== src/Store/World.antt =====
-- The state behind `Repository` (server/go/internal/store/repository.go): the tables, an
-- environment that decides what PostgreSQL and the clock answer, and the actions that run on them.
-- Every statement may fail as the environment says. The n-th event of a run finds the n-th answer.
pub mod Moves
pub mod Laws
pub mod Returns
pub mod Inversion
use project_dia.Prelude.{ℕ, suc, String, Bool, true, false, Option, none, some, List, []}
use project_dia.Prelude.Int.{ℤ}
use project_dia.Domain.{
  Uuid, Time, User, UserRole, Station, SchedulingConfig, Worker, Satellite, TleRecord, Pass,
  AuditRecord, StationBandConfig,
}
use project_dia.Prelude.Text.{Text}
use project_dia.Errors.{Error, DbError, translate, driver, nested_transaction}

-- server/go/internal/store/passplans.go: a row of pass_plans; the encoded plan is opaque.
pub record StoredPassPlan : Type 0 where
  pub pass_id : Uuid
  pub generation : String
  pub plan_version : ℕ
  pub encoded : List ℕ
  pub generated_at : Time

-- server/go/internal/store/passes.go: a row of satdump_pipelines, and what a query returns of it.
pub record Pipeline : Type 0 where
  pub id : Uuid
  pub name : String
  pub is_custom : Bool
  pub definition_path : String
  pub checksum_sha256 : String
  pub definition : String

-- server/go/internal/store/sessions.go: a session, and an entry of Redis with its expiry.
pub record Session : Type 0 where
  pub user_id : Uuid
  pub role : UserRole
  pub created_at : Time

pub record StoredSession : Type 0 where
  pub key : Text
  pub session : Session
  pub expires_at : Time

-- server/go/internal/store/recordings.go: a row of recordings; a name of a file is its bytes.
pub record Recording : Type 0 where
  pub recording_id : Text
  pub pass_id : Uuid
  pub worker_id : Option Uuid
  pub station_id : Uuid
  pub relative_path : Text
  pub stored_path : Text
  pub size_bytes : ℕ
  pub checksum_sha256 : Text
  pub status : String
  pub started_at : Option Time
  pub finished_at : Option Time
  pub received_at : Time

-- A file on the disk of the server.
pub record File : Type 0 where
  pub path : Text
  pub content : List ℕ

pub record Db : Type 0 where
  pub users : List User
  pub stations : List Station
  pub configs : List SchedulingConfig
  pub workers : List Worker
  pub satellites : List Satellite
  pub tle_records : List TleRecord
  pub passes : List Pass
  pub plans : List StoredPassPlan
  pub band_configs : List StationBandConfig
  pub pipelines : List Pipeline
  pub audits : List AuditRecord
  pub recordings : List Recording

pub record Env : Type 0 where
  pub fault : ℕ → Option DbError
  pub uuid : ℕ → Uuid
  pub clock : ℕ → Time
  pub context_done : ℕ → Bool
  -- that many bytes of the system's random generator, if it works
  pub random : ℕ → ℕ → Option (List ℕ)
  -- what the type `citext` of PostgreSQL compares of a text
  pub fold_case : Text → Text
  -- the free bytes of the disk, where the system tells them
  pub free_bytes : ℕ → Option ℕ

pub record World : Type 0 where
  pub env : Env
  pub tick : ℕ
  pub db : Db
  pub sessions : List StoredSession
  pub files : List File

pub data Result {ℓ} (A : Type ℓ) : Type ℓ where
  ok : A → Result A
  err : Error → Result A

abbrev pub Action {ℓ} : Type ℓ → Type ℓ
Action A = World → Result A × World

abbrev pub advance : World → World
advance w = record w { tick = suc w.tick }

-- What a statement does to the tables, if no fault hinders it.
pub data Effect {ℓ} (A : Type ℓ) : Type ℓ where
  done : A → Db → Effect A
  failed : DbError → Effect A

module _ {ℓ} {A : Type ℓ} where
  unfoldable pub pure : A → Action A
  pure a w = (ok a, w)

  unfoldable pub raise : Error → Action A
  raise e w = (err e, w)

  abbrev pub settle : World → Effect A → Result A × World
  settle w (done a db) = (ok a, record w { tick = suc w.tick; db = db })
  settle w (failed e) = (err (translate e), advance w)

  abbrev pub attempt : World → Option DbError → Effect A → Result A × World
  attempt w (some e) x = (err (translate e), advance w)
  attempt w none x = settle w x

  -- One statement. It sees the identifier and the time that the database would generate.
  unfoldable pub statement : (Uuid → Time → Db → Effect A) → Action A
  statement f w = attempt w (w.env.fault w.tick) (f (w.env.uuid w.tick) (w.env.clock w.tick) w.db)

  abbrev pub row_or_none : Db → Option A → Effect A
  row_or_none db none = failed DbError.no_rows
  row_or_none db (some a) = done a db

  -- A query of one row, and one of all rows.
  unfoldable pub query_row : (Db → Option A) → Action A
  query_row q = statement λ _ _ db. row_or_none db (q db)

  unfoldable pub query : (Db → A) → Action A
  query q = statement λ _ _ db. done (q db) db

  abbrev pub handle : (Error → Action A) → Result A × World → Result A × World
  handle handler (ok a, v) = (ok a, v)
  handle handler (err e, v) = handler e v

  -- `if a, err := m; err != nil { … }`, where the block goes on or returns another error
  unfoldable pub rescue : Action A → (Error → Action A) → Action A
  rescue m handler w = handle handler (m w)

-- `s.now()`
unfoldable pub now : Action Time
now w = (ok (w.env.clock w.tick), advance w)

-- `ctx.Err() != nil`
unfoldable pub context_ended? : Action Bool
context_ended? w = (ok (w.env.context_done w.tick), advance w)

abbrev pub continue_with {ℓ κ} :
    {A : Type ℓ} {B : Type κ} → (A → Action B) → Result A × World → Result B × World
continue_with f (ok a, v) = f a v
continue_with f (err e, v) = (err e, v)

infixl 5 ◌>>=◌ ◌>>◌
unfoldable pub ◌>>=◌ {ℓ κ} : {A : Type ℓ} {B : Type κ} → Action A → (A → Action B) → Action B
◌>>=◌ m f w = continue_with f (m w)

unfoldable pub ◌>>◌ {ℓ κ} : {A : Type ℓ} {B : Type κ} → Action A → Action B → Action B
m >> k = m >>= λ _. k

-- `if cond { return err }`
unfoldable pub refuse_if : Bool → Error → Action (Unit {0})
unfolding pure raise
refuse_if true e = raise e
refuse_if false e = pure tt

unfoldable pub require {ℓ} : {A : Type ℓ} → Option A → Error → Action A
unfolding pure raise
require none e = raise e
require (some a) e = pure a

-- `Commit` fails as a statement does, with the error of the driver.
abbrev pub commit {ℓ} : {A : Type ℓ} → Db → A → World → Option DbError → Result A × World
commit old a w (some e) = (err (driver e), record w { tick = suc w.tick; db = old })
commit old a w none = (ok a, advance w)

abbrev pub conclude {ℓ} : {A : Type ℓ} → Db → Result A × World → Result A × World
conclude old (ok a, v) = commit old a v (v.env.fault v.tick)
conclude old (err e, v) = (err e, record v { db = old })

abbrev pub begin {ℓ} : {A : Type ℓ} → Action A → World → Option DbError → Result A × World
begin m w (some e) = (err (driver e), advance w)
begin m w none = conclude w.db (m (advance w))

-- The field `pool` of a repository: it is nil in the one that a transaction hands out.
pub data Repository : Type 0 where
  pooled within_transaction : Repository

-- `InTx`: begin, run, and commit or roll back to the tables of the beginning. The body gets the
-- repository of the transaction.
unfoldable pub in_tx {ℓ} : {A : Type ℓ} → Repository → (Repository → Action A) → Action A
unfolding raise
in_tx within_transaction body w = raise nested_transaction w
in_tx pooled body w = begin (body within_transaction) w (w.env.fault w.tick)
