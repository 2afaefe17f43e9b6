-- ===== src/Store/Passes.antt =====
-- server/go/internal/store/passes.go, repository.go and recordings.go: the statements on the table
-- `passes`, with the constraints that the migration 00001_initial_schema.sql declares on it. A new
-- row stands first; the order of rows is not observable but through `ORDER BY`.
pub mod Table
pub mod Invariant
pub mod Steps
pub mod Exact
pub mod Rows
use project_dia.Prelude.{
  ℕ, zero, suc, Bool, true, false, ◌&&◌, ◌||◌, Option, none, some, List, [], ◌∷◌, ◌==◌,
  if◌then◌else◌, count_where, update, where_, first,
}
use project_dia.Prelude.Int.{ltb_ℤ}
use project_dia.Domain.{
  Uuid, Time, Pass, PassStatus, pending_approval, approved, rejected, cancelled, executing,
  CancellationReason, status_eq,
}
use project_dia.Errors.{
  Error, DbError, pg, context_ended, not_found, serialization, is_serialization,
}
use project_dia.Store.World.{
  Db, Action, Effect, done, failed, raise, pure, statement, query_row, query, rescue,
  context_ended?, refuse_if, ◌>>=◌, ◌>>◌,
}
use project_dia.Store.Order.{order_by}
use Table.{first_violation, ranges_overlap}

-- The end of a statement that changes the table: the constraints decide.
abbrev pub checked {ℓ} : {A : Type ℓ} → Option DbError → A → Db → Effect A
checked none a db = done a db
checked (some e) a db = failed e

abbrev pub put_passes {ℓ} : {A : Type ℓ} → A → List Pass → Db → Effect A
put_passes a rows db = checked (first_violation rows) a (record db { passes = rows })

-- `UPDATE passes SET … WHERE …`, with the number of rows affected
unfoldable pub update_passes : (Pass → Bool) → (Pass → Pass) → Action ℕ
update_passes sel f =
    statement λ _ _ db. put_passes (count_where sel db.passes) (update sel f db.passes) db

unfoldable pub get_pass_by_id : Uuid → Action Pass
get_pass_by_id id = query_row λ db. first (λ p. p.id == id) db.passes

-- The columns that the `INSERT` does not list take their defaults.
abbrev pub inserted : Uuid → Pass → Pass
inserted u pass = record pass {
  id = u;
  approved_by = none;
  approved_at = none;
  cancellation_reason = none;
  cancelled_by = none;
  cancelled_at = none;
}

unfoldable pub create_pass_once : Pass → Action Pass
create_pass_once pass =
    statement λ u _ db. put_passes (inserted u pass) (inserted u pass ∷ db.passes) db

abbrev pub create_pass_retries : ℕ
create_pass_retries = 5

-- The loop of `CreatePass` over the attempts left; the pause between two attempts is not modelled.
unfoldable pub create_pass_attempts : ℕ → Error → Pass → Action Pass
create_pass_attempts zero last pass = raise last
create_pass_attempts (suc left) last pass = rescue (create_pass_once pass) λ e.
    elim (is_serialization e) [
      | false ↦ raise e
      | true ↦ do
        ended ← context_ended?
        if ended then raise context_ended else create_pass_attempts left e pass
    ]

unfoldable pub create_pass : Pass → Action Pass
create_pass pass = create_pass_attempts create_pass_retries serialization pass

abbrev pub has_status : List PassStatus → PassStatus → Bool
has_status [] s = false
has_status (x ∷ xs) s = status_eq x s || has_status xs s

-- `status = ANY($2) AND reservation && tstzrange($3, $4, '[)')`
abbrev pub conflicts : Uuid → Time → Time → List PassStatus → Pass → Bool
conflicts station from to live p =
    p.station_id == station
    && has_status live p.status
    && ranges_overlap p.reserved_from p.reserved_to from to

-- A range whose bounds are out of order is an error of PostgreSQL.
abbrev pub find_effect : Uuid → Time → Time → List PassStatus → Db → Effect (List Pass)
find_effect station from to live db =
    if ltb_ℤ to from
    then failed (pg "" "22000")
    else done (order_by (λ p. p.reserved_from) (where_ (conflicts station from to live) db.passes))
        db

unfoldable pub find_conflicting_passes : Uuid → Time → Time → List PassStatus → Action (List Pass)
find_conflicting_passes station from to live =
    statement λ _ _ db. find_effect station from to live db

abbrev pub is_pending : Uuid → Pass → Bool
is_pending id p = p.id == id && status_eq p.status pending_approval

abbrev pub approve_row : Uuid → Time → Pass → Pass
approve_row by at p = record p { status = approved; approved_by = some by; approved_at = some at }

unfoldable pub approve_pass : Uuid → Uuid → Time → Action (Unit {0})
approve_pass id by at = do
  affected ← update_passes (is_pending id) (approve_row by at)
  refuse_if (affected == 0) not_found

abbrev pub reject_row : Uuid → Time → Pass → Pass
reject_row by at p = record p { status = rejected; approved_by = some by; approved_at = some at }

unfoldable pub reject_pass : Uuid → Uuid → Time → Action (Unit {0})
reject_pass id by at = do
  affected ← update_passes (is_pending id) (reject_row by at)
  refuse_if (affected == 0) not_found

abbrev pub is_cancellable : Uuid → Pass → Bool
is_cancellable id p =
    p.id == id && (status_eq p.status pending_approval || status_eq p.status approved)

abbrev pub cancel_row : Uuid → CancellationReason → Time → Pass → Pass
cancel_row by reason at p = record p {
  status = cancelled;
  cancellation_reason = some reason;
  cancelled_by = some by;
  cancelled_at = some at;
}

unfoldable pub cancel_pass : Uuid → Uuid → CancellationReason → Time → Action (Unit {0})
cancel_pass id by reason at = do
  affected ← update_passes (is_cancellable id) (cancel_row by reason at)
  refuse_if (affected == 0) not_found

abbrev pub is_running : Uuid → Pass → Bool
is_running id p = p.id == id && (status_eq p.status approved || status_eq p.status executing)

unfoldable pub set_pass_outcome : Uuid → PassStatus → Action Bool
set_pass_outcome id status = do
  affected ← update_passes (is_running id) (λ p. record p { status = status })
  pure (affected == 1)
