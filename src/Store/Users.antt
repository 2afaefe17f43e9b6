-- ===== src/Store/Users.antt =====
-- server/go/internal/store/users.go and repository.go: the statements on the table `users`, with the
-- trigger of server/go/internal/store/migrations/00002_root_protection_and_system_state.sql and the
-- unique indexes and references of 00001_initial_schema.sql. The checks on the text of a name and of
-- a hash are faults of the environment.
pub mod Laws
pub mod Root
pub mod Roots
pub mod Effects
pub mod Bookings
use project_dia.Prelude.{
  ℕ, suc, ◌==◌, ◌&&◌, not, str_eq, Bool, true, false, Option, none, some, List, [], ◌∷◌, String,
  first, where_, update, count_where, any, length, if◌then◌else◌,
}
use project_dia.Prelude.Text.{Text, text_eq}
use project_dia.Domain.{Uuid, Time, User, UserRole, role_eq, Pass, SchedulingConfig}
use project_dia.Errors.{
  Error, DbError, no_rows, connection_lost, pg, translate, not_found, root_protected,
  unique_violation, foreign_key_violation,
}
use project_dia.Store.World.{
  World, Db, Effect, done, failed, Action, Result, ok, err, advance, pure, statement, query_row,
  query, refuse_if, ◌>>=◌, ◌>>◌,
}
use project_dia.Store.Order.{order_by}
use project_dia.Store.Passes.{put_passes}

abbrev pub restrict_violation : String
restrict_violation = "23001"

abbrev pub invalid_enum_value : String
invalid_enum_value = "22P02"

unfoldable pub translate_user : DbError → Error
unfolding translate
translate_user (pg constraint code) =
    if str_eq code restrict_violation then root_protected else translate (pg constraint code)
translate_user e = translate e

-- A statement whose failure goes through `translateUser`.
module _ {ℓ} {A : Type ℓ} where
  abbrev pub settle_user : World → Effect A → Result A × World
  settle_user w (done a db) = (ok a, record w { tick = suc w.tick; db = db })
  settle_user w (failed e) = (err (translate_user e), advance w)

  abbrev pub attempt_user : World → Option DbError → Effect A → Result A × World
  attempt_user w (some e) x = (err (translate_user e), advance w)
  attempt_user w none x = settle_user w x

  unfoldable pub user_statement : (Db → Effect A) → Action A
  user_statement f w = attempt_user w (w.env.fault w.tick) (f w.db)

abbrev pub is_root : User → Bool
is_root u = role_eq u.role UserRole.root

abbrev pub is_user : Uuid → User → Bool
is_user id u = u.id == id

abbrev pub is_unknown : UserRole → Bool
is_unknown (UserRole.unknown s) = true
is_unknown _ = false

unfoldable pub count_users : Action ℕ
count_users = query λ db. length db.users

unfoldable pub list_users : Action (List User)
list_users = query λ db. order_by (λ u. u.created_at) db.users

abbrev pub is_named : (Text → Text) → Text → User → Bool
is_named fold name u = text_eq (fold u.username) (fold name)

unfoldable pub get_user_by_username : Text → Action User
get_user_by_username name w = query_row (λ db. first (is_named w.env.fold_case name) db.users) w

unfoldable pub get_user_by_id : Uuid → Action User
get_user_by_id id = query_row λ db. first (is_user id) db.users

-- An `INSERT` of a row: a role that the enumeration lacks, a name that is taken and a second root
-- are refused.
abbrev pub insert_user : (Text → Text) → User → Db → Effect User
insert_user fold row db =
    if is_unknown row.role
    then failed (pg "" invalid_enum_value)
    else if any (is_named fold row.username) db.users
    then failed (pg "users_username_key" unique_violation)
    else if is_root row && any is_root db.users
    then failed (pg "users_single_root" unique_violation)
    else done row (record db { users = row ∷ db.users })

unfoldable pub create_user : User → Action User
create_user user w =
    statement (λ u t db. insert_user w.env.fold_case (record user { id = u; created_at = t }) db) w

abbrev pub with_password : Text → User → User
with_password hash u = record u { password_hash = hash; must_change_password = false }

unfoldable pub set_password : Uuid → Text → Action (Unit {0})
set_password id hash = do
  affected ← user_statement λ db.
      done (count_where (is_user id) db.users)
        (record db { users = update (is_user id) (with_password hash) db.users })
  refuse_if (affected == 0) not_found

abbrev pub with_role : UserRole → User → User
with_role role u = record u { role = role }

-- The trigger lets no root become something else, and the index lets no second user become root.
abbrev pub is_other_root : Uuid → User → Bool
is_other_root id u = is_root u && not (is_user id u)

abbrev pub is_root_user : Uuid → User → Bool
is_root_user id u = is_user id u && is_root u

abbrev pub update_role : Uuid → UserRole → Db → Effect ℕ
update_role id role db =
    if is_unknown role
    then failed (pg "" invalid_enum_value)
    else if not (role_eq role UserRole.root) && any (is_root_user id) db.users
    then failed (pg "" restrict_violation)
    else if role_eq role UserRole.root
        && any (is_user id) db.users
        && any (is_other_root id) db.users
    then failed (pg "users_single_root" unique_violation)
    else done (count_where (is_user id) db.users)
        (record db { users = update (is_user id) (with_role role) db.users })

unfoldable pub set_user_role : Uuid → UserRole → Action (Unit {0})
set_user_role id role = do
  affected ← user_statement (update_role id role)
  refuse_if (affected == 0) not_found

-- `ON DELETE SET NULL`
abbrev pub unless_is : Uuid → Option Uuid → Option Uuid
unless_is id none = none
unless_is id (some u) = if u == id then none else some u

abbrev pub forget_in_pass : Uuid → Pass → Pass
forget_in_pass id p = record p {
  approved_by = unless_is id p.approved_by;
  cancelled_by = unless_is id p.cancelled_by;
}

abbrev pub forget_in_config : Uuid → SchedulingConfig → SchedulingConfig
forget_in_config id c = record c { created_by = unless_is id c.created_by }

-- The trigger keeps the root, and a pass keeps the user who requested it.
abbrev pub remove_user : Uuid → Db → Effect ℕ
remove_user id db =
    if any (is_root_user id) db.users
    then failed (pg "" restrict_violation)
    else if any (is_user id) db.users && any (λ p. p.requested_by == id) db.passes
    then failed (pg "passes_requested_by_fkey" foreign_key_violation)
    else put_passes (count_where (is_user id) db.users)
        (update (λ _. true) (forget_in_pass id) db.passes)
        (record db {
          users = where_ (λ u. not (is_user id u)) db.users;
          configs = update (λ _. true) (forget_in_config id) db.configs;
        })

unfoldable pub delete_user : Uuid → Action (Unit {0})
delete_user id = do affected ← user_statement (remove_user id); refuse_if (affected == 0) not_found
