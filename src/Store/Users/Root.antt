-- ===== src/Store/Users/Root.antt =====
-- What a relation between tables must allow of the statements on users, and the actions of
-- server/go/internal/auth that are built from them.
use project_dia.Prelude.{◌≡◌, refl, false, Option, none, some}
use project_dia.Prelude.Text.{Text}
use project_dia.Domain.{Uuid, User, UserRole, role_eq}
use project_dia.Errors.{DbError}
use project_dia.Store.World.{Db, World, Effect, done, failed}
use project_dia.Store.World.Moves.{IsPreorder, Moves, Moves-query, Moves-query_row}
use project_dia.Store.Users.{
  count_users, list_users, get_user_by_username, get_user_by_id, create_user, set_password,
  set_user_role, delete_user, user_statement, attempt_user, settle_user,
}

-- No user is made root.
pub record UserSteps {ℓ} (R : Db → Db → Type ℓ) : Type ℓ where
  pub create : (u : User) → role_eq u.role UserRole.root ≡ false → Moves R (create_user u)
  pub password : (id : Uuid) (hash : Text) → Moves R (set_password id hash)
  pub role :
      (id : Uuid) (r : UserRole) → role_eq r UserRole.root ≡ false → Moves R (set_user_role id r)
  pub delete : (id : Uuid) → Moves R (delete_user id)

module _ {ℓ κ} {A : Type κ} {R : Db → Db → Type ℓ} (pre : IsPreorder R) where
  settled :
      (w : World) (x : Effect A)
      → ((d : Db) (a : A) → x ≡ done a d → R w.db d)
      → R w.db (settle_user w x).1.db
  settled w (done a db) h = h db a refl
  settled w (failed e) h = pre.refl_at w.db

  attempted :
      (w : World) (o : Option DbError) (x : Effect A)
      → ((d : Db) (a : A) → x ≡ done a d → R w.db d)
      → R w.db (attempt_user w o x).1.db
  attempted w (some e) x h = pre.refl_at w.db
  attempted w none x h = settled w x h

  pub Moves-user_statement :
      (f : Db → Effect A)
      → ((d e : Db) (a : A) → f d ≡ done a e → R d e)
      → Moves R (user_statement f)
  unfolding user_statement
  Moves-user_statement f h = record {
    at = λ w. attempted w (w.env.fault w.tick) _ (λ d a p. h w.db d a p);
  }

module _ {ℓ} {R : Db → Db → Type ℓ} (pre : IsPreorder R) where
  pub Moves-count_users : Moves R count_users
  unfolding count_users
  Moves-count_users = Moves-query pre _

  pub Moves-list_users : Moves R list_users
  unfolding list_users
  Moves-list_users = Moves-query pre _

  pub Moves-get_user_by_username : (name : Text) → Moves R (get_user_by_username name)
  unfolding get_user_by_username
  Moves-get_user_by_username name = record { at = λ w. (Moves-query_row pre _).at w }

  pub Moves-get_user_by_id : (id : Uuid) → Moves R (get_user_by_id id)
  unfolding get_user_by_id
  Moves-get_user_by_id id = Moves-query_row pre _

pub ruleset user_moves =
    (Moves-count_users, Moves-list_users, Moves-get_user_by_username, Moves-get_user_by_id)
