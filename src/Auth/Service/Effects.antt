-- ===== src/Auth/Service/Effects.antt =====
-- What server/go/internal/auth/service.go does to the tables: nothing but statements on users and audit
-- records. Redis is not a table.
use project_dia.Prelude.{ℕ, Option, none, some, List, String}
use project_dia.Prelude.Text.{Text}
use project_dia.Domain.{Uuid, Time, Duration}
use project_dia.Errors.{Error, DbError}
use project_dia.Store.World.{Db, World, Result, Session, StoredSession}
use project_dia.Store.World.Moves.{IsPreorder, Moves, Moves-pure, Moves-raise, moves_rules}
use project_dia.Store.Passes.Steps.{Steps, Moves-append_audit}
use project_dia.Store.Users.Root.{UserSteps, user_moves}
use project_dia.Store.Sessions.{drawn, read_random, new_token, command, redis, create, get, delete}
use project_dia.Auth.Password.{Crypto, hash_password}
use project_dia.Auth.Service.{
  AuthService, audit, refuse_password, refuse_error, login, logout, drop_session, resolve,
  change_password,
}

module _ {ℓ} {R : Db → Db → Type ℓ} (pre : IsPreorder R) where
  drawn-same : (w : World) (o : Option (List ℕ)) → R w.db (drawn w o).1.db
  drawn-same w none = pre.refl_at w.db
  drawn-same w (some bytes) = pre.refl_at w.db

  pub Moves-read_random : (size : ℕ) → Moves R (read_random size)
  unfolding read_random
  Moves-read_random size = record { at = λ w. drawn-same w (w.env.random w.tick size) }

  command-same {κ} :
      {A : Type κ} (w : World) (o : Option DbError) (x : Result A × List StoredSession)
      → R w.db (command w o x).1.db
  command-same w none x = pre.refl_at w.db
  command-same w (some e) x = pre.refl_at w.db

  pub Moves-redis {κ} :
      {A : Type κ} (f : Time → List StoredSession → Result A × List StoredSession)
      → Moves R (redis f)
  unfolding redis
  Moves-redis f = record {
    at = λ w. command-same w (w.env.fault w.tick) (f (w.env.clock w.tick) w.sessions);
  }

  pub Moves-new_token : Moves R new_token
  unfolding new_token
  Moves-new_token = search (moves_rules, pre, Moves-read_random)

  pub Moves-create :
      (h : Text → Text) (token : Text) (session : Session) (ttl : Duration)
      → Moves R (create h token session ttl)
  unfolding create
  Moves-create h token session ttl = search (moves_rules, pre, Moves-redis)

  pub Moves-get : (h : Text → Text) (token : Text) → Moves R (get h token)
  unfolding get
  Moves-get h token = Moves-redis _

  pub Moves-delete : (h : Text → Text) (token : Text) → Moves R (delete h token)
  unfolding delete
  Moves-delete h token = Moves-redis _

  pub Moves-hash_password : (c : Crypto) (password : Text) → Moves R (hash_password c password)
  unfolding hash_password
  Moves-hash_password c password = search (moves_rules, pre, Moves-read_random)

ruleset session_moves = (
  moves_rules, user_moves, Moves-new_token, Moves-create, Moves-get, Moves-delete,
  Moves-hash_password,
)

module _ {ℓ} {R : Db → Db → Type ℓ} (steps : Steps R) (users : UserSteps R) where
  Moves-audit :
      (actor : Option Uuid) (action : String) (id : Uuid) → Moves R (audit actor action id)
  unfolding audit
  Moves-audit actor action id = search (moves_rules, steps, steps.pre, Moves-append_audit)

  Moves-refuse_password :
      (o : Option Error) (actor : Option Uuid) (action : String) (id : Uuid)
      → Moves R (refuse_password o actor action id)
  unfolding refuse_password
  Moves-refuse_password none actor action id = Moves-pure steps.pre tt
  Moves-refuse_password (some e) actor action id = search (moves_rules, steps.pre, Moves-audit)

  Moves-refuse_error : (o : Option Error) → Moves R (refuse_error o)
  unfolding refuse_error
  Moves-refuse_error none = Moves-pure steps.pre tt
  Moves-refuse_error (some e) = Moves-raise steps.pre e

  Moves-drop_session :
      (s : AuthService) (token : Text) (e : Error) → Moves R (drop_session s token e)
  unfolding drop_session
  Moves-drop_session s token e = search (session_moves, steps.pre)

  pub Moves-login :
      (s : AuthService) (username password : Text) → Moves R (login s username password)
  unfolding login
  Moves-login s username password =
      search (session_moves, steps.pre, Moves-audit, Moves-refuse_password) depth 30

  pub Moves-logout : (s : AuthService) (token : Text) → Moves R (logout s token)
  unfolding logout
  Moves-logout s token = Moves-delete steps.pre _ _

  pub Moves-resolve : (s : AuthService) (token : Text) → Moves R (resolve s token)
  unfolding resolve
  Moves-resolve s token = search (session_moves, steps.pre, Moves-drop_session) depth 12

  pub Moves-change_password :
      (s : AuthService) (id : Uuid) (current new : Text)
      → Moves R (change_password s id current new)
  unfolding change_password
  Moves-change_password s id current new =
      search
        (
          session_moves, steps.pre, users.password, Moves-audit, Moves-refuse_password,
          Moves-refuse_error,
        )
        depth 30
