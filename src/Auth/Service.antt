-- ===== src/Auth/Service.antt =====
-- server/go/internal/auth/service.go. What a user who is not there costs is not modelled: the password
-- is then checked against a decoy and the answer is thrown away. What is logged is not modelled.
pub mod Laws
pub mod Sessions
pub mod Effects
pub mod Passwords
use project_dia.Prelude.{ℕ, ltb, String, Bool, true, false, Option, none, some, if◌then◌else◌}
use project_dia.Prelude.Int.{◌+ℤ◌, pos}
use project_dia.Prelude.Text.{Text}
use project_dia.Domain.{Uuid, Time, Duration, User, UserRole, AuditRecord, Entity, identified}
use project_dia.Errors.{
  Error, is_not_found, invalid_credentials, unauthenticated, is_session_not_found,
}
use project_dia.Store.World.{Action, Session, pure, raise, rescue, now, ◌>>=◌, ◌>>◌}
use project_dia.Store.Reads.{append_audit}
use project_dia.Store.Users.{
  count_users, create_user, get_user_by_username, get_user_by_id, set_password,
}
use project_dia.Store.Sessions.{new_token, create, get, delete}
use project_dia.Auth.Password.{
  Crypto, bootstrap_username, bootstrap_password, hash_password, verify_password, validate_password,
}

pub record AuthService : Type 0 where
  pub crypto : Crypto
  pub session_ttl : Duration

pub record LoginResult : Type 0 where
  pub token : Text
  pub user : User
  pub must_change_password : Bool
  pub expires_at : Time

-- A user to be created; the database fills in the rest.
abbrev pub new_user : Text → Text → UserRole → User
new_user username hash role = record {
  id = 0;
  username = username;
  password_hash = hash;
  role = role;
  must_change_password = true;
  created_at = pos 0;
}

unfoldable pub create_root : AuthService → Action (Unit {0})
create_root s = do
  hash ← hash_password s.crypto bootstrap_password
  root ← create_user (new_user bootstrap_username hash UserRole.root)
  append_audit (record {
    actor_user_id = none;
    action = "user.bootstrap_created";
    entity_type = "user";
    entity_id = identified root.id;
    reason = "";
  })
  pure tt

unfoldable pub ensure_bootstrap_root : AuthService → Action (Unit {0})
unfolding create_root
ensure_bootstrap_root s = do count ← count_users; if ltb 0 count then pure tt else create_root s

-- A failure to write the audit record is logged and forgotten.
unfoldable pub audit : Option Uuid → String → Uuid → Action (Unit {0})
audit actor action id =
    rescue
      (append_audit (record {
        actor_user_id = actor;
        action = action;
        entity_type = "user";
        entity_id = identified id;
        reason = "";
      })
        >> pure tt)
      (λ _. pure tt)

-- A refused password is recorded and answered as any wrong credentials are.
unfoldable pub refuse_password : Option Error → Option Uuid → String → Uuid → Action (Unit {0})
refuse_password none actor action id = pure tt
refuse_password (some e) actor action id = do audit actor action id; raise invalid_credentials

-- `errors.Is(err, …)`: one error stands for another, and the rest goes on as it is.
abbrev pub instead : (Error → Bool) → Error → Error → Error
instead is_it other e = if is_it e then other else e

unfoldable pub login : AuthService → Text → Text → Action LoginResult
login s username password = do
  user ←
      rescue (get_user_by_username username)
        (λ e. raise (instead is_not_found invalid_credentials e))
  refuse_password (verify_password s.crypto password user.password_hash) none "auth.login_failed"
      user.id
  token ← new_token
  at ← now
  create s.crypto.sha256_hex token (record { user_id = user.id; role = user.role; created_at = at })
      s.session_ttl
  audit (some user.id) "auth.login" user.id
  pure (record {
    token = token;
    user = user;
    must_change_password = user.must_change_password;
    expires_at = at +ℤ s.session_ttl;
  })

unfoldable pub logout : AuthService → Text → Action (Unit {0})
logout s token = delete s.crypto.sha256_hex token

-- The session of a user who is gone is deleted, whether or not that succeeds.
unfoldable pub drop_session : AuthService → Text → Error → Action User
drop_session s token e =
    if is_not_found e
    then rescue (delete s.crypto.sha256_hex token) (λ _. pure tt) >> raise unauthenticated
    else raise e

unfoldable pub resolve : AuthService → Text → Action User
unfolding drop_session
resolve s token = do
  session ←
      rescue (get s.crypto.sha256_hex token)
        (λ e. raise (instead is_session_not_found unauthenticated e))
  rescue (get_user_by_id session.user_id) (drop_session s token)

unfoldable pub refuse_error : Option Error → Action (Unit {0})
refuse_error none = pure tt
refuse_error (some e) = raise e

unfoldable pub change_password : AuthService → Uuid → Text → Text → Action (Unit {0})
change_password s id current new = do
  user ← get_user_by_id id
  refuse_password (verify_password s.crypto current user.password_hash) (some id)
      "auth.password_change_failed" id
  refuse_error (validate_password new)
  hash ← hash_password s.crypto new
  set_password id hash
  audit (some id) "auth.password_changed" id
