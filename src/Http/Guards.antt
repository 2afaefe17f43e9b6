-- ===== src/Http/Guards.antt =====
-- server/go/internal/httpapi/middleware.go: what stands before a handler. The user and the token that
-- the context of a request carries are arguments of the handler.
pub mod Laws
use project_dia.Prelude.{
  String, Bool, true, false, not, Option, none, some, List, [], if◌then◌else◌,
}
use project_dia.Prelude.Text.{Text, codes, text_eq, after_prefix, trim_space}
use project_dia.Domain.{User, UserRole}
use project_dia.Errors.{Error, unauthenticated, answered}
use project_dia.Store.World.{Action, refuse_if, ◌>>=◌, ◌>>◌}
use project_dia.Auth.Rbac.{at_least}
use project_dia.Auth.Service.{AuthService, resolve}
use project_dia.Http.Answers.{unauthenticated_answer, forbidden_answer, internal_error, or_answer}

abbrev pub bearer_prefix : Text
bearer_prefix = codes "Bearer "

abbrev pub trimmed_or_empty : Option Text → Text
trimmed_or_empty none = []
trimmed_or_empty (some rest) = trim_space rest

unfoldable pub bearer_token : Text → Text
unfolding after_prefix
bearer_token header = trimmed_or_empty (after_prefix bearer_prefix header)

abbrev pub resolve_error : Error → Error
resolve_error unauthenticated = unauthenticated_answer
resolve_error _ = internal_error

abbrev pub Handler {ℓ} : Type ℓ → Type ℓ
Handler A = User → Text → Action A

module _ {ℓ} {A : Type ℓ} where
  unfoldable pub require_auth : AuthService → Handler A → Text → Action A
  unfolding bearer_token
  require_auth s next header = do
    refuse_if (text_eq (bearer_token header) []) unauthenticated_answer
    user ← or_answer resolve_error (resolve s (bearer_token header))
    next user (bearer_token header)

  unfoldable pub require_password_changed : Handler A → Handler A
  require_password_changed next user token = do
    refuse_if user.must_change_password (answered 403 "password_change_required")
    next user token

  unfoldable pub require_role : UserRole → Handler A → Handler A
  require_role required next user token = do
    refuse_if (not (at_least user required)) forbidden_answer
    next user token

  unfoldable pub authenticated : AuthService → Handler A → Text → Action A
  unfolding require_auth require_password_changed
  authenticated s next = require_auth s (require_password_changed next)

  unfoldable pub role_gated : AuthService → UserRole → Handler A → Text → Action A
  unfolding require_auth require_password_changed require_role
  role_gated s required next =
      require_auth s (require_password_changed (require_role required next))
