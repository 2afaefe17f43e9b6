-- ===== src/Http/Guards/Laws.antt =====
-- What the guards of server/go/internal/httpapi/middleware.go let through.
use project_dia.Prelude.{
  ◌≡◌, ◌≢◌, ◌∙◌, true, false, not, ◌&&◌, String, [], Bool-cases, inl, inr, arith,
}
use project_dia.Prelude.Text.{Text, text_eq, text_eq_iff}
use project_dia.Domain.{User, UserRole}
use project_dia.Errors.{answered, unauthenticated}
use project_dia.Store.World.{World, Action, ok, err, raise}
use project_dia.Store.World.Laws.{
  bind_ok, bind_err, then_ok, then_err, refused, not_refused, rescue_ok, rescue_err,
}
use project_dia.Auth.Rbac.{at_least}
use project_dia.Auth.Service.{AuthService, resolve}
use project_dia.Http.Answers.{Reply, unauthenticated_answer, or_answer}
use project_dia.Http.Guards.{
  Handler, bearer_token, require_auth, require_password_changed, require_role,
}

module _ (s : AuthService) (header : Text) (next : Handler Reply) (w : World) where
  pub no_token :
      bearer_token header ≡ [] → require_auth s next header w ≡ (err unauthenticated_answer, w)
  unfolding require_auth text_eq
  no_token h = then_err _ _ w w unauthenticated_answer (rw h (refused unauthenticated_answer w))

  token_given : bearer_token header ≢ [] → text_eq (bearer_token header) [] ≡ false
  token_given h = ground (arith, text_eq_iff (bearer_token header) [])

  pub no_session :
      (v : World)
      → bearer_token header ≢ []
      → resolve s (bearer_token header) w ≡ (err unauthenticated, v)
      → require_auth s next header w ≡ (err unauthenticated_answer, v)
  unfolding require_auth or_answer raise
  no_session v given h =
      then_ok _ _ w w tt (rw (token_given given) (not_refused unauthenticated_answer w))
      ∙ bind_err _ _ w v unauthenticated_answer (rescue_err _ _ w v unauthenticated h)

  pub session_found :
      (v : World) (user : User)
      → bearer_token header ≢ []
      → resolve s (bearer_token header) w ≡ (ok user, v)
      → require_auth s next header w ≡ next user (bearer_token header) v
  unfolding require_auth or_answer
  session_found v user given h =
      then_ok _ _ w w tt (rw (token_given given) (not_refused unauthenticated_answer w))
      ∙ bind_ok _ _ w v user (rescue_ok _ _ w v user h)

-- The answer that turns a user away, in the world in which the user was found.
abbrev pub Forbidden : Action Reply → World → Type 0
Forbidden m v = (kind : String) × (m v ≡ (err (answered 403 kind), v))

module _ (next : Handler Reply) (user : User) (token : Text) (v : World) where
  pub not_changed :
      user.must_change_password ≡ true → Forbidden (require_password_changed next user token) v
  unfolding require_password_changed
  not_changed h = ("password_change_required", then_err _ _ v v _ (rw h (refused _ v)))

  not_ranked :
      (role : UserRole)
      → at_least user role ≡ false
      → Forbidden (require_role role next user token) v
  unfolding require_role
  not_ranked role h = ("forbidden", then_err _ _ v v _ (rw h (refused _ v)))

  changed :
      user.must_change_password ≡ false
      → require_password_changed next user token v ≡ next user token v
  unfolding require_password_changed
  changed h = then_ok _ _ v v tt (rw h (not_refused _ v))

module _ (next : Handler Reply) (user : User) (token : Text) (v : World) where
  pub not_admitted :
      (role : UserRole)
      → (not user.must_change_password && at_least user role) ≡ false
      → Forbidden (require_password_changed (require_role role next) user token) v
  not_admitted role h = elim (Bool-cases user.must_change_password) [
    | inl e ↦ not_changed (require_role role next) user token v e
    | inr e ↦
        let (kind, run) = not_ranked next user token v role (ground (arith, e)) in
        (kind, changed (require_role role next) user token v e ∙ run)
  ]
