-- ===== src/Http/Routes/Refusals.antt =====
-- Whom the routes of server/go/internal/httpapi/server.go turn away.
use project_dia.Prelude.{
  ◌≡◌, ◌≢◌, ap, ◌∙◌, Bool, true, false, not, ◌&&◌, ◌||◌, String, [], inl, inr, ◌⊎◌, arith,
}
use project_dia.Prelude.Text.{Text}
use project_dia.Domain.{User, UserRole, role_eq}
use project_dia.Errors.{answered, unauthenticated}
use project_dia.Store.World.{World, ok, err}
use project_dia.Auth.Rbac.{at_least}
use project_dia.Auth.Service.{resolve}
use project_dia.Http.Answers.{Reply, unauthenticated_answer}
use project_dia.Http.Guards.{
  Handler, bearer_token, require_auth, require_password_changed, require_role, authenticated,
  role_gated,
}
use project_dia.Http.Guards.Laws.{
  Forbidden, no_token, no_session, session_found, not_changed, not_admitted,
}
use project_dia.Http.Routes.{
  HttpServer, Endpoint, post_login, post_logout, get_me, get_users, post_change_password, post_user,
  patch_user, get_passes, post_pass, post_approve, post_reject, post_cancel, get_plan,
  put_scheduling_config, serve,
}

-- Who may call an endpoint: anybody may log in; whoever is logged in may log out, look at the own
-- account and change the password; all else wants a password of one's own, and some of it a role.
abbrev pub is_staff : User → Bool
is_staff u = role_eq u.role UserRole.admin || role_eq u.role UserRole.root

abbrev pub may : User → Endpoint → Bool
may u (post_login body) = true
may u post_logout = true
may u get_me = true
may u (post_change_password body) = true
may u get_users = not u.must_change_password && is_staff u
may u (post_user body) = not u.must_change_password && is_staff u
may u (patch_user path body) = not u.must_change_password && role_eq u.role UserRole.root
may u (Endpoint.delete_user path) = not u.must_change_password && role_eq u.role UserRole.root
may u (get_passes scope status) = not u.must_change_password
may u (post_pass body) = not u.must_change_password
may u (Endpoint.get_pass path) = not u.must_change_password
may u (post_approve path) = not u.must_change_password && is_staff u
may u (post_reject path) = not u.must_change_password && is_staff u
may u (post_cancel path) = not u.must_change_password
may u (get_plan path) = not u.must_change_password && is_staff u
may u (put_scheduling_config body) = not u.must_change_password && role_eq u.role UserRole.root

pub staff-at_least : (u : User) → at_least u UserRole.admin ≡ is_staff u
unfolding role_eq
staff-at_least u = ground arith

root-at_least : (u : User) → at_least u UserRole.root ≡ role_eq u.role UserRole.root
unfolding role_eq
root-at_least u = ground arith

module _ (s : HttpServer) (header : Text) (w v : World) (user : User)
    (given : bearer_token header ≢ [])
    (found : resolve s.auth (bearer_token header) w ≡ (ok user, v)) where
  behind :
      (next : Handler Reply)
      → Forbidden (next user (bearer_token header)) v
      → (kind : String) × (require_auth s.auth next header w ≡ (err (answered 403 kind), v))
  behind next (kind, run) = (kind, session_found s.auth header next w v user given found ∙ run)

  gated :
      (role : UserRole) (next : Handler Reply)
      → (not user.must_change_password && at_least user role) ≡ false
      → (kind : String) × (role_gated s.auth role next header w ≡ (err (answered 403 kind), v))
  unfolding role_gated
  gated role next h =
      behind (require_password_changed (require_role role next))
        (not_admitted next user (bearer_token header) v role h)

  for_staff :
      (next : Handler Reply)
      → (not user.must_change_password && is_staff user) ≡ false
      → (kind : String) × (role_gated s.auth UserRole.admin next header w
          ≡ (err (answered 403 kind), v))
  for_staff next h =
      gated UserRole.admin next
        (ap (λ b. not user.must_change_password && b) (staff-at_least user) ∙ h)

  for_root :
      (next : Handler Reply)
      → (not user.must_change_password && role_eq user.role UserRole.root) ≡ false
      → (kind : String) × (role_gated s.auth UserRole.root next header w
          ≡ (err (answered 403 kind), v))
  for_root next h =
      gated UserRole.root next
        (ap (λ b. not user.must_change_password && b) (root-at_least user) ∙ h)

  for_changed :
      (next : Handler Reply)
      → not user.must_change_password ≡ false
      → (kind : String) × (authenticated s.auth next header w ≡ (err (answered 403 kind), v))
  unfolding authenticated
  for_changed next h =
      behind (require_password_changed next)
        (not_changed next user (bearer_token header) v (ground (arith, h)))

-- A user whose session is found but who may not call an endpoint gets the answer 403, and its handler
-- does not run: the world is the one that the lookup of the session left.
pub serve-forbidden :
    (s : HttpServer) (e : Endpoint) (header : Text) (w v : World) (user : User)
    → bearer_token header ≢ []
    → resolve s.auth (bearer_token header) w ≡ (ok user, v)
    → may user e ≡ false
    → (kind : String) × (serve s e header w ≡ (err (answered 403 kind), v))
unfolding serve
serve-forbidden s (post_login body) header w v user given found h = cc
serve-forbidden s post_logout header w v user given found h = cc
serve-forbidden s get_me header w v user given found h = cc
serve-forbidden s (post_change_password body) header w v user given found h = cc
serve-forbidden s get_users header w v user given found h =
    for_staff s header w v user given found _ h
serve-forbidden s (post_user body) header w v user given found h =
    for_staff s header w v user given found _ h
serve-forbidden s (patch_user path body) header w v user given found h =
    for_root s header w v user given found _ h
serve-forbidden s (Endpoint.delete_user path) header w v user given found h =
    for_root s header w v user given found _ h
serve-forbidden s (get_passes scope status) header w v user given found h =
    for_changed s header w v user given found _ h
serve-forbidden s (post_pass body) header w v user given found h =
    for_changed s header w v user given found _ h
serve-forbidden s (Endpoint.get_pass path) header w v user given found h =
    for_changed s header w v user given found _ h
serve-forbidden s (post_approve path) header w v user given found h =
    for_staff s header w v user given found _ h
serve-forbidden s (post_reject path) header w v user given found h =
    for_staff s header w v user given found _ h
serve-forbidden s (post_cancel path) header w v user given found h =
    for_changed s header w v user given found _ h
serve-forbidden s (get_plan path) header w v user given found h =
    for_staff s header w v user given found _ h
serve-forbidden s (put_scheduling_config body) header w v user given found h =
    for_root s header w v user given found _ h

-- The endpoints that want no session.
abbrev pub is_public : Endpoint → Bool
is_public (post_login body) = true
is_public _ = false

-- The world after the guard has found no session: that of the request, or that of the lookup.
abbrev pub NoSession : HttpServer → Text → World → World → Type 0
NoSession s header w v =
    ((bearer_token header ≡ []) × (w ≡ v))
    ⊎ ((bearer_token header ≢ [])
        × (resolve s.auth (bearer_token header) w ≡ (err unauthenticated, v)))

anonymous :
    (s : HttpServer) (header : Text) (next : Handler Reply) (w v : World)
    → NoSession s header w v
    → require_auth s.auth next header w ≡ (err unauthenticated_answer, v)
anonymous s header next w v (inl (empty, same)) =
    no_token s.auth header next w empty ∙ ap (λ x. (err unauthenticated_answer, x)) same
anonymous s header next w v (inr (given, lost)) = no_session s.auth header next w v given lost

anonymous_role :
    (s : HttpServer) (header : Text) (role : UserRole) (next : Handler Reply) (w v : World)
    → NoSession s header w v
    → role_gated s.auth role next header w ≡ (err unauthenticated_answer, v)
unfolding role_gated
anonymous_role s header role next w v h =
    anonymous s header (require_password_changed (require_role role next)) w v h

anonymous_user :
    (s : HttpServer) (header : Text) (next : Handler Reply) (w v : World)
    → NoSession s header w v
    → authenticated s.auth next header w ≡ (err unauthenticated_answer, v)
unfolding authenticated
anonymous_user s header next w v h = anonymous s header (require_password_changed next) w v h

-- Without a token, or with one that resolves to nobody, the endpoints that read or change accounts,
-- passes and the scheduling configuration, those of `Endpoint` other than the login, answer 401 and the
-- handler does not run: the world is the one that the guard left.
pub serve-anonymous :
    (s : HttpServer) (e : Endpoint) (header : Text) (w v : World)
    → is_public e ≡ false
    → NoSession s header w v
    → serve s e header w ≡ (err unauthenticated_answer, v)
unfolding serve
serve-anonymous s (post_login body) header w v public h = cc
serve-anonymous s post_logout header w v public h = anonymous s header _ w v h
serve-anonymous s get_me header w v public h = anonymous s header _ w v h
serve-anonymous s (post_change_password body) header w v public h = anonymous s header _ w v h
serve-anonymous s get_users header w v public h = anonymous_role s header _ _ w v h
serve-anonymous s (post_user body) header w v public h = anonymous_role s header _ _ w v h
serve-anonymous s (patch_user path body) header w v public h = anonymous_role s header _ _ w v h
serve-anonymous s (Endpoint.delete_user path) header w v public h =
    anonymous_role s header _ _ w v h
serve-anonymous s (get_passes scope status) header w v public h = anonymous_user s header _ w v h
serve-anonymous s (post_pass body) header w v public h = anonymous_user s header _ w v h
serve-anonymous s (Endpoint.get_pass path) header w v public h = anonymous_user s header _ w v h
serve-anonymous s (post_approve path) header w v public h = anonymous_role s header _ _ w v h
serve-anonymous s (post_reject path) header w v public h = anonymous_role s header _ _ w v h
serve-anonymous s (post_cancel path) header w v public h = anonymous_user s header _ w v h
serve-anonymous s (get_plan path) header w v public h = anonymous_role s header _ _ w v h
serve-anonymous s (put_scheduling_config body) header w v public h =
    anonymous_role s header _ _ w v h
