-- ===== src/Http/Routes/Effects.antt =====
-- What the routes of server/go/internal/httpapi/server.go do to the tables: a request moves them along
-- any relation that allows the statements on passes, the statements on users and the planning.
use project_dia.Prelude.{true, false}
use project_dia.Prelude.Text.{Text}
use project_dia.Domain.{User, UserRole}
use project_dia.Store.World.{Db}
use project_dia.Store.World.Moves.{Moves, Moves-bind, Moves-then, Moves-refuse_if}
use project_dia.Store.Passes.Steps.{Steps}
use project_dia.Store.Users.Root.{UserSteps}
use project_dia.Scheduling.Safety.{PlansMove}
use project_dia.Auth.Service.{AuthService}
use project_dia.Auth.Service.Effects.{Moves-resolve}
use project_dia.Http.Answers.{Reply}
use project_dia.Http.Answers.Effects.{Moves-or_answer}
use project_dia.Http.Guards.{
  Handler, bearer_token, require_auth, require_password_changed, require_role, authenticated,
  role_gated,
}
use project_dia.Http.Accounts.Effects.{
  Moves-handle_login, Moves-handle_logout, Moves-handle_me, Moves-handle_change_password,
  Moves-handle_list_users, Moves-handle_create_user, Moves-handle_update_user,
  Moves-handle_delete_user,
}
use project_dia.Http.Passes.Effects.{
  Moves-handle_request_pass, Moves-handle_list_passes, Moves-handle_get_pass, Moves-decide_pass,
  Moves-handle_cancel_pass, Moves-handle_update_scheduling_config, Moves-handle_get_pass_plan,
}
use project_dia.Http.Routes.{
  HttpServer, Endpoint, post_login, post_logout, get_me, get_users, post_change_password, post_user,
  patch_user, get_passes, post_pass, post_approve, post_reject, post_cancel, get_plan,
  put_scheduling_config, serve,
}

-- A handler that moves the tables for every user.
abbrev HandlerMoves {ℓ} : (Db → Db → Type ℓ) → Handler Reply → Type ℓ
HandlerMoves R next = (user : User) (token : Text) → Moves R (next user token)

module _ {ℓ} {R : Db → Db → Type ℓ} (steps : Steps R) (users : UserSteps R) where
  Moves-changed :
      (next : Handler Reply) → HandlerMoves R next → HandlerMoves R (require_password_changed next)
  unfolding require_password_changed
  Moves-changed next h user token =
      Moves-then steps.pre _ _ (Moves-refuse_if steps.pre _ _) (h user token)

  Moves-ranked :
      (role : UserRole) (next : Handler Reply)
      → HandlerMoves R next
      → HandlerMoves R (require_role role next)
  unfolding require_role
  Moves-ranked role next h user token =
      Moves-then steps.pre _ _ (Moves-refuse_if steps.pre _ _) (h user token)

  behind_auth :
      (s : AuthService) (next : Handler Reply) (header : Text)
      → HandlerMoves R next
      → Moves R (require_auth s next header)
  unfolding require_auth
  behind_auth s next header h = Moves-then steps.pre _ _ (Moves-refuse_if steps.pre _ _) (
      Moves-bind steps.pre _ _ (Moves-or_answer steps.pre _ _ (Moves-resolve steps users s _))
        λ user. h user (bearer_token header))

  behind_password :
      (s : AuthService) (next : Handler Reply) (header : Text)
      → HandlerMoves R next
      → Moves R (authenticated s next header)
  unfolding authenticated
  behind_password s next header h =
      behind_auth s (require_password_changed next) header (Moves-changed next h)

  behind_role :
      (s : AuthService) (role : UserRole) (next : Handler Reply) (header : Text)
      → HandlerMoves R next
      → Moves R (role_gated s role next header)
  unfolding role_gated
  behind_role s role next header h =
      behind_auth s (require_password_changed (require_role role next)) header
        (Moves-changed (require_role role next) (Moves-ranked role next h))

  pub Moves-serve :
      (s : HttpServer) (e : Endpoint) (header : Text)
      → PlansMove R s.scheduling.plans
      → Moves R (serve s e header)
  unfolding serve
  Moves-serve s (post_login body) header h = Moves-handle_login steps users s.auth body
  Moves-serve s post_logout header h =
      behind_auth _ _ header (Moves-handle_logout steps users s.auth)
  Moves-serve s (post_change_password body) header h =
      behind_auth _ _ header (Moves-handle_change_password steps users s.auth body)
  Moves-serve s get_me header h = behind_auth _ _ header (Moves-handle_me steps users)
  Moves-serve s get_users header h = behind_role _ _ _ header (Moves-handle_list_users steps users)
  Moves-serve s (post_user body) header h =
      behind_role _ _ _ header (Moves-handle_create_user steps users s.auth body)
  Moves-serve s (patch_user path body) header h =
      behind_role _ _ _ header (Moves-handle_update_user steps users path body)
  Moves-serve s (Endpoint.delete_user path) header h =
      behind_role _ _ _ header (Moves-handle_delete_user steps users path)
  Moves-serve s (get_passes scope status) header h =
      behind_password _ _ header (Moves-handle_list_passes steps scope status)
  Moves-serve s (post_pass body) header h =
      behind_password _ _ header (λ u t. Moves-handle_request_pass steps s.scheduling body u t h)
  Moves-serve s (Endpoint.get_pass path) header h =
      behind_password _ _ header (Moves-handle_get_pass steps path)
  Moves-serve s (post_approve path) header h =
      behind_role _ _ _ header (λ u t. Moves-decide_pass steps s.scheduling true path u t h)
  Moves-serve s (post_reject path) header h =
      behind_role _ _ _ header (λ u t. Moves-decide_pass steps s.scheduling false path u t h)
  Moves-serve s (post_cancel path) header h =
      behind_password _ _ header (Moves-handle_cancel_pass steps path)
  Moves-serve s (get_plan path) header h =
      behind_role _ _ _ header (Moves-handle_get_pass_plan steps s.unmarshal path)
  Moves-serve s (put_scheduling_config body) header h =
      behind_role _ _ _ header (Moves-handle_update_scheduling_config steps s.is_elevation body)
