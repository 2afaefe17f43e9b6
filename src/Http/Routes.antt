-- ===== src/Http/Routes.antt =====
-- server/go/internal/httpapi/server.go: the endpoints with their guards. An endpoint holds what its
-- handler reads of the request: the path, the query and the decoded body.
pub mod Refusals
pub mod Effects
pub mod Safety
pub mod Privacy
use project_dia.Prelude.{ℕ, String, Bool, true, false, Option, List}
use project_dia.Prelude.Text.{Text}
use project_dia.Domain.{Uuid, Float64, UserRole, PassStatus}
use project_dia.Store.World.{Action}
use project_dia.PassPlan.Wire.{PassPlan}
use project_dia.Auth.Service.{AuthService}
use project_dia.Scheduling.Service.{Service}
use project_dia.Http.Answers.{Reply}
use project_dia.Http.Guards.{require_auth, authenticated, role_gated}
use project_dia.Http.Accounts.{
  LoginRequest, ChangePasswordRequest, CreateUserRequest, handle_login, handle_logout, handle_me,
  handle_change_password, handle_list_users, handle_create_user, handle_update_user,
  handle_delete_user,
}
use project_dia.Http.Passes.{
  RequestPassRequest, SchedulingConfigRequest, handle_request_pass, handle_list_passes,
  handle_get_pass, decide_pass, handle_cancel_pass, handle_update_scheduling_config,
  handle_get_pass_plan,
}

pub record HttpServer : Type 0 where
  pub auth : AuthService
  pub scheduling : Service
  pub is_elevation : Float64 → Bool
  pub unmarshal : List ℕ → Option PassPlan

pub data Endpoint : Type 0 where
  post_login : Option LoginRequest → Endpoint
  post_logout get_me get_users : Endpoint
  post_change_password : Option ChangePasswordRequest → Endpoint
  post_user : Option CreateUserRequest → Endpoint
  patch_user : Option Uuid → Option (Option UserRole) → Endpoint
  delete_user : Option Uuid → Endpoint
  get_passes : String → Option PassStatus → Endpoint
  post_pass : Option RequestPassRequest → Endpoint
  get_pass post_approve post_reject post_cancel get_plan : Option Uuid → Endpoint
  put_scheduling_config : Option SchedulingConfigRequest → Endpoint

-- `NewMux`, with the text of the header `Authorization`.
unfoldable pub serve : HttpServer → Endpoint → Text → Action Reply
serve s (post_login body) header = handle_login s.auth body
serve s post_logout header = require_auth s.auth (handle_logout s.auth) header
serve s (post_change_password body) header =
    require_auth s.auth (handle_change_password s.auth body) header
serve s get_me header = require_auth s.auth handle_me header
serve s get_users header = role_gated s.auth UserRole.admin handle_list_users header
serve s (post_user body) header =
    role_gated s.auth UserRole.admin (handle_create_user s.auth body) header
serve s (patch_user path body) header =
    role_gated s.auth UserRole.root (handle_update_user path body) header
serve s (delete_user path) header = role_gated s.auth UserRole.root (handle_delete_user path) header
serve s (get_passes scope status) header =
    authenticated s.auth (handle_list_passes scope status) header
serve s (post_pass body) header =
    authenticated s.auth (handle_request_pass s.scheduling body) header
serve s (get_pass path) header = authenticated s.auth (handle_get_pass path) header
serve s (post_approve path) header =
    role_gated s.auth UserRole.admin (decide_pass s.scheduling true path) header
serve s (post_reject path) header =
    role_gated s.auth UserRole.admin (decide_pass s.scheduling false path) header
serve s (post_cancel path) header = authenticated s.auth (handle_cancel_pass path) header
serve s (get_plan path) header =
    role_gated s.auth UserRole.admin (handle_get_pass_plan s.unmarshal path) header
serve s (put_scheduling_config body) header =
    role_gated s.auth UserRole.root (handle_update_scheduling_config s.is_elevation body) header
