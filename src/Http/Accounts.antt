-- ===== src/Http/Accounts.antt =====
-- server/go/internal/httpapi/auth_handlers.go and user_handlers.go.
pub mod Effects
use project_dia.Prelude.{
  String, Bool, true, false, not, ◌||◌, Option, none, some, List, [], ◌∷◌, map, if◌then◌else◌,
}
use project_dia.Prelude.Text.{Text, text_eq, trim_space}
use project_dia.Domain.{Uuid, User, UserRole, role_is_empty}
use project_dia.Errors.{Error}
use project_dia.Store.World.{Action, pure, raise, refuse_if, require, ◌>>=◌, ◌>>◌}
use project_dia.Store.Users.{list_users, create_user, get_user_by_id, set_user_role, delete_user}
use project_dia.Auth.Rbac.{can_create_user_with_role, can_change_role, can_delete_user}
use project_dia.Auth.Password.{validate_password, hash_password}
use project_dia.Auth.Service.{AuthService, new_user, login, logout, change_password}
use project_dia.Http.Answers.{
  Reply, reply, no_content, session_body, user_body, users_body, to_user_view, decoded, or_answer,
  write_domain_error, always_internal, invalid_request, bad_request, forbidden_answer, audit,
}
use project_dia.Http.Guards.{Handler}

abbrev pub is_empty : Text → Bool
is_empty text = text_eq text []

pub record LoginRequest : Type 0 where
  pub username : Text
  pub password : Text

unfoldable pub handle_login : AuthService → Option LoginRequest → Action Reply
unfolding text_eq
handle_login s body = do
  request ← decoded body
  refuse_if (is_empty (trim_space request.username) || is_empty request.password) invalid_request
  result ← or_answer write_domain_error (login s request.username request.password)
  reply 200 (session_body result)

unfoldable pub handle_logout : AuthService → Handler Reply
handle_logout s user token = do or_answer always_internal (logout s token); no_content

unfoldable pub handle_me : Handler Reply
handle_me user token = reply 200 (user_body (to_user_view user))

pub record ChangePasswordRequest : Type 0 where
  pub current_password : Text
  pub new_password : Text

unfoldable pub handle_change_password : AuthService → Option ChangePasswordRequest → Handler Reply
handle_change_password s body user token = do
  request ← decoded body
  or_answer write_domain_error
      (change_password s user.id request.current_password request.new_password)
  or_answer always_internal (logout s token)
  no_content

unfoldable pub handle_list_users : Handler Reply
handle_list_users user token = do
  users ← or_answer always_internal list_users
  reply 200 (users_body (map to_user_view users))

pub record CreateUserRequest : Type 0 where
  pub username : Text
  pub password : Text
  pub role : UserRole

abbrev pub role_or_user : UserRole → UserRole
role_or_user role = if role_is_empty role then UserRole.user else role

abbrev pub refuse_invalid : Option Error → Action (Unit {0})
refuse_invalid none = pure tt
refuse_invalid (some e) = raise (bad_request "invalid_password")

unfoldable pub handle_create_user : AuthService → Option CreateUserRequest → Handler Reply
handle_create_user s body actor token = do
  request ← decoded body
  refuse_if (is_empty (trim_space request.username)) invalid_request
  refuse_if (not (can_create_user_with_role actor (role_or_user request.role))) forbidden_answer
  refuse_invalid (validate_password request.password)
  hash ← or_answer always_internal (hash_password s.crypto request.password)
  created ←
      or_answer write_domain_error
        (create_user (new_user (trim_space request.username) hash (role_or_user request.role)))
  audit actor "user.created" "user" created.id
  reply 201 (user_body (to_user_view created))

-- The body of an update holds a role or none; the identifier is that of the path.
unfoldable pub handle_update_user : Option Uuid → Option (Option UserRole) → Handler Reply
handle_update_user path body actor token = do
  id ← decoded path
  request ← decoded body
  new_role ← require request invalid_request
  target ← or_answer write_domain_error (get_user_by_id id)
  refuse_if (not (can_change_role actor target new_role)) forbidden_answer
  or_answer write_domain_error (set_user_role id new_role)
  audit actor "user.role_changed" "user" id
  updated ← or_answer always_internal (get_user_by_id id)
  reply 200 (user_body (to_user_view updated))

unfoldable pub handle_delete_user : Option Uuid → Handler Reply
handle_delete_user path actor token = do
  id ← decoded path
  target ← or_answer write_domain_error (get_user_by_id id)
  refuse_if (not (can_delete_user actor target)) forbidden_answer
  or_answer write_domain_error (delete_user id)
  audit actor "user.deleted" "user" id
  no_content
