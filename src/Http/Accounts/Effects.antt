-- ===== src/Http/Accounts/Effects.antt =====
-- What the handlers of server/go/internal/httpapi/auth_handlers.go and user_handlers.go do to the tables.
use project_dia.Prelude.{◌≡◌, false, not, Option, none, some, arith}
use project_dia.Prelude.Text.{Text}
use project_dia.Domain.{Uuid, User, UserRole, role_eq}
use project_dia.Errors.{Error}
use project_dia.Store.World.{Db}
use project_dia.Store.World.Moves.{
  Moves, Moves-pure, Moves-raise, Moves-bind, Moves-then, Moves-unless, Moves-require,
}
use project_dia.Store.Passes.Steps.{Steps}
use project_dia.Store.Users.Root.{UserSteps}
use project_dia.Auth.Rbac.{can_create_user_with_role, can_change_role}
use project_dia.Auth.Service.{AuthService}
use project_dia.Auth.Service.Effects.{
  Moves-login, Moves-logout, Moves-change_password, Moves-hash_password,
}
use project_dia.Http.Accounts.{
  LoginRequest, ChangePasswordRequest, CreateUserRequest, role_or_user, refuse_invalid,
  handle_login, handle_logout, handle_me, handle_change_password, handle_list_users,
  handle_create_user, handle_update_user, handle_delete_user,
}
use project_dia.Http.Answers.Effects.{Moves-or_answer, Moves-decoded, Moves-audit, http_moves}

-- The rules for roles never let anybody become root.
creatable :
    (actor : User) (role : UserRole)
    → not (can_create_user_with_role actor role) ≡ false
    → role_eq role UserRole.root ≡ false
unfolding can_create_user_with_role
creatable actor role h = ground arith

changeable :
    (actor target : User) (role : UserRole)
    → not (can_change_role actor target role) ≡ false
    → role_eq role UserRole.root ≡ false
unfolding can_change_role
changeable actor target role h = ground arith

module _ {ℓ} {R : Db → Db → Type ℓ} (steps : Steps R) (users : UserSteps R) where
  Moves-refuse_invalid : (o : Option Error) → Moves R (refuse_invalid o)
  Moves-refuse_invalid none = Moves-pure steps.pre tt
  Moves-refuse_invalid (some e) = Moves-raise steps.pre _

  pub Moves-handle_login :
      (s : AuthService) (body : Option LoginRequest) → Moves R (handle_login s body)
  unfolding handle_login
  Moves-handle_login s body = search (http_moves, steps.pre, Moves-login steps users) depth 20

  pub Moves-handle_logout :
      (s : AuthService) (user : User) (token : Text) → Moves R (handle_logout s user token)
  unfolding handle_logout
  Moves-handle_logout s user token =
      search (http_moves, steps.pre, Moves-logout steps users) depth 20

  pub Moves-handle_me : (user : User) (token : Text) → Moves R (handle_me user token)
  unfolding handle_me
  Moves-handle_me user token = Moves-pure steps.pre _

  pub Moves-handle_change_password :
      (s : AuthService) (body : Option ChangePasswordRequest) (user : User) (token : Text)
      → Moves R (handle_change_password s body user token)
  unfolding handle_change_password
  Moves-handle_change_password s body user token =
      search (http_moves, steps.pre, Moves-logout steps users, Moves-change_password steps users)
        depth 20

  pub Moves-handle_list_users :
      (user : User) (token : Text) → Moves R (handle_list_users user token)
  unfolding handle_list_users
  Moves-handle_list_users user token = search (http_moves, steps.pre) depth 12

  pub Moves-handle_create_user :
      (s : AuthService) (body : Option CreateUserRequest) (actor : User) (token : Text)
      → Moves R (handle_create_user s body actor token)
  unfolding handle_create_user
  Moves-handle_create_user s body actor token =
      Moves-bind steps.pre _ _ (Moves-decoded steps.pre body) λ request.
        Moves-unless steps.pre _ _ _ λ named. Moves-unless steps.pre _ _ _ λ permitted.
          Moves-then steps.pre _ _ (Moves-refuse_invalid _) (
            Moves-bind steps.pre _ _
              (Moves-or_answer steps.pre _ _ (Moves-hash_password steps.pre _ _))
              λ hash.
                Moves-bind steps.pre _ _
                  (Moves-or_answer steps.pre _ _
                    (users.create _ (creatable actor (role_or_user request.role) permitted)))
                  λ created.
                    Moves-then steps.pre _ _ (Moves-audit steps actor _ _ _)
                      (Moves-pure steps.pre _))

  pub Moves-handle_update_user :
      (path : Option Uuid) (body : Option (Option UserRole)) (actor : User) (token : Text)
      → Moves R (handle_update_user path body actor token)
  unfolding handle_update_user
  Moves-handle_update_user path body actor token =
      Moves-bind steps.pre _ _ (Moves-decoded steps.pre path) λ id.
        Moves-bind steps.pre _ _ (Moves-decoded steps.pre body) λ request.
          Moves-bind steps.pre _ _ (Moves-require steps.pre request _) λ role.
            Moves-bind steps.pre _ _ (search (http_moves, steps.pre)) λ target.
              Moves-unless steps.pre _ _ _ λ permitted.
                Moves-then steps.pre _ _
                  (Moves-or_answer steps.pre _ _
                    (users.role id role (changeable actor target role permitted)))
                  (search (http_moves, steps.pre, Moves-audit steps) depth 12)

  pub Moves-handle_delete_user :
      (path : Option Uuid) (actor : User) (token : Text)
      → Moves R (handle_delete_user path actor token)
  unfolding handle_delete_user
  Moves-handle_delete_user path actor token =
      search (http_moves, steps.pre, users.delete, Moves-audit steps) depth 24
