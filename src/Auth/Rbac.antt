-- ===== src/Auth/Rbac.antt =====
-- server/go/internal/auth/rbac.go
pub mod Laws
use project_dia.Prelude.{ℕ, Bool, true, false, not, ◌||◌, ◌==◌, ltb, leb, if◌then◌else◌}
use project_dia.Domain.{User, UserRole, role_eq}

abbrev pub authority : UserRole → ℕ
authority UserRole.root = 3
authority UserRole.admin = 2
authority UserRole.user = 1
authority (UserRole.unknown s) = 0

abbrev pub is_valid_role : UserRole → Bool
is_valid_role role = ltb 0 (authority role)

abbrev pub at_least : User → UserRole → Bool
at_least actor required = leb (authority required) (authority actor.role)

unfoldable pub can_approve_passes : User → Bool
can_approve_passes actor = at_least actor UserRole.admin

unfoldable pub can_manage_users : User → Bool
can_manage_users actor = at_least actor UserRole.admin

unfoldable pub can_create_user_with_role : User → UserRole → Bool
unfolding can_manage_users role_eq
can_create_user_with_role actor role =
    if not (is_valid_role role) || role_eq role UserRole.root
    then false
    else if role_eq role UserRole.admin
    then role_eq actor.role UserRole.root
    else can_manage_users actor

unfoldable pub can_change_role : User → User → UserRole → Bool
unfolding role_eq
can_change_role actor target new_role =
    if not (role_eq actor.role UserRole.root)
    then false
    else if not (is_valid_role new_role) || role_eq new_role UserRole.root
    then false
    else not (role_eq target.role UserRole.root)

unfoldable pub can_delete_user : User → User → Bool
unfolding role_eq
can_delete_user actor target =
    if not (role_eq actor.role UserRole.root)
    then false
    else if role_eq target.role UserRole.root || target.id == actor.id
    then false
    else true

unfoldable pub can_configure_station : User → Bool
unfolding role_eq
can_configure_station actor = role_eq actor.role UserRole.root

unfoldable pub can_run_first_run_setup : User → Bool
unfolding role_eq
can_run_first_run_setup actor = role_eq actor.role UserRole.root
