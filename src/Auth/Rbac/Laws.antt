-- ===== src/Auth/Rbac/Laws.antt =====
-- server/go/internal/auth/rbac.go, by ranks of authority.
use project_dia.Prelude.{◌<◌, ◌≡◌, ◌↔◌, true, arith}
use project_dia.Domain.{User, UserRole}
use project_dia.Auth.Rbac.{authority, can_create_user_with_role, can_change_role}

-- A user may create an account exactly of a known role that ranks below the user's own.
pub can_create_user_with_role_iff :
    (actor : User) (role : UserRole)
    → (can_create_user_with_role actor role ≡ true)
      ↔ ((0 < authority role) × (authority role < authority actor.role))
unfolding can_create_user_with_role
can_create_user_with_role_iff actor role = (λ h. ground arith, λ h. ground arith)

-- A role is changed by root alone, to a known role below root, and never that of root itself: a
-- permitted change starts and ends below the rank of the actor.
pub can_change_role-ranks :
    (actor target : User) (new_role : UserRole)
    → can_change_role actor target new_role ≡ true
    → (authority target.role < authority actor.role)
      × (authority new_role < authority actor.role)
      × (0 < authority new_role)
      × (authority actor.role ≡ 3)
unfolding can_change_role
can_change_role-ranks actor target new_role h = ground arith
