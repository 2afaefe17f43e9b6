-- ===== src/Tests/Permissions.antt =====
-- The ranks of authority on concrete users.
use project_dia.Prelude.{◌<◌, ◌≡◌, ◌↔◌, true}
use project_dia.Domain.{UserRole}
use project_dia.Auth.Rbac.{authority, can_create_user_with_role}
use project_dia.Auth.Rbac.Laws.{can_create_user_with_role_iff}
use project_dia.Tests.Fixtures.{admin}

can_create_user_with_role_iff_example :
    (can_create_user_with_role admin UserRole.user ≡ true)
    ↔ ((0 < authority UserRole.user) × (authority UserRole.user < authority admin.role))
can_create_user_with_role_iff_example = can_create_user_with_role_iff admin UserRole.user
