-- ===== src/Access/Roles.antt =====
-- The roles of src/common/auth/roles.enum.ts and src/common/auth/role.mapper.ts.
use sidequest_demo_be.Common.{Bool, true, false}
use sidequest_demo_be.Model.{UserRole}

pub data AppRole : Type 0 where
  user moderator admin business_owner : AppRole

unfoldable pub to_app_role : UserRole → AppRole
to_app_role UserRole.admin = AppRole.admin
to_app_role UserRole.moderator = AppRole.moderator
to_app_role UserRole.business_owner = AppRole.business_owner
to_app_role UserRole.user = AppRole.user

abbrev pub is_admin : AppRole → Bool
is_admin AppRole.admin = true
is_admin _ = false

abbrev pub is_moderator : AppRole → Bool
is_moderator AppRole.moderator = true
is_moderator _ = false
