-- ===== src/Users/Levels.antt =====
-- Profiles and the stored levels: src/modules/users/users.service.ts against the XP curve of
-- src/common/gamification/xp.ts.
use sidequest_demo_be.Common.{ℕ, some}
use sidequest_demo_be.Common.Text.{Text}
use sidequest_demo_be.Links.{TextMethods}
use sidequest_demo_be.Effects.{pure}
use sidequest_demo_be.Effects.Keeping.{Keeps, bind-Keeps}
use sidequest_demo_be.World.{Database, update_user}
use sidequest_demo_be.World.Levels.{LevelsKept, update_user-Keeps}
use sidequest_demo_be.Users.{
  UpdateUserDto, updated_user, to_user_dto, update_profile, set_avatar_url,
}

module _ {F : Type 0} (db : Database F) (methods : TextMethods) (frontend : Text) where
  pub update_profile-Keeps :
      (id : ℕ) (dto : UpdateUserDto)
      → Keeps (LevelsKept db) (update_profile db methods frontend id dto)
  unfolding update_profile
  update_profile-Keeps id dto =
      bind-Keeps (LevelsKept db) (update_user db id (updated_user dto))
        (λ user. pure (to_user_dto db methods frontend id user))
        (update_user-Keeps db id (updated_user dto) λ u same. same) λ user w h. h

  pub set_avatar_url-Keeps :
      (id : ℕ) (avatar_url : Text)
      → Keeps (LevelsKept db) (set_avatar_url db methods frontend id avatar_url)
  unfolding set_avatar_url
  set_avatar_url-Keeps id avatar_url =
      bind-Keeps (LevelsKept db)
        (update_user db id (λ u. record u { avatar_url = some avatar_url }))
        (λ user. pure (to_user_dto db methods frontend id user))
        (update_user-Keeps db id (λ u. record u { avatar_url = some avatar_url }) λ u same. same)
        λ user w h. h
