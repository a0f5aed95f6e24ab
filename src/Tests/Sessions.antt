-- ===== src/Tests/Sessions.antt =====
-- Examples for sessions, guards and answers.
use sidequest_demo_be.Common.{ℕ, ◌≡◌, ◌↔◌, refl, none, some, true, false, Option, [], ◌∷◌, ◌++◌}
use sidequest_demo_be.Common.Text.{Text, codes, trim}
use sidequest_demo_be.Effects.{ok, err, unauthorized}
use sidequest_demo_be.Access.Roles.{AppRole, to_app_role}
use sidequest_demo_be.Access.Guards.{
  AuthenticatedUser, includes, access_sub, jwt_can_activate, admit,
}
use sidequest_demo_be.Access.Guards.Admission.{admit_iff}
use sidequest_demo_be.Access.Guards.Viewer.{
  bearer_of, try_resolve_viewer_user_id, viewer_iff_admitted,
}
use sidequest_demo_be.Model.{User, active}
use sidequest_demo_be.World.{World}
use sidequest_demo_be.Invites.{has_email}
use sidequest_demo_be.Auth.{
  Claims, LoginDto, AuthTokensDto, refresh_sub, issue_tokens, login, refresh,
}
use sidequest_demo_be.Auth.Sessions.{login_ok_iff, refresh_rotates}
use sidequest_demo_be.Tests.{db, ann, ben, methods, crypto, town}

abbrev ann_login : LoginDto
ann_login = record { email = codes "ann@x.org"; password = codes "h" }

login_ok_iff_example :
    ((tokens : AuthTokensDto) × ((login db methods crypto (codes "f") ann_login 7 town).0
        ≡ ok tokens))
    ↔ ((id : ℕ) × (u : User) × (db.user.find_first (has_email (codes "ann@x.org")) town.users
          ≡ some (id, u))
        × (crypto.verify u.password_hash (codes "h") ≡ true)
        × (u.status ≡ active))
login_ok_iff_example = login_ok_iff db methods crypto (codes "f") ann_login 7 town

-- Ann has logged in at 5.
abbrev session : World db
session = record town {
  users = (1, record ann { refresh_token_hash = some (1 ∷ 1 ∷ 5 ∷ []) }) ∷ (2, ben) ∷ [];
}

refresh_rotates_example :
    let w' = (refresh db methods crypto (codes "f") (1 ∷ 5 ∷ []) 7 session).1 in
    refresh db methods crypto (codes "f") (1 ∷ 5 ∷ []) 8 w'
    ≡ (err (unauthorized "Refresh token revoked"), w')
unfolding refresh refresh_sub issue_tokens
refresh_rotates_example =
    (refresh_rotates db methods crypto (codes "f") (1 ∷ 5 ∷ []) 7 session refl refl refl refl refl
        refl).2
      8
      (record {
        sub = some 1;
        email = none;
        username = none;
        role = none;
        token_type = some (codes "refresh");
      })
      (record ann { refresh_token_hash = some (1 ∷ 1 ∷ 7 ∷ []) })
      (refresh db methods crypto (codes "f") (1 ∷ 5 ∷ []) 7 session).1 refl refl refl refl

viewer_iff_admitted_example :
    (try_resolve_viewer_user_id db crypto (some (codes "Bearer " ++ 1 ∷ [])) 7 town ≡ some 1) ↔ (
      (user : AuthenticatedUser) × ((jwt_can_activate db crypto false (some (1 ∷ [])) none 7 town).0
        ≡ ok (some user))
      × (user.id ≡ 1))
unfolding bearer_of trim
viewer_iff_admitted_example =
    viewer_iff_admitted db crypto (some (codes "Bearer " ++ 1 ∷ [])) (1 ∷ []) none 7 1 town refl

admit_iff_example :
    ((user : Option AuthenticatedUser) × ((admit db crypto false
          (AppRole.user ∷ [])
          (some (1 ∷ []))
          none
          7
          town).0
        ≡ ok user))
    ↔ ((token : Text) × (claims : Claims) × (id : ℕ) × (u : User) × (◌≡◌ {A = Option Text}
          (some (1 ∷ []))
          (some token))
        × (crypto.verify_access token 7 ≡ some claims)
        × (access_sub claims ≡ some id)
        × (db.user.find id town.users ≡ some u)
        × (u.status ≡ active)
        × (includes (AppRole.user ∷ []) (to_app_role u.role) ≡ true))
admit_iff_example = admit_iff db crypto AppRole.user [] (some (1 ∷ [])) none 7 town
