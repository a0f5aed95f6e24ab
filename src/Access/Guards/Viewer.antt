-- ===== src/Access/Guards/Viewer.antt =====
-- The viewer of a public route: `tryResolveViewerUserId` of src/modules/auth/auth.service.ts.
use Prim.Native.String.{String}
use sidequest_demo_be.Common.{
  ℕ, ◌≡◌, ◌↔◌, Bool, false, not, ◌||◌, Option, none, some, [], length, take, drop, ltb, arith,
  Option-cases, Bool-cases, inl, inr, if◌then◌else◌,
}
use sidequest_demo_be.Common.Text.{Text, codes, trim, text_eq}
use sidequest_demo_be.Effects.{ok}
use sidequest_demo_be.Access.Roles.{to_app_role}
use sidequest_demo_be.World.{Database, World}
use sidequest_demo_be.Invites.{is_active}
use sidequest_demo_be.Auth.{Crypto}
use sidequest_demo_be.Access.Guards.{AuthenticatedUser, access_sub, validate, jwt_can_activate}

-- `startsWith`
abbrev pub starts_with : Text → Text → Bool
starts_with text prefix = text_eq (take (length prefix) text) prefix

-- the token of an `Authorization: Bearer` header, if it has one that is not empty
unfoldable pub bearer_of : Option Text → Option Text
bearer_of none = none
bearer_of (some header) =
    if not (starts_with header (codes "Bearer ")) || ltb (length header) 8
    then none
    else if text_eq (trim (drop 7 header)) []
    then none
    else some (trim (drop 7 header))

module _ {F : Type 0} (db : Database F) (crypto : Crypto) where
  -- the identifier of the user of a token, where the user is there and active
  unfoldable pub viewer_of : Text → ℕ → World db → Option ℕ
  viewer_of token now w = elim (crypto.verify_access token now) [
    | none ↦ none
    | some claims ↦ elim (access_sub claims) [
      | none ↦ none
      | some sub ↦ elim (db.user.find sub w.users) [
        | none ↦ none
        | some user ↦ if is_active user.status then some sub else none
      ]
    ]
  ]

  unfoldable pub try_resolve_viewer_user_id : Option Text → ℕ → World db → Option ℕ
  try_resolve_viewer_user_id authorization now w = elim (bearer_of authorization) [
    | none ↦ none
    | some token ↦ viewer_of token now w
  ]

  -- A header with a bearer token names a viewer exactly when the guard of a private route would let
  -- that token through, and it names the user that the guard finds; what the guard answers with an
  -- exception is no viewer.
  pub viewer_iff_admitted :
      (authorization : Option Text) (token : Text) (info : Option String) (now id : ℕ)
      (w : World db)
      → bearer_of authorization ≡ some token
      → (try_resolve_viewer_user_id authorization now w ≡ some id) ↔ (
          (user : AuthenticatedUser) × ((jwt_can_activate db crypto false (some token) info now w).0
            ≡ ok (some user))
          × (user.id ≡ id))
  unfolding try_resolve_viewer_user_id viewer_of jwt_can_activate validate
  viewer_iff_admitted authorization token info now id w given =
      elim (Option-cases (crypto.verify_access token now)) [
        | inl forged ↦ ground arith
        | inr (claims, signed) ↦ elim (Option-cases (access_sub claims)) [
          | inl malformed ↦ ground arith
          | inr (sub, subject) ↦ elim (Option-cases (db.user.find sub w.users)) [
            | inl missing ↦ ground arith
            | inr (u, found) ↦ elim (Bool-cases (is_active u.status)) [
              | inr inactive ↦ ground arith
              | inl active ↦ (
                λ h. (
                  record {
                    id = sub;
                    email = u.email;
                    username = u.username;
                    role = to_app_role u.role;
                  },
                  ground arith,
                  ground arith,
                ),
                λ (user, h, same). ground arith,
              )
            ]
          ]
        ]
      ]
