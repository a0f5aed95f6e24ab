-- ===== src/Access/Guards.antt =====
-- The guard of all routes, the guard of those that ask for roles, and the strategy between them: src/common/guards/jwt-auth.guard.ts,
-- src/common/guards/roles.guard.ts and src/modules/auth/strategies/jwt.strategy.ts.
pub mod Admission
pub mod Viewer
use Prim.Native.String.{String}
use sidequest_demo_be.Common.{
  ℕ, Bool, true, false, not, Option, none, some, List, [], ◌∷◌, ◌||◌, if◌then◌else◌, or_else,
}
use sidequest_demo_be.Common.Text.{Text}
use sidequest_demo_be.Effects.{
  Action, Exception, Result, ok, err, http, unauthorized, forbidden, pure, or_throw, throw_if,
  ◌>>=◌, ◌>>◌,
}
use sidequest_demo_be.Access.Roles.{AppRole, to_app_role}
use sidequest_demo_be.Model.{User}
use sidequest_demo_be.World.{Database, World, find_user}
use sidequest_demo_be.Invites.{is_active}
use sidequest_demo_be.Auth.{Crypto, Claims}

-- `AuthenticatedUser`
pub record AuthenticatedUser : Type 0 where
  pub id : ℕ
  pub email : Text
  pub username : Text
  pub role : AppRole

-- `isJwtAccessPayload`, with the `sub` that it finds
unfoldable pub access_sub : Claims → Option ℕ
access_sub claims = elim claims.email [
  | none ↦ none
  | some _ ↦ elim claims.username [
    | none ↦ none
    | some _ ↦ elim claims.role [ none ↦ none | some _ ↦ claims.sub ]
  ]
]

abbrev pub same_role : AppRole → AppRole → Bool
same_role AppRole.user AppRole.user = true
same_role AppRole.moderator AppRole.moderator = true
same_role AppRole.admin AppRole.admin = true
same_role AppRole.business_owner AppRole.business_owner = true
same_role _ _ = false

-- `required.includes(role)`
abbrev pub includes : List AppRole → AppRole → Bool
includes [] role = false
includes (r ∷ rest) role = same_role r role || includes rest role

-- `RolesGuard.canActivate`, on the roles of the route and the user of the request
unfoldable pub roles_can_activate : List AppRole → Option AuthenticatedUser → Result (Unit {0})
roles_can_activate [] user = ok tt
roles_can_activate (r ∷ rest) none = err (forbidden "No authenticated principal")
roles_can_activate (r ∷ rest) (some user) =
    if includes (r ∷ rest) user.role then ok tt else err (forbidden "Insufficient role")

-- `handleRequest` where the strategy found no user: with the message that `passport` gives of the
-- failure, if it gives one that is not empty.
abbrev pub missing_user : Option String → Exception
missing_user info = unauthorized (or_else info "Missing or invalid bearer token")

module _ {F : Type 0} (db : Database F) (crypto : Crypto) where
  -- `JwtStrategy.validate`
  unfoldable pub validate : Claims → Action (World db) AuthenticatedUser
  validate claims = do
    sub ← or_throw (access_sub claims) (unauthorized "Malformed token payload")
    row ← find_user db sub
    user ← or_throw row (unauthorized "User not active")
    throw_if (not (is_active user.status)) (unauthorized "User not active")
    pure (record {
      id = sub;
      email = user.email;
      username = user.username;
      role = to_app_role user.role;
    })

  -- The strategy of `passport-jwt` takes the bearer token, verifies it, and asks `validate`, whose
  -- `UnauthorizedException` is passed on by `handleRequest`.
  unfoldable pub jwt_can_activate :
      Bool → Option Text → Option String → ℕ → Action (World db) (Option AuthenticatedUser)
  jwt_can_activate is_public bearer info now = if is_public then pure none else (do
    token ← or_throw bearer (missing_user info)
    claims ← or_throw (crypto.verify_access token now) (missing_user info)
    user ← validate claims
    pure (some user))

  -- What a route that is guarded by both admits: the guard of sessions comes first. The guard that
  -- limits the rate of requests is the framework's.
  unfoldable pub admit :
      Bool
      → List AppRole
      → Option Text
      → Option String
      → ℕ
      → Action (World db) (Option AuthenticatedUser)
  admit is_public required bearer info now = do
    user ← jwt_can_activate is_public bearer info now
    elim (roles_can_activate required user) [ ok _ ↦ pure user | err e ↦ (λ w. (err e, w)) ]
