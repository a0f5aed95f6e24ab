-- ===== src/Access/Guards/Admission.antt =====
-- Who reaches a handler: the guards of src/common/guards.
use Prim.Native.String.{String}
use sidequest_demo_be.Common.{
  ℕ, ◌≡◌, ◌↔◌, Bool, true, false, Option, some, List, ◌∷◌, arith, Option-cases, inl, inr,
}
use sidequest_demo_be.Common.Text.{Text}
use sidequest_demo_be.Effects.{ok}
use sidequest_demo_be.Access.Roles.{AppRole, to_app_role}
use sidequest_demo_be.Model.{User, active}
use sidequest_demo_be.World.{Database, World}
use sidequest_demo_be.Auth.{Crypto, Claims}
use sidequest_demo_be.Access.Guards.{
  AuthenticatedUser, access_sub, includes, roles_can_activate, validate, jwt_can_activate, admit,
}

module _ {F : Type 0} (db : Database F) (crypto : Crypto) where
  -- The guards of sessions and of roles let a request to a route that is not public and asks for
  -- roles through exactly when its bearer token is genuine and in time, names a user who exists and
  -- is active, and that user's stored role, not the one in the token, is among the roles asked for.
  pub admit_iff :
      (r : AppRole) (rest : List AppRole) (bearer : Option Text) (info : Option String) (now : ℕ)
      (w : World db)
      → ((user : Option AuthenticatedUser) × ((admit db crypto false (r ∷ rest) bearer info now w).0
            ≡ ok user))
        ↔ ((token : Text) × (claims : Claims) × (id : ℕ) × (u : User) × (bearer ≡ some token)
            × (crypto.verify_access token now ≡ some claims)
            × (access_sub claims ≡ some id)
            × (db.user.find id w.users ≡ some u)
            × (u.status ≡ active)
            × (includes (r ∷ rest) (to_app_role u.role) ≡ true))
  unfolding admit jwt_can_activate validate roles_can_activate
  admit_iff r rest bearer info now w = elim (Option-cases bearer) [
    | inl none_sent ↦ ground arith
    | inr (token, sent) ↦ elim (Option-cases (crypto.verify_access token now)) [
      | inl false_token ↦ ground arith
      | inr (claims, genuine) ↦ elim (Option-cases (access_sub claims)) [
        | inl malformed ↦ ground arith
        | inr (id, own) ↦ elim (Option-cases (db.user.find id w.users)) [
          | inl missing ↦ ground arith
          | inr (u, found) ↦ (
            λ (user, reached).
                (token, claims, id, u, sent, genuine, own, found, ground arith, ground arith),
            λ (token', claims', id', u', sent', genuine', own', found', awake, allowed). (
              some (record {
                id = id;
                email = u.email;
                username = u.username;
                role = to_app_role u.role;
              }),
              ground arith,
            ),
          )
        ]
      ]
    ]
  ]

  -- The guards write nothing.
  pub admit_pure :
      (is_public : Bool) (required : List AppRole) (bearer : Option Text) (info : Option String)
      (now : ℕ) (w : World db)
      → (admit db crypto is_public required bearer info now w).1 ≡ w
  unfolding admit jwt_can_activate validate roles_can_activate
  admit_pure is_public required bearer info now w = grind arith
