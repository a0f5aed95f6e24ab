-- ===== src/World/Levels.antt =====
-- The stored level of a user, against the XP curve of src/common/gamification/xp.ts.
use sidequest_demo_be.Common.{
  ℕ, ◌≡◌, refl, inl, inr, Option, none, some, arith, ◌==◌, Bool, Bool-cases, Option-cases,
}
use sidequest_demo_be.Gamification.{level_from_xp}
use sidequest_demo_be.Model.{User}
use sidequest_demo_be.World.{Database, World, update_user, save_user}
use sidequest_demo_be.Effects.{Action, Result, ok, err, record_not_found}
use sidequest_demo_be.Effects.Keeping.{Keeps}

-- `level` is a cache of what the XP say.
abbrev pub LevelsAgree : {F : Type 0} (db : Database F) → db.user.State → Type 0
LevelsAgree db users =
    (id : ℕ) (u : User) → db.user.find id users ≡ some u → u.level ≡ level_from_xp u.xp

-- A write of one user keeps the invariant if the written row meets it.
pub save-LevelsAgree :
    {F : Type 0} (db : Database F) (id : ℕ) (u : User) (users : db.user.State)
    → LevelsAgree db users
    → u.level ≡ level_from_xp u.xp
    → LevelsAgree db (db.user.save id u users)
save-LevelsAgree db id u users agree own other v found = elim (Bool-cases (id == other)) [
  | inl e ↦ ground (arith, db.user.find-save other id u users)
  | inr e ↦ agree other v (ground (arith, db.user.find-save other id u users))
]

-- The invariant of a world, as actions keep it.
abbrev pub LevelsKept : {F : Type 0} (db : Database F) → World db → Type 0
LevelsKept db w = LevelsAgree db w.users

module _ {F : Type 0} (db : Database F) where
  -- An update that leaves a user's level at what the XP say.
  pub update_user-Keeps :
      (id : ℕ) (f : User → User)
      → ((u : User) → u.level ≡ level_from_xp u.xp → (f u).level ≡ level_from_xp (f u).xp)
      → Keeps (LevelsKept db) (update_user db id f)
  update_user-Keeps id f agrees w h = go (db.user.find id w.users) refl
    where
      go :
          (row : Option User)
          → db.user.find id w.users ≡ row
          → LevelsKept db
              (elim row as (λ row. Result User × World db) [
                | none ↦ (err record_not_found, w)
                | some u ↦ (ok (f u), save_user db id (f u) w)
              ]).1
      go none missing = h
      go (some u) found = save-LevelsAgree db id (f u) w.users h (agrees u (h id u found))

  -- An action that writes no user.
  pub same_users-Keeps :
      {A : Type 0} (m : Action (World db) A)
      → ((w : World db) → (m w).1.users ≡ w.users)
      → Keeps (LevelsKept db) m
  same_users-Keeps m same w h = rw (same w) h

  -- An update of many rows that moves no user's XP or level.
  pub update_many-LevelsAgree :
      (p : ℕ → User → Bool) (f : User → User) (users : db.user.State)
      → ((u : User) → u.level ≡ level_from_xp u.xp → (f u).level ≡ level_from_xp (f u).xp)
      → LevelsAgree db users
      → LevelsAgree db (db.user.update_many p f users)
  update_many-LevelsAgree p f users agrees h id v found =
      elim (Option-cases (db.user.find id users)) [
        | inl missing ↦ absurd (ground (arith, db.user.find-update_many id p f users))
        | inr (u, row) ↦ elim (Bool-cases (p id u)) [
          | inl changed ↦
              let e : v ≡ f u = ground (arith, db.user.find-update_many id p f users) in
              rw e (agrees u (h id u row))
          | inr kept ↦
              let e : v ≡ u = ground (arith, db.user.find-update_many id p f users) in
              rw e (h id u row)
        ]
      ]
