-- ===== src/Schedules.antt =====
-- The nightly job of src/modules/schedules/streak-rollover.service.ts.
use sidequest_demo_be.Common.{
  ℕ, ◌-◌, ◌≤◌, ◌<◌, ◌≡◌, inl, inr, Bool, true, false, ◌&&◌, none, some, arith, ltb, Option-cases,
  Bool-cases,
}
use sidequest_demo_be.Effects.{Action, modify}
use sidequest_demo_be.Model.{User}
use sidequest_demo_be.World.{Database, World}
use sidequest_demo_be.Invites.{start_of_utc_day}

-- Yesterday's start, for times after the first day of 1970.
abbrev pub cutoff : ℕ → ℕ
cutoff now = start_of_utc_day now - 86400000

-- `{ streakDays: { gt: 0 }, OR: [{ lastQuestCompletedAt: null }, { ... lt: cutoff }] }`
abbrev pub is_stale : ℕ → ℕ → User → Bool
is_stale since id u =
    ltb 0 u.streak_days && elim u.last_quest_completed_at [ none ↦ true | some at ↦ ltb at since ]

abbrev pub cleared : User → User
cleared u = record u { streak_days = 0 }

module _ {F : Type 0} (db : Database F) where
  unfoldable pub reset_stale_streaks_utc : ℕ → Action (World db) (Unit {0})
  reset_stale_streaks_utc now =
      modify (λ w. record w { users = db.user.update_many (is_stale (cutoff now)) cleared w.users })

  -- What the job does to each user: one whose last completion is not before yesterday's start stays
  -- as it was; one whose last completion is before it, or who never completed a quest, loses the
  -- streak and nothing else; and no user comes or goes.
  pub reset_stale_streaks_lem :
      (now id : ℕ) (w : World db)
      → let after = (reset_stale_streaks_utc now w).1.users in
        ((u : User) (at : ℕ)
          → db.user.find id w.users ≡ some u
          → u.last_quest_completed_at ≡ some at
          → cutoff now ≤ at
          → db.user.find id after ≡ some u)
        × ((u : User)
            → db.user.find id w.users ≡ some u
            → ((at : ℕ) → u.last_quest_completed_at ≡ some at → at < cutoff now)
            → db.user.find id after ≡ some (record u { streak_days = 0 }))
        × (db.user.find id w.users ≡ none → db.user.find id after ≡ none)
  unfolding reset_stale_streaks_utc
  reset_stale_streaks_lem now id w = (
    kept,
    lost,
    λ missing. ground (arith, db.user.find-update_many id (is_stale (cutoff now)) cleared w.users),
  )
    where
      kept :
          (u : User) (at : ℕ)
          → db.user.find id w.users ≡ some u
          → u.last_quest_completed_at ≡ some at
          → cutoff now ≤ at
          → db.user.find id (db.user.update_many (is_stale (cutoff now)) cleared w.users) ≡ some u
      kept u at found last recent =
          let fresh : is_stale (cutoff now) id u ≡ false = ground arith in
          ground (arith, db.user.find-update_many id (is_stale (cutoff now)) cleared w.users)

      none_left : (u : User) → u.streak_days ≡ 0 → u ≡ record u { streak_days = 0 }
      none_left u e i = record u { streak_days = e i }

      no_streak :
          (u : User)
          → is_stale (cutoff now) id u ≡ false
          → ((at : ℕ) → u.last_quest_completed_at ≡ some at → at < cutoff now)
          → u ≡ record u { streak_days = 0 }
      no_streak u fresh old = elim (Option-cases u.last_quest_completed_at) [
        | inl never ↦ none_left u (ground arith)
        | inr (at, last) ↦ none_left u (ground (arith, old at last))
      ]

      lost :
          (u : User)
          → db.user.find id w.users ≡ some u
          → ((at : ℕ) → u.last_quest_completed_at ≡ some at → at < cutoff now)
          → db.user.find id (db.user.update_many (is_stale (cutoff now)) cleared w.users)
            ≡ some (record u { streak_days = 0 })
      lost u found old = elim (Bool-cases (is_stale (cutoff now) id u)) [
        | inl stale ↦
            ground (arith, db.user.find-update_many id (is_stale (cutoff now)) cleared w.users)
        | inr fresh ↦
            let same : u ≡ record u { streak_days = 0 } = no_streak u fresh old in
            ground
              (arith, db.user.find-update_many id (is_stale (cutoff now)) cleared w.users, same)
      ]
