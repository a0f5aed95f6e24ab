-- ===== src/Achievements/Unlocking.antt =====
-- An achievement stays unlocked, and the listeners keep the stored levels:
-- src/modules/achievements/achievements.service.ts.
use sidequest_demo_be.Common.{ℕ, ◌≡◌, true, some, List, [], ◌∷◌, inl, inr}
use sidequest_demo_be.Effects.{Transactions, bind_cases}
use sidequest_demo_be.Events.{
  AppEvent, quest_completed, quest_location_checked_in, friend_request_accepted,
}
use sidequest_demo_be.Model.{UserAchievement}
use sidequest_demo_be.World.{Database, World}
use sidequest_demo_be.World.Levels.{LevelsAgree}
use sidequest_demo_be.Achievements.{
  Achievement, is_unlocked, evaluate_one, evaluate_for_user, on_event,
}
use sidequest_demo_be.Achievements.Steps.{
  Paid-LevelsAgree, Written-keeps, Evaluated, evaluate_one-Evaluated,
}

module _ {F : Type 0} (db : Database F) (tx : Transactions (World db)) where
  evaluate_for_user_kept :
      (definitions : List Achievement) (user_id now : ℕ) (w : World db) (P : World db → Type 0)
      → ((v v' : World db) (id : ℕ) → Evaluated db user_id id v v' → P v → P v')
      → P w
      → P (evaluate_for_user db tx definitions user_id now w).1
  unfolding evaluate_for_user
  evaluate_for_user_kept [] user_id now w P step start = start
  evaluate_for_user_kept (a ∷ rest) user_id now w P step start =
      let one = evaluate_one db tx a user_id now in
      let next = step w (one w).1 a.id (evaluate_one-Evaluated db tx user_id a now w) start in
      elim (bind_cases (λ _. evaluate_for_user db tx rest user_id now) w one) [
        | inl e ↦ rw e next
        | inr (x, done, e) ↦ rw e (evaluate_for_user_kept rest user_id now (one w).1 P step next)
      ]

  -- An invariant of single evaluations is one of the listeners.
  on_event_kept :
      (definitions : List Achievement) (event : AppEvent) (now : ℕ) (w : World db)
      (P : World db → Type 0)
      → ((user_id id : ℕ) (v v' : World db) → Evaluated db user_id id v v' → P v → P v')
      → P w
      → P (on_event db tx definitions event now w).1
  unfolding on_event
  on_event_kept definitions (quest_completed user_id quest_id xp at) now w P step start =
      evaluate_for_user_kept definitions user_id now w P (λ v v' id. step user_id id v v') start
  on_event_kept definitions (quest_location_checked_in user_id q l) now w P step start =
      evaluate_for_user_kept definitions user_id now w P (λ v v' id. step user_id id v v') start
  on_event_kept definitions (friend_request_accepted requester addressee id) now w P step start =
      let first = evaluate_for_user db tx definitions requester now in
      let next =
        evaluate_for_user_kept definitions requester now w P (λ v v' i. step requester i v v')
          start in
      elim (bind_cases (λ _. evaluate_for_user db tx definitions addressee now) w first) [
        | inl e ↦ rw e next
        | inr (x, done, e) ↦ rw e (
            evaluate_for_user_kept definitions addressee now (first w).1 P
              (λ v v' i. step addressee i v v') next)
      ]
  on_event_kept definitions _ now w P step start = start

  -- An achievement that a user has unlocked stays as it is, with its date, whatever event the
  -- listeners handle and whatever they evaluate.
  pub on_event_keeps_unlocked :
      (definitions : List Achievement) (event : AppEvent) (now : ℕ) (w : World db) (k : ℕ × ℕ)
      (row : UserAchievement)
      → db.user_achievement.find k w.user_achievements ≡ some row
      → is_unlocked (some row) ≡ true
      → db.user_achievement.find k (on_event db tx definitions event now w).1.user_achievements
        ≡ some row
  on_event_keeps_unlocked definitions event now w k row found unlocked =
      on_event_kept definitions event now w
        (λ v. db.user_achievement.find k v.user_achievements ≡ some row)
        (λ user_id id v v' done there.
          Written-keeps db user_id id v.user_achievements v'.user_achievements k row done.1 there
            unlocked)
        found

  -- Whatever the listeners unlock and pay on an event, every user's stored level stays at what the
  -- user's XP say.
  pub on_event-LevelsAgree :
      (definitions : List Achievement) (event : AppEvent) (now : ℕ) (w : World db)
      → LevelsAgree db w.users
      → LevelsAgree db (on_event db tx definitions event now w).1.users
  on_event-LevelsAgree definitions event now w agree =
      on_event_kept definitions event now w (λ v. LevelsAgree db v.users)
        (λ user_id id v v' done. Paid-LevelsAgree db user_id v.users v'.users done.0) agree
