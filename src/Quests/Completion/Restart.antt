-- ===== src/Quests/Completion/Restart.antt =====
-- Starting a quest again once it is completed: `start` of src/modules/quests/quests.service.ts and
-- src/modules/quests/quest-completions.repository.ts.
use sidequest_demo_be.Common.{
  ℕ, ◌+◌, ◌≡◌, false, true, Option, some, [], ◌∷◌, ◌++◌, arith, Option-cases, inl, inr,
}
use sidequest_demo_be.Geo.{Float}
use sidequest_demo_be.Effects.{ok, Transactions}
use sidequest_demo_be.Store.{find-save_self}
use sidequest_demo_be.Events.{quest_started}
use sidequest_demo_be.Model.{User, Quest, Proof, QuestCompletion, is_published, is_completed}
use sidequest_demo_be.World.{Database, World, save_completion}
use sidequest_demo_be.Quests.Completion.{start, start_completion, complete, started_row}
use sidequest_demo_be.Quests.Completion.Rewards.{complete_pays, complete_quests}

module _ (fl : Float) (db : Database fl.F) (tx : Transactions (World db)) where
  start_eq :
      (user_id quest_id now : ℕ) (w : World db) {q : Quest fl.F} {u : User}
      → db.quest.find quest_id w.quests ≡ some q
      → is_published q.status ≡ true
      → db.user.find user_id w.users ≡ some u
      → start fl db user_id quest_id now w ≡ (
        ok tt,
        record (save_completion db user_id quest_id
            (started_row now (db.quest_completion.find (user_id, quest_id) w.completions))
            w) { emitted = w.emitted ++ quest_started user_id quest_id ∷ [] },
      )
  unfolding start start_completion
  start_eq user_id quest_id now w found published user =
      elim (Option-cases (db.quest_completion.find (user_id, quest_id) w.completions)) [
        | inl fresh ↦ ground arith
        | inr (c, row) ↦ ground arith
      ]

  started_row_open :
      (now : ℕ) (row : Option QuestCompletion) → is_completed (started_row now row).status ≡ false
  started_row_open now row = ground arith

  -- One round of starting and completing, whatever the row was before.
  round :
      (user_id quest_id : ℕ) (given : Option Proof) (later end : ℕ) (w : World db) {q : Quest fl.F}
      {u : User}
      → db.quest.find quest_id w.quests ≡ some q
      → is_published q.status ≡ true
      → db.user.find user_id w.users ≡ some u
      → let w₁ = (start fl db user_id quest_id later w).1 in
        let w₂ = (complete fl db tx user_id quest_id given end w₁).1 in
        (u' : User) × (db.user.find user_id w₂.users ≡ some u')
        × (u'.xp ≡ u.xp + q.xp_reward)
        × (u'.quests_done ≡ u.quests_done + 1)
  round user_id quest_id given later end w quest published user =
      let old = db.quest_completion.find (user_id, quest_id) w.completions in
      let (u', found, xp, level, done, last, streak) =
        (complete_pays fl db tx user_id quest_id given end
          (record (save_completion db user_id quest_id (started_row later old) w) {
            emitted = w.emitted ++ quest_started user_id quest_id ∷ [];
          })
          quest user
          (find-save_self db.quest_completion (user_id, quest_id) (started_row later old)
            w.completions)
          (started_row_open later old)).0 in
      rw (start_eq user_id quest_id later w quest published user) (u', found, xp, done)

  -- A completed quest that is published can be started and completed again, and pays its whole
  -- reward again: the user's XP grow by twice the reward.
  pub restart_pays_twice :
      (user_id quest_id : ℕ) (given : Option Proof) (now later end : ℕ) (w : World db)
      {q : Quest fl.F} {u : User} {c : QuestCompletion}
      → db.quest.find quest_id w.quests ≡ some q
      → is_published q.status ≡ true
      → db.user.find user_id w.users ≡ some u
      → db.quest_completion.find (user_id, quest_id) w.completions ≡ some c
      → is_completed c.status ≡ false
      → let w₁ = (complete fl db tx user_id quest_id given now w).1 in
        let w₂ = (start fl db user_id quest_id later w₁).1 in
        let w₃ = (complete fl db tx user_id quest_id given end w₂).1 in
        (u' : User) × (db.user.find user_id w₃.users ≡ some u')
        × (u'.xp ≡ u.xp + q.xp_reward + q.xp_reward)
        × (u'.quests_done ≡ u.quests_done + 2)
  restart_pays_twice user_id quest_id given now later end w {q} {u} {c} quest published user row
        open_row =
      let (u₁, found₁, xp₁, level₁, done₁, last₁, streak₁) =
        (complete_pays fl db tx user_id quest_id given now w quest user row open_row).0 in
      let (u₂, found₂, xp₂, done₂) =
        round user_id quest_id given later end (complete fl db tx user_id quest_id given now w).1
          (complete_quests fl db tx user_id quest_id given now w quest user row open_row) published
          found₁ in
      (u₂, found₂, omega (arith, xp₁, xp₂), omega (arith, done₁, done₂))
