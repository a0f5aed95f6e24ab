-- ===== src/Quests/Completion/Levels.antt =====
-- Completing a quest and the stored levels of src/common/gamification/xp.ts.
use sidequest_demo_be.Common.{◌⊎◌, ℕ, ◌≡◌, refl, Option, arith, Option-cases, Bool-cases, inl, inr}
use sidequest_demo_be.Geo.{Float}
use sidequest_demo_be.Effects.{Result, ok, err, Transactions, settle}
use sidequest_demo_be.Model.{User, Quest, Proof, is_completed}
use sidequest_demo_be.World.Levels.{LevelsAgree, save-LevelsAgree}
use sidequest_demo_be.World.{Database, World}
use sidequest_demo_be.Quests.Distance.{sum_path_distance_meters}
use sidequest_demo_be.Quests.Completion.{
  finalize_quest_completion_tx, complete, rewarded_user, Finalized,
}

module _ (fl : Float) (db : Database fl.F) (user_id quest_id : ℕ) (given : Option Proof)
    (now : ℕ) where
  -- The only write to the users, if there is one, is the reward.
  abbrev pub Rewards : db.user.State → db.user.State → Type 0
  Rewards before after =
      (after ≡ before)
      ⊎ ((u : User) × (reward meters : ℕ) × (after
            ≡ db.user.save user_id (rewarded_user now reward meters u) before))

  pub Rewards-LevelsAgree :
      (before after : db.user.State)
      → Rewards before after
      → LevelsAgree db before
      → LevelsAgree db after
  Rewards-LevelsAgree before after (inl e) agree = rw e agree
  Rewards-LevelsAgree before after (inr (u, reward, meters, e)) agree =
      rw e (save-LevelsAgree db user_id _ before agree refl)

  pub finalize-Rewards :
      (q : Quest fl.F) (w : World db)
      → Rewards w.users (finalize_quest_completion_tx fl db user_id quest_id q given now w).1.users
  unfolding finalize_quest_completion_tx
  finalize-Rewards q w = elim (Option-cases (db.user.find user_id w.users)) [
    | inl missing ↦ inl (ground arith)
    | inr (u, found) ↦
        elim (Option-cases (db.quest_completion.find (user_id, quest_id) w.completions)) [
          | inl missing ↦ inl (ground arith)
          | inr (c, row) ↦ elim (Bool-cases (is_completed c.status)) [
            | inl done ↦ inl (ground arith)
            | inr open_row ↦
                inr
                  (u, q.xp_reward, fl.round (sum_path_distance_meters fl q.locations), ground arith)
          ]
        ]
  ]

  module _ (tx : Transactions (World db)) where
    transaction-Rewards :
        (q : Quest fl.F) (w : World db)
        → Rewards w.users
            (tx.transaction Finalized
              (finalize_quest_completion_tx fl db user_id quest_id q given now)
              w).1.users
    transaction-Rewards q w = rw (tx.transaction_lem) (kept _ (finalize-Rewards q w))
      where
        kept :
            (r : Result Finalized × World db)
            → Rewards w.users r.1.users
            → Rewards w.users (settle w r).1.users
        kept (ok a, w') h = h
        kept (err e, w') h = inl refl

    complete-Rewards :
        (w : World db) → Rewards w.users (complete fl db tx user_id quest_id given now w).1.users
    unfolding complete
    complete-Rewards w = elim (Option-cases (db.quest.find quest_id w.quests)) [
      | inl missing ↦ inl (ground arith)
      | inr (q, found) ↦ ground (arith, transaction-Rewards q w)
    ]

    -- Whatever a completion does, it leaves every user's stored level at what the user's XP say.
    pub complete-LevelsAgree :
        (w : World db)
        → LevelsAgree db w.users
        → LevelsAgree db (complete fl db tx user_id quest_id given now w).1.users
    complete-LevelsAgree w agree = Rewards-LevelsAgree _ _ (complete-Rewards w) agree
