-- ===== src/Quests/Completion/Rewards.antt =====
-- What completing a quest does to the database: all of it or nothing, and once per start.
use mathlib.Core.List.{append_assoc}
use sidequest_demo_be.Common.{
  ℕ, ◌+◌, ◌≤◌, ◌≡◌, ◌≢◌, refl, true, false, Option, some, List, [], ◌∷◌, ◌++◌, arith, ltb,
  if◌then◌else◌,
}
use sidequest_demo_be.Gamification.{level_from_xp}
use sidequest_demo_be.Geo.{Float}
use sidequest_demo_be.Effects.{Exception, ok, err, Transactions, bad_request}
use sidequest_demo_be.Store.{find-save_self, find-save_ne}
use sidequest_demo_be.Events.{AppEvent, quest_completed, level_up}
use sidequest_demo_be.Model.{User, Quest, Proof, QuestCompletion, is_completed, completed}
use sidequest_demo_be.World.{Database, World, save_completion, save_user}
use sidequest_demo_be.Quests.Distance.{sum_path_distance_meters}
use sidequest_demo_be.Quests.Streak.{compute_streak}
use sidequest_demo_be.Quests.Completion.{
  finalize_quest_completion_tx, complete, completed_row, rewarded_user, Finalized,
}

-- The events of a completion: the level-up only where the level rose.
abbrev pub completion_events : ℕ → ℕ → ℕ → ℕ → ℕ → List AppEvent
completion_events user_id quest_id reward xp now =
    quest_completed user_id quest_id reward now
    ∷ (if ltb (level_from_xp xp) (level_from_xp (xp + reward))
        then level_up user_id (level_from_xp xp) (level_from_xp (xp + reward)) ∷ []
        else [])

module _ (fl : Float) (db : Database fl.F) where
  abbrev pub path_meters : Quest fl.F → ℕ
  path_meters q = fl.round (sum_path_distance_meters fl q.locations)

  -- The world with the reward paid and the row completed.
  abbrev pub rewarded :
      ℕ → ℕ → Option Proof → ℕ → Quest fl.F → User → QuestCompletion → World db → World db
  rewarded user_id quest_id given now q u c w =
      save_user db user_id (rewarded_user now q.xp_reward (path_meters q) u)
        (save_completion db user_id quest_id (completed_row now q.xp_reward given c) w)

  abbrev pub finalized : ℕ → Quest fl.F → User → Finalized
  finalized now q u = record {
    xp_awarded = q.xp_reward;
    previous_level = level_from_xp u.xp;
    new_level = level_from_xp (u.xp + q.xp_reward);
    streak_days = compute_streak u.streak_days u.last_quest_completed_at now;
    completed_at = now;
  }

  pub finalize_eq :
      (user_id quest_id : ℕ) (given : Option Proof) (now : ℕ) (q : Quest fl.F) (u : User)
      (c : QuestCompletion) (w : World db)
      → db.user.find user_id w.users ≡ some u
      → db.quest_completion.find (user_id, quest_id) w.completions ≡ some c
      → is_completed c.status ≡ false
      → finalize_quest_completion_tx fl db user_id quest_id q given now w
        ≡ (ok (finalized now q u), rewarded user_id quest_id given now q u c w)
  unfolding finalize_quest_completion_tx
  finalize_eq user_id quest_id given now q u c w user_found row_found open_row = ground arith

module _ (fl : Float) (db : Database fl.F) (tx : Transactions (World db)) where
  module _ (user_id quest_id : ℕ) (given : Option Proof) (now : ℕ) where
    -- A completion that throws leaves the whole world as it was: no row is written, and no event is
    -- emitted.
    pub complete_atomic :
        (w : World db) (e : Exception)
        → (complete fl db tx user_id quest_id given now w).0 ≡ err e
        → (complete fl db tx user_id quest_id given now w).1 ≡ w
    unfolding complete
    complete_atomic w e h = grind (arith, tx.transaction_lem)

    complete_of_completed :
        (w : World db) {q : Quest fl.F} {c : QuestCompletion}
        → db.quest.find quest_id w.quests ≡ some q
        → db.quest_completion.find (user_id, quest_id) w.completions ≡ some c
        → is_completed c.status ≡ true
        → complete fl db tx user_id quest_id given now w
          ≡ (err (bad_request "Quest must be started before it can be completed"), w)
    unfolding complete
    complete_of_completed w quest_found row_found done = ground arith

  module _ (user_id quest_id : ℕ) (given : Option Proof) (now : ℕ) where
    module _ (w : World db) {q : Quest fl.F} {u : User} {c : QuestCompletion}
        (quest_found : db.quest.find quest_id w.quests ≡ some q)
        (user_found : db.user.find user_id w.users ≡ some u)
        (row_found : db.quest_completion.find (user_id, quest_id) w.completions ≡ some c)
        (open_row : is_completed c.status ≡ false) where
      complete_ok : complete fl db tx user_id quest_id given now w ≡ (
        ok (record {
          xp_awarded = q.xp_reward;
          leveled_up = ltb (level_from_xp u.xp) (level_from_xp (u.xp + q.xp_reward));
          new_level = level_from_xp (u.xp + q.xp_reward);
          streak_days = compute_streak u.streak_days u.last_quest_completed_at now;
        }),
        record (rewarded fl db user_id quest_id given now q u c w) {
          emitted = w.emitted ++ completion_events user_id quest_id q.xp_reward u.xp now;
        },
      )
      unfolding complete
      complete_ok = ground (
        arith,
        tx.transaction_lem Finalized
            (finalize_quest_completion_tx fl db user_id quest_id q given now) w,
        finalize_eq fl db user_id quest_id given now q u c w,
        append_assoc w.emitted (quest_completed user_id quest_id q.xp_reward now ∷ [])
            (level_up user_id (level_from_xp u.xp) (level_from_xp (u.xp + q.xp_reward)) ∷ []),
      )

      -- A completion of an open quest row pays the quest's XP once: the user's XP grow by the
      -- reward, the level follows the XP, the quest count grows by one, the row becomes completed
      -- with the XP and time of the completion and keeps its start, every other user and row stays,
      -- and one completion event is emitted, with a level-up event only if the level rose.
      pub complete_pays :
          let (r, w') = complete fl db tx user_id quest_id given now w in
          ((u' : User) × (db.user.find user_id w'.users ≡ some u')
            × (u'.xp ≡ u.xp + q.xp_reward)
            × (u'.level ≡ level_from_xp u'.xp)
            × (u'.quests_done ≡ u.quests_done + 1)
            × (u'.last_quest_completed_at ≡ some now)
            × (u'.streak_days ≤ u'.longest_streak_days))
          × ((c' : QuestCompletion) × (db.quest_completion.find (user_id, quest_id) w'.completions
                ≡ some c')
              × (c'.status ≡ completed)
              × (c'.completed_at ≡ some now)
              × (c'.xp_awarded ≡ q.xp_reward)
              × (c'.started_at ≡ c.started_at))
          × ((other : ℕ)
              → other ≢ user_id
              → db.user.find other w'.users ≡ db.user.find other w.users)
          × ((other : ℕ × ℕ)
              → other ≢ (user_id, quest_id)
              → db.quest_completion.find other w'.completions
                ≡ db.quest_completion.find other w.completions)
          × (w'.emitted ≡ w.emitted ++ completion_events user_id quest_id q.xp_reward u.xp now)
      complete_pays = rw complete_ok (
        (
          rewarded_user now q.xp_reward (path_meters fl db q) u,
          find-save_self db.user user_id _ w.users,
          refl,
          refl,
          refl,
          refl,
          omega arith,
        ),
        (
          completed_row now q.xp_reward given c,
          find-save_self db.quest_completion (user_id, quest_id) _ w.completions,
          refl,
          refl,
          refl,
          refl,
        ),
        λ other h. find-save_ne db.user other user_id _ w.users h,
        λ other h. find-save_ne db.quest_completion other (user_id, quest_id) _ w.completions h,
        refl,
      )

      pub complete_quests :
          db.quest.find quest_id (complete fl db tx user_id quest_id given now w).1.quests ≡ some q
      complete_quests = rw complete_ok quest_found

      -- The same completion asked for again, at any later time, is refused and changes nothing.
      pub complete_again :
          (given' : Option Proof) (later : ℕ)
          → let w' = (complete fl db tx user_id quest_id given now w).1 in
            complete fl db tx user_id quest_id given' later w'
            ≡ (err (bad_request "Quest must be started before it can be completed"), w')
      complete_again given' later = rw complete_ok (
          complete_of_completed user_id quest_id given' later _ quest_found
            (find-save_self db.quest_completion (user_id, quest_id) _ w.completions) refl)
