-- ===== src/Quests/CheckIn/Visits.antt =====
-- A first check-in at a stop, before the last one and at it: the transaction of `checkInLocation`
-- in src/modules/quests/quests.service.ts.
use mathlib.Core.List.{append_assoc}
use sidequest_demo_be.Common.{
  ℕ, ◌+◌, ◌≤◌, ◌<◌, ◌≡◌, ◌≢◌, refl, true, false, none, some, List, [], ◌∷◌, ◌++◌, arith, length,
  ◌==◌,
}
use sidequest_demo_be.Gamification.{level_from_xp}
use sidequest_demo_be.Geo.{Float}
use sidequest_demo_be.Effects.{ok, Transactions}
use sidequest_demo_be.Store.{find-save_self}
use sidequest_demo_be.Events.{quest_location_checked_in, quest_completed, level_up}
use sidequest_demo_be.Model.{
  User, Quest, QuestLocation, Proof, QuestCompletion, QuestLocationCheckIn, is_published, started,
  completed,
}
use sidequest_demo_be.World.{Database, World, save_completion, save_user}
use sidequest_demo_be.Quests.Completion.{rewarded_user, completed_row}
use sidequest_demo_be.Quests.Completion.Rewards.{
  completion_events, finalize_eq, finalized, rewarded, path_meters,
}
use sidequest_demo_be.Quests.CheckIn.{
  CheckInBody, Outcome, find_location, one_more_place, push_location, counts, one_more_stop,
  last_stop, finish_if_last, record_check_in, check_in_tx, out_of_range, announce, first_check_in,
  check_in_location,
}

some_stop :
    {F : Type 0} (id : ℕ) (locations : List (QuestLocation F)) {location : QuestLocation F}
    → find_location id locations ≡ some location
    → (length locations == 0) ≡ false
some_stop id [] h = cc
some_stop id (x ∷ rest) h = ground arith

-- How many stops of the quest the user has checked in at.
abbrev pub stops_visited : {F : Type 0} (db : Database F) → ℕ → ℕ → World db → ℕ
stops_visited db user_id quest_id w =
    db.quest_location_check_in.total (counts user_id quest_id) w.check_ins

module _ (fl : Float) (db : Database fl.F) (tx : Transactions (World db)) where
  module _ (user_id quest_id location_id : ℕ) (body : CheckInBody fl.F) (now : ℕ) where
    module _ (w : World db) {q : Quest fl.F} {location : QuestLocation fl.F}
        (quest_found : db.quest.find quest_id w.quests ≡ some q)
        (quest_published : is_published q.status ≡ true)
        (location_found : find_location location_id q.locations ≡ some location)
        (in_range : out_of_range fl db location body ≡ false) where
      module _ {u : User} {c : QuestCompletion} (user_found : db.user.find user_id w.users ≡ some u)
          (row_found : db.quest_completion.find (user_id, quest_id) w.completions ≡ some c)
          (started_row : c.status ≡ started)
          (first : db.quest_location_check_in.find (user_id, location_id) w.check_ins ≡ none) where
        check_in : QuestLocationCheckIn fl.F
        check_in = record {
          quest_id = quest_id;
          latitude = body.latitude;
          longitude = body.longitude;
          accuracy_m = body.accuracy_m;
          created_at = now;
        }

        -- the check-in, the location on the quest's row, and the place in the user's count
        stopped : World db
        unfolding check_in
        stopped = save_user db user_id (one_more_place u) (
            save_completion db user_id quest_id (push_location location_id c) (record w {
              check_ins =
                  db.quest_location_check_in.save (user_id, location_id) check_in w.check_ins;
            }))

        stops_after :
            db.quest_location_check_in.total (counts user_id quest_id) stopped.check_ins
            ≡ stops_visited db user_id quest_id w + 1
        unfolding stopped
        stops_after = ground (
          arith,
          db.quest_location_check_in.total-save (counts user_id quest_id) (user_id, location_id)
              check_in w.check_ins,
        )

        record_check_in_eq :
            record_check_in fl db user_id quest_id location_id q body now w
            ≡ finish_if_last fl db user_id quest_id q now stopped
        unfolding record_check_in stopped
        record_check_in_eq = ground arith

        check_in_tx_eq :
            check_in_tx fl db user_id quest_id location_id q body now w
            ≡ finish_if_last fl db user_id quest_id q now stopped
        unfolding check_in_tx
        check_in_tx_eq = ground (arith, record_check_in_eq)

        finish_more :
            stops_visited db user_id quest_id w + 1 < length q.locations
            → finish_if_last fl db user_id quest_id q now stopped ≡ (ok one_more_stop, stopped)
        unfolding finish_if_last
        finish_more h = ground (arith, stops_after)

        -- A first check-in that leaves stops to visit answers 201, writes the check-in, counts one
        -- more place for the user and pays nothing; the quest stays started, and the one event is
        -- that of the check-in.
        pub check_in_location_counts :
            stops_visited db user_id quest_id w + 1 < length q.locations
            → let (r, w') = check_in_location fl db tx user_id quest_id location_id body now w in
              (r
                ≡ ok (record { http_status = 201; step_completed = true; quest_completed = false }))
              × (db.user.find user_id w'.users
                  ≡ some (record u { places_visited = u.places_visited + 1 }))
              × (db.quest_completion.find (user_id, quest_id) w'.completions
                  ≡ some (record c {
                    checked_in_location_ids = c.checked_in_location_ids ++ location_id ∷ [];
                  }))
              × (db.quest_location_check_in.find (user_id, location_id) w'.check_ins ≢ none)
              × (w'.emitted
                  ≡ w.emitted ++ quest_location_checked_in user_id quest_id location_id ∷ [])
        unfolding check_in_location first_check_in announce stopped
        check_in_location_counts h = rw checked (
          refl,
          find-save_self db.user user_id _ w.users,
          find-save_self db.quest_completion (user_id, quest_id) _ w.completions,
          λ gone. cc (
            find-save_self db.quest_location_check_in (user_id, location_id) check_in w.check_ins,
            gone,
          ),
          refl,
        )
          where
            checked : check_in_location fl db tx user_id quest_id location_id body now w ≡ (
              ok (record { http_status = 201; step_completed = true; quest_completed = false }),
              record stopped {
                emitted = w.emitted ++ quest_location_checked_in user_id quest_id location_id ∷ [];
              },
            )
            checked = ground (
              arith,
              tx.transaction_lem Outcome (check_in_tx fl db user_id quest_id location_id q body now)
                  w,
              check_in_tx_eq,
              finish_more h,
              some_stop location_id q.locations location_found,
            )

        -- The user and the row as the check-in leaves them, then paid and completed.
        paid_world : World db
        unfolding stopped
        paid_world =
            rewarded fl db user_id quest_id (some Proof.check_ins) now q (one_more_place u)
              (push_location location_id c) stopped

        finish_last :
            length q.locations ≤ stops_visited db user_id quest_id w + 1
            → finish_if_last fl db user_id quest_id q now stopped
              ≡ (ok (last_stop (finalized fl db now q (one_more_place u))), paid_world)
        unfolding finish_if_last paid_world
        finish_last h = ground (
          arith,
          stops_after,
          finalize_eq fl db user_id quest_id (some Proof.check_ins) now q (one_more_place u)
              (push_location location_id c) stopped,
          stored,
        )
          where
            stored :
                (db.user.find user_id stopped.users ≡ some (one_more_place u))
                × (db.quest_completion.find (user_id, quest_id) stopped.completions
                    ≡ some (push_location location_id c))
            stored = (
              find-save_self db.user user_id _ w.users,
              find-save_self db.quest_completion (user_id, quest_id) _ w.completions,
            )

        -- The check-in at the last stop answers 201, completes the quest and pays it once: the
        -- user's XP grow by the reward and the level follows, the row is completed with that XP, and
        -- the events are those of a completion and then that of the check-in.
        pub check_in_location_completes :
            length q.locations ≤ stops_visited db user_id quest_id w + 1
            → let (r, w') = check_in_location fl db tx user_id quest_id location_id body now w in
              (r ≡ ok (record { http_status = 201; step_completed = true; quest_completed = true }))
              × ((u' : User) × (db.user.find user_id w'.users ≡ some u')
                  × (u'.xp ≡ u.xp + q.xp_reward)
                  × (u'.level ≡ level_from_xp u'.xp)
                  × (u'.places_visited ≡ u.places_visited + 1)
                  × (u'.quests_done ≡ u.quests_done + 1))
              × ((c' : QuestCompletion) × (db.quest_completion.find
                      (user_id, quest_id)
                      w'.completions
                    ≡ some c')
                  × (c'.status ≡ completed)
                  × (c'.completed_at ≡ some now)
                  × (c'.xp_awarded ≡ q.xp_reward))
              × (w'.emitted
                  ≡ (w.emitted ++ completion_events user_id quest_id q.xp_reward u.xp now)
                    ++ quest_location_checked_in user_id quest_id location_id ∷ [])
        unfolding check_in_location first_check_in announce paid_world
        check_in_location_completes h = rw checked (
          refl,
          (
            rewarded_user now q.xp_reward (path_meters fl db q) (one_more_place u),
            find-save_self db.user user_id _ _,
            refl,
            refl,
            refl,
            refl,
          ),
          (
            completed_row now q.xp_reward (some Proof.check_ins) (push_location location_id c),
            find-save_self db.quest_completion (user_id, quest_id) _ _,
            refl,
            refl,
            refl,
          ),
          refl,
        )
          where
            checked : check_in_location fl db tx user_id quest_id location_id body now w ≡ (
              ok (record { http_status = 201; step_completed = true; quest_completed = true }),
              record paid_world {
                emitted =
                    (w.emitted ++ completion_events user_id quest_id q.xp_reward u.xp now)
                    ++ quest_location_checked_in user_id quest_id location_id ∷ [];
              },
            )
            checked = ground (
              arith,
              tx.transaction_lem Outcome (check_in_tx fl db user_id quest_id location_id q body now)
                  w,
              check_in_tx_eq,
              finish_last h,
              some_stop location_id q.locations location_found,
              append_assoc w.emitted (quest_completed user_id quest_id q.xp_reward now ∷ [])
                  (level_up user_id (level_from_xp u.xp) (level_from_xp (u.xp + q.xp_reward)) ∷ []),
            )
