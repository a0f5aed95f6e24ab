-- ===== src/Quests/CheckIn/Levels.antt =====
-- Checking in and the stored levels of src/common/gamification/xp.ts.
use sidequest_demo_be.Common.{
  ℕ, ◌≡◌, some, arith, length, leb, ◌==◌, Option-cases, Bool-cases, inl, inr,
}
use sidequest_demo_be.Geo.{Float}
use sidequest_demo_be.Effects.{Action, pure, Transactions, ◌>>=◌, ◌>>◌}
use sidequest_demo_be.Effects.Keeping.{Keeps, bind-Keeps, transaction-Keeps}
use sidequest_demo_be.Model.{Quest, QuestLocationCheckIn, Proof, is_published}
use sidequest_demo_be.World.Levels.{LevelsKept, update_user-Keeps, same_users-Keeps}
use sidequest_demo_be.World.{Database, World, update_user, update_completion}
use sidequest_demo_be.Quests.Completion.{finalize_quest_completion_tx}
use sidequest_demo_be.Quests.Completion.Levels.{finalize-Rewards, Rewards-LevelsAgree}
use sidequest_demo_be.Quests.CheckIn.{
  CheckInBody, CheckInResult, Outcome, last_stop, one_more_place, push_location, create_check_in,
  not_started, find_location, out_of_range, counts, finish_if_last, record_check_in, check_in_tx,
  announce, first_check_in, check_in_location,
}

module _ (fl : Float) (db : Database fl.F) (user_id quest_id location_id : ℕ)
    (body : CheckInBody fl.F) (now : ℕ) where
  abbrev Kept : {A : Type 0} → Action (World db) A → Type 0
  Kept = Keeps (LevelsKept db)

  finish-Kept : (q : Quest fl.F) → Kept (finish_if_last fl db user_id quest_id q now)
  unfolding finish_if_last
  finish-Kept q w h =
      elim (Bool-cases (
        leb (length q.locations)
          (db.quest_location_check_in.total (counts user_id quest_id) w.check_ins))) [
            | inl last ↦ rw last (finalized w h)
            | inr more ↦ rw more h
          ]
    where
      finalized : Kept (
          finalize_quest_completion_tx fl db user_id quest_id q (some Proof.check_ins) now
          >>= λ fin. pure (last_stop fin))
      finalized =
          bind-Keeps (LevelsKept db)
            (finalize_quest_completion_tx fl db user_id quest_id q (some Proof.check_ins) now)
            (λ fin. pure (last_stop fin))
            (λ v k.
              Rewards-LevelsAgree fl db user_id quest_id (some Proof.check_ins) now _ _
                (finalize-Rewards fl db user_id quest_id (some Proof.check_ins) now q v) k)
            λ fin v k. k

  create_users :
      (row : QuestLocationCheckIn fl.F) (w : World db)
      → (create_check_in fl db user_id location_id row w).1.users ≡ w.users
  unfolding create_check_in
  create_users row w = grind arith

  push_users :
      (w : World db)
      → (update_completion db user_id quest_id (push_location location_id) w).1.users ≡ w.users
  push_users w = grind arith

  record-Kept :
      (q : Quest fl.F) → Kept (record_check_in fl db user_id quest_id location_id q body now)
  unfolding record_check_in
  record-Kept q =
      let row : QuestLocationCheckIn fl.F = record {
        quest_id = quest_id;
        latitude = body.latitude;
        longitude = body.longitude;
        accuracy_m = body.accuracy_m;
        created_at = now;
      } in
      let count = update_user db user_id one_more_place in
      let finish = finish_if_last fl db user_id quest_id q now in
      let push = update_completion db user_id quest_id (push_location location_id) in
      bind-Keeps (LevelsKept db) (create_check_in fl db user_id location_id row)
        (λ _. push >> (count >> finish))
        (same_users-Keeps db (create_check_in fl db user_id location_id row) (create_users row))
        λ _.
          bind-Keeps (LevelsKept db) push (λ _. count >> finish)
            (same_users-Keeps db push push_users)
            λ _.
              bind-Keeps (LevelsKept db) count (λ _. finish)
                (update_user-Keeps db user_id one_more_place λ u same. same) λ _. finish-Kept q

  check_in_tx-Kept :
      (q : Quest fl.F) → Kept (check_in_tx fl db user_id quest_id location_id q body now)
  unfolding check_in_tx
  check_in_tx-Kept q w h =
      elim (Option-cases (db.quest_location_check_in.find (user_id, location_id) w.check_ins)) [
        | inl fresh ↦ rw fresh (record-Kept q w h)
        | inr (row, twice) ↦ rw twice h
      ]

  announce_users :
      (outcome : Outcome) (w : World db)
      → (announce fl db user_id quest_id location_id outcome w).1.users ≡ w.users
  unfolding announce
  announce_users outcome w = grind arith

  module _ (tx : Transactions (World db)) where
    first-Kept :
        (q : Quest fl.F) → Kept (first_check_in fl db tx user_id quest_id location_id q body now)
    unfolding first_check_in
    first-Kept q w h =
        elim (Bool-cases
          (not_started (db.quest_completion.find (user_id, quest_id) w.completions))) [
            | inl closed ↦ rw closed h
            | inr active ↦ elim (Bool-cases (length q.locations == 0)) [
              | inl nowhere ↦ rw (active, nowhere) h
              | inr stops ↦ rw (active, stops) (written w h)
            ]
          ]
      where
        result_of : Outcome → CheckInResult
        result_of outcome = record {
          http_status = outcome.http_status;
          step_completed = outcome.step_completed;
          quest_completed = outcome.quest_completed;
        }

        after : Outcome → Action (World db) CheckInResult
        after outcome =
            announce fl db user_id quest_id location_id outcome >> pure (result_of outcome)

        after-Kept : (outcome : Outcome) → Kept (after outcome)
        after-Kept outcome =
            bind-Keeps (LevelsKept db) (announce fl db user_id quest_id location_id outcome)
              (λ _. pure (result_of outcome))
              (same_users-Keeps db (announce fl db user_id quest_id location_id outcome)
                (announce_users outcome))
              λ _ v k. k

        run : Action (World db) Outcome
        run = check_in_tx fl db user_id quest_id location_id q body now

        written : Kept (tx.transaction Outcome run >>= after)
        written =
            bind-Keeps (LevelsKept db) (tx.transaction Outcome run) after
              (transaction-Keeps (LevelsKept db) tx run (check_in_tx-Kept q)) after-Kept

    -- Whatever a check-in does, it leaves every user's stored level at what the user's XP say.
    pub check_in_location-Keeps :
        Kept (check_in_location fl db tx user_id quest_id location_id body now)
    unfolding check_in_location
    check_in_location-Keeps w h = elim (Option-cases (db.quest.find quest_id w.quests)) [
      | inl missing ↦ rw missing h
      | inr (q, found) ↦ elim (Bool-cases (is_published q.status)) [
        | inr draft ↦ rw (found, draft) h
        | inl open_quest ↦ elim (Option-cases (find_location location_id q.locations)) [
          | inl nowhere ↦ rw (found, open_quest, nowhere) h
          | inr (location, there) ↦ elim (Bool-cases (out_of_range fl db location body)) [
            | inl far ↦ rw (found, open_quest, there, far) h
            | inr near ↦
                elim (Option-cases
                  (db.quest_location_check_in.find (user_id, location_id) w.check_ins)) [
                    | inl fresh ↦ rw (found, open_quest, there, near, fresh) (first-Kept q w h)
                    | inr (row, twice) ↦ rw (found, open_quest, there, near, twice) h
                  ]
          ]
        ]
      ]
    ]
