-- ===== src/Quests/CheckIn/Stops.antt =====
-- A check-in that fails, and one that was made before: `checkInLocation` of
-- src/modules/quests/quests.service.ts.
use sidequest_demo_be.Common.{ℕ, ◌≡◌, true, false, some, arith, Option-cases, inl, inr}
use sidequest_demo_be.Geo.{Float}
use sidequest_demo_be.Effects.{Exception, ok, err, Transactions}
use sidequest_demo_be.Model.{Quest, QuestLocation, QuestLocationCheckIn, is_published}
use sidequest_demo_be.World.{Database, World}
use sidequest_demo_be.Quests.CheckIn.{
  CheckInBody, Outcome, is_done, find_location, check_in_tx, out_of_range, announce, first_check_in,
  check_in_location,
}

module _ (fl : Float) (db : Database fl.F) (tx : Transactions (World db)) where
  module _ (user_id quest_id location_id : ℕ) (body : CheckInBody fl.F) (now : ℕ) where
    announce-ok :
        (outcome : Outcome) (w : World db)
        → (announce fl db user_id quest_id location_id outcome w).0 ≡ ok tt
    unfolding announce
    announce-ok outcome w = grind arith

    first_check_in_atomic :
        (q : Quest fl.F) (w : World db) (e : Exception)
        → (first_check_in fl db tx user_id quest_id location_id q body now w).0 ≡ err e
        → (first_check_in fl db tx user_id quest_id location_id q body now w).1 ≡ w
    unfolding first_check_in
    first_check_in_atomic q w e h = grind (
      arith,
      tx.transaction_lem Outcome (check_in_tx fl db user_id quest_id location_id q body now) w,
      announce-ok,
    )

    -- A check-in that throws, at any point of the transaction or before it, leaves the whole world
    -- as it was.
    pub check_in_location_atomic :
        (w : World db) (e : Exception)
        → (check_in_location fl db tx user_id quest_id location_id body now w).0 ≡ err e
        → (check_in_location fl db tx user_id quest_id location_id body now w).1 ≡ w
    unfolding check_in_location
    check_in_location_atomic w e h = elim (Option-cases (db.quest.find quest_id w.quests)) [
      | inl missing ↦ ground arith
      | inr (q, found) ↦ elim (Option-cases (find_location location_id q.locations)) [
        | inl nowhere ↦ ground arith
        | inr (location, there) ↦ ground (arith, first_check_in_atomic q w e)
      ]
    ]

    module _ (w : World db) {q : Quest fl.F} {location : QuestLocation fl.F}
        (quest_found : db.quest.find quest_id w.quests ≡ some q)
        (quest_published : is_published q.status ≡ true)
        (location_found : find_location location_id q.locations ≡ some location)
        (in_range : out_of_range fl db location body ≡ false) where
      -- Checking in where the user has been before answers 200 and writes and emits nothing.
      pub check_in_location_again :
          {row : QuestLocationCheckIn fl.F}
          → db.quest_location_check_in.find (user_id, location_id) w.check_ins ≡ some row
          → check_in_location fl db tx user_id quest_id location_id body now w ≡ (
            ok (record {
              http_status = 200;
              step_completed = true;
              quest_completed =
                  is_done (db.quest_completion.find (user_id, quest_id) w.completions);
            }),
            w,
          )
      unfolding check_in_location
      check_in_location_again before = ground arith
