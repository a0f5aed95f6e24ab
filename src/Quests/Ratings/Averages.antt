-- ===== src/Quests/Ratings/Averages.antt =====
-- The rating of a quest is what its rating rows say: src/modules/quests/quests.service.ts.
use sidequest_demo_be.Common.{ℕ, ◌+◌, ◌≡◌, ◌≢◌, refl, none, some, arith}
use sidequest_demo_be.Geo.{Float}
use sidequest_demo_be.Effects.{ok, Transactions}
use sidequest_demo_be.Store.{saved_row, find-save_self}
use sidequest_demo_be.Model.{Quest}
use sidequest_demo_be.World.{Database, World, save_quest}
use sidequest_demo_be.Quests.Ratings.{
  RateQuestDto, rated, average, aggregate, one_for, rate_tx, rate,
}

module _ (fl : Float) (db : Database fl.F) where
  -- The stored rating of a quest is the number and the average of its rating rows.
  abbrev pub RatingAgrees : ℕ → World db → Type 0
  RatingAgrees quest_id w =
      (q : Quest fl.F)
      → db.quest.find quest_id w.quests ≡ some q
      → (q.rating_count ≡ (aggregate fl db quest_id w).count)
        × (q.rating_avg ≡ average (aggregate fl db quest_id w))

  -- The world after `rate`.
  abbrev with_rating : ℕ → ℕ → RateQuestDto → ℕ → Quest fl.F → World db → World db
  with_rating user_id quest_id dto now q w =
      let old = db.quest_rating.find (user_id, quest_id) w.ratings in
      let w₁ = record w {
        ratings = db.quest_rating.save (user_id, quest_id) (rated dto now old) w.ratings;
      } in
      let agg = aggregate fl db quest_id w₁ in
      save_quest db quest_id (record q { rating_avg = average agg; rating_count = agg.count }) w₁

  rate_tx_eq :
      (user_id quest_id : ℕ) (dto : RateQuestDto) (now : ℕ) (w : World db) {q : Quest fl.F}
      → db.quest.find quest_id w.quests ≡ some q
      → rate_tx fl db user_id quest_id dto now w ≡ (ok tt, with_rating user_id quest_id dto now q w)
  unfolding rate_tx
  rate_tx_eq user_id quest_id dto now w found = ground arith

  module _ (tx : Transactions (World db)) where
    rate_eq :
        (user_id quest_id : ℕ) (dto : RateQuestDto) (now : ℕ) (w : World db) {q : Quest fl.F}
        → db.quest.find quest_id w.quests ≡ some q
        → rate fl db tx user_id quest_id dto now w
          ≡ (ok tt, with_rating user_id quest_id dto now q w)
    unfolding rate
    rate_eq user_id quest_id dto now w found = ground (
      arith,
      tx.transaction_lem (Unit {0}) (rate_tx fl db user_id quest_id dto now) w,
      rate_tx_eq user_id quest_id dto now w found,
    )

    -- After a user rates an existing quest: the answer is ok, the user's row has the score, the
    -- quest's stored rating agrees with the rows, and the count has grown by one exactly if the
    -- user had no rating there before.
    pub rate_agrees :
        (user_id quest_id : ℕ) (dto : RateQuestDto) (now : ℕ) (w : World db) {q : Quest fl.F}
        → db.quest.find quest_id w.quests ≡ some q
        → let (r, w') = rate fl db tx user_id quest_id dto now w in
          (r ≡ ok tt)
          × (db.quest_rating.find (user_id, quest_id) w'.ratings
              ≡ some (rated dto now (db.quest_rating.find (user_id, quest_id) w.ratings)))
          × RatingAgrees quest_id w'
          × (db.quest_rating.find (user_id, quest_id) w.ratings ≡ none
              → (aggregate fl db quest_id w').count ≡ (aggregate fl db quest_id w).count + 1)
          × (db.quest_rating.find (user_id, quest_id) w.ratings ≢ none
              → (aggregate fl db quest_id w').count ≡ (aggregate fl db quest_id w).count)
    rate_agrees user_id quest_id dto now w {q} found =
        let old = db.quest_rating.find (user_id, quest_id) w.ratings in
        let counted =
          db.quest_rating.total-save (one_for quest_id) (user_id, quest_id) (rated dto now old)
            w.ratings in
        rw (rate_eq user_id quest_id dto now w found) (
          refl,
          find-save_self db.quest_rating (user_id, quest_id) _ w.ratings,
          λ q' h. rw (saved_row db.quest quest_id w.quests h) (refl, refl),
          λ new. ground (arith, counted),
          λ known. ground (arith, counted),
        )
