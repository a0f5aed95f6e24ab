-- ===== src/Quests/Ratings.antt =====
-- Rating a quest: `rate` and `unrate` of src/modules/quests/quests.service.ts.
pub mod Averages
use Prim.Native.String.{String}
use sidequest_demo_be.Common.{ℕ, Bool, true, false, Option, none, some, ◌==◌, ltb, if◌then◌else◌}
use sidequest_demo_be.Gamification.{Ratio}
use sidequest_demo_be.Geo.{Float}
use sidequest_demo_be.Effects.{
  Action, not_found, pure, gets, or_throw, modify, ◌>>=◌, ◌>>◌, Transactions,
}
use sidequest_demo_be.Model.{Quest, QuestRating}
use sidequest_demo_be.World.{Database, World, find_quest, update_quest}

-- `RateQuestDto`
pub record RateQuestDto : Type 0 where
  pub score : ℕ
  pub comment : Option String

abbrev pub comment_or : Option QuestRating → Option String → Option String
comment_or none comment = comment
comment_or (some old) none = old.comment
comment_or (some old) (some comment) = some comment

abbrev pub rated_at : Option QuestRating → ℕ → ℕ
rated_at none now = now
rated_at (some old) now = old.created_at

-- `upsert`: a comment that is left out keeps the one of the row
abbrev pub rated : RateQuestDto → ℕ → Option QuestRating → QuestRating
rated dto now old = record {
  score = dto.score;
  comment = comment_or old dto.comment;
  created_at = rated_at old now;
}

-- the ratings of a quest, counted and summed
abbrev pub one_for : ℕ → ℕ × ℕ → QuestRating → ℕ
one_for quest_id k r = if k.1 == quest_id then 1 else 0

abbrev pub score_for : ℕ → ℕ × ℕ → QuestRating → ℕ
score_for quest_id k r = if k.1 == quest_id then r.score else 0

pub record Aggregate : Type 0 where
  pub count : ℕ
  pub sum : ℕ

-- `_avg`, which is null over no rows
abbrev pub average : Aggregate → Option Ratio
average agg = if agg.count == 0 then none else some (record { num = agg.sum; den = agg.count })

module _ (fl : Float) (db : Database fl.F) where
  abbrev pub aggregate : ℕ → World db → Aggregate
  aggregate quest_id w = record {
    count = db.quest_rating.total (one_for quest_id) w.ratings;
    sum = db.quest_rating.total (score_for quest_id) w.ratings;
  }

  unfoldable pub rate_tx : ℕ → ℕ → RateQuestDto → ℕ → Action (World db) (Unit {0})
  rate_tx user_id quest_id dto now = do
    old ← gets (λ w. db.quest_rating.find (user_id, quest_id) w.ratings)
    modify (λ w. record w {
      ratings = db.quest_rating.save (user_id, quest_id) (rated dto now old) w.ratings;
    })
    agg ← gets (aggregate quest_id)
    update_quest db quest_id (λ q. record q { rating_avg = average agg; rating_count = agg.count })
    pure tt

  unfoldable pub unrate_tx : ℕ → ℕ → Action (World db) (Unit {0})
  unrate_tx user_id quest_id = do
    modify (λ w. record w { ratings = db.quest_rating.remove (user_id, quest_id) w.ratings })
    agg ← gets (aggregate quest_id)
    update_quest db quest_id (λ q. record q {
      rating_avg = if ltb 0 agg.count then average agg else none;
      rating_count = agg.count;
    })
    pure tt

  module _ (tx : Transactions (World db)) where
    unfoldable pub rate : ℕ → ℕ → RateQuestDto → ℕ → Action (World db) (Unit {0})
    rate user_id quest_id dto now = do
      row ← find_quest db quest_id
      or_throw row (not_found "Quest not found")
      tx.transaction (Unit {0}) (rate_tx user_id quest_id dto now)

    unfoldable pub unrate : ℕ → ℕ → Action (World db) (Unit {0})
    unrate user_id quest_id = do
      row ← find_quest db quest_id
      or_throw row (not_found "Quest not found")
      tx.transaction (Unit {0}) (unrate_tx user_id quest_id)
