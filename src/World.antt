-- ===== src/World.antt =====
-- What a request can change: the tables of the database and the events that were emitted. The
-- client's calls on each table are actions.
pub mod Levels
use sidequest_demo_be.Common.{ℕ, Option, none, some, List, [], ◌∷◌, ◌++◌}
use sidequest_demo_be.Store.{Table, id_key, pair_key}
use sidequest_demo_be.Effects.{Action, ok, err, gets, modify, record_not_found}
use sidequest_demo_be.Events.{AppEvent}
use sidequest_demo_be.Model.{
  User, Quest, QuestCategory, Business, BusinessVisit, QuestCompletion, QuestLocationCheckIn,
  QuestRating, Friendship, Invite, UserAchievement, Notification,
}

-- The tables, each under the unique key by which the code reads it.
pub record Database (F : Type 0) : Type 1 where
  pub user : Table id_key User
  pub quest_category : Table id_key QuestCategory
  pub business : Table id_key (Business F)
  pub business_visit : Table id_key BusinessVisit
  pub quest : Table id_key (Quest F)
  pub quest_completion : Table pair_key QuestCompletion
  pub quest_location_check_in : Table pair_key (QuestLocationCheckIn F)
  pub quest_rating : Table pair_key QuestRating
  pub friendship : Table id_key Friendship
  pub invite : Table id_key Invite
  pub user_achievement : Table pair_key UserAchievement
  pub notification : Table id_key Notification

pub record World {F : Type 0} (db : Database F) : Type 0 where
  pub users : db.user.State
  pub categories : db.quest_category.State
  pub businesses : db.business.State
  pub business_visits : db.business_visit.State
  pub quests : db.quest.State
  pub completions : db.quest_completion.State
  pub check_ins : db.quest_location_check_in.State
  pub ratings : db.quest_rating.State
  pub friendships : db.friendship.State
  pub invites : db.invite.State
  pub user_achievements : db.user_achievement.State
  pub notifications : db.notification.State
  pub emitted : List AppEvent

module _ {F : Type 0} (db : Database F) where
  -- `EventsBus.emit`
  abbrev pub emit : AppEvent → Action (World db) (Unit {0})
  emit event = modify (λ w. record w { emitted = w.emitted ++ event ∷ [] })

  abbrev pub find_user : ℕ → Action (World db) (Option User)
  find_user id = gets (λ w. db.user.find id w.users)

  abbrev pub save_user : ℕ → User → World db → World db
  save_user id u w = record w { users = db.user.save id u w.users }

  -- `user.update`, which throws where the row is missing, and returns the new row
  abbrev pub update_user : ℕ → (User → User) → Action (World db) User
  update_user id f w = elim (db.user.find id w.users) [
    | none ↦ (err record_not_found, w)
    | some u ↦ (ok (f u), save_user id (f u) w)
  ]

  abbrev pub find_quest : ℕ → Action (World db) (Option (Quest F))
  find_quest id = gets (λ w. db.quest.find id w.quests)

  abbrev pub save_quest : ℕ → Quest F → World db → World db
  save_quest id q w = record w { quests = db.quest.save id q w.quests }

  abbrev pub update_quest : ℕ → (Quest F → Quest F) → Action (World db) (Quest F)
  update_quest id f w = elim (db.quest.find id w.quests) [
    | none ↦ (err record_not_found, w)
    | some q ↦ (ok (f q), save_quest id (f q) w)
  ]

  abbrev pub find_completion : ℕ → ℕ → Action (World db) (Option QuestCompletion)
  find_completion user_id quest_id =
      gets (λ w. db.quest_completion.find (user_id, quest_id) w.completions)

  abbrev pub save_completion : ℕ → ℕ → QuestCompletion → World db → World db
  save_completion user_id quest_id c w = record w {
    completions = db.quest_completion.save (user_id, quest_id) c w.completions;
  }

  abbrev pub update_completion :
      ℕ → ℕ → (QuestCompletion → QuestCompletion) → Action (World db) QuestCompletion
  update_completion user_id quest_id f w =
      elim (db.quest_completion.find (user_id, quest_id) w.completions) [
        | none ↦ (err record_not_found, w)
        | some c ↦ (ok (f c), save_completion user_id quest_id (f c) w)
      ]

  abbrev pub find_check_in : ℕ → ℕ → Action (World db) (Option (QuestLocationCheckIn F))
  find_check_in user_id location_id =
      gets (λ w. db.quest_location_check_in.find (user_id, location_id) w.check_ins)

  abbrev pub find_friendship : ℕ → Action (World db) (Option Friendship)
  find_friendship id = gets (λ w. db.friendship.find id w.friendships)
