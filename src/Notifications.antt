-- ===== src/Notifications.antt =====
-- Notifications: `send`, the reads, the marks and the listeners of
-- src/modules/notifications/notifications.service.ts, over
-- src/modules/notifications/notifications.repository.ts. A notification's body, which says the same
-- as its data in words, and the push over the socket are left out. `new_id` is the identifier that
-- the database gives a new row, and `now` the time.
pub mod Delivery
pub mod Inbox
use Prim.Native.String.{String}
use text.Mathlib.Text.{◌==◌ as str_eq}
use sidequest_demo_be.Common.{
  ℕ, Bool, true, false, ◌&&◌, ◌||◌, Option, none, some, ◌==◌, if◌then◌else◌,
}
use sidequest_demo_be.Effects.{
  Action, Result, ok, err, record_not_found, pure, gets, or_throw, modify, ◌>>=◌, ◌>>◌,
}
use sidequest_demo_be.Events.{AppEvent}
use sidequest_demo_be.Model.{User, Notification, NotificationData, ParticipantSummary}
use sidequest_demo_be.World.{Database, World, find_user}

pub data NotificationType : Type 0 where
  quest_completed achievement_unlocked friend_request_received friend_request_accepted level_up
        business_quest_approved :
      NotificationType

-- The texts of the enumeration, which are stored.
unfoldable pub type_text : NotificationType → String
type_text NotificationType.quest_completed = "QUEST_COMPLETED"
type_text NotificationType.achievement_unlocked = "ACHIEVEMENT_UNLOCKED"
type_text NotificationType.friend_request_received = "FRIEND_REQUEST_RECEIVED"
type_text NotificationType.friend_request_accepted = "FRIEND_REQUEST_ACCEPTED"
type_text NotificationType.level_up = "LEVEL_UP"
type_text NotificationType.business_quest_approved = "BUSINESS_QUEST_APPROVED"

unfoldable pub parse_stored_notification_type : String → NotificationType
parse_stored_notification_type stored =
    if str_eq stored "QUEST_COMPLETED" || str_eq stored "quest.completed"
    then NotificationType.quest_completed
    else if str_eq stored "ACHIEVEMENT_UNLOCKED" || str_eq stored "achievement.unlocked"
    then NotificationType.achievement_unlocked
    else if str_eq stored "FRIEND_REQUEST_RECEIVED" || str_eq stored "friend.request"
    then NotificationType.friend_request_received
    else if str_eq stored "FRIEND_REQUEST_ACCEPTED" || str_eq stored "friend.accepted"
    then NotificationType.friend_request_accepted
    else if str_eq stored "LEVEL_UP"
    then NotificationType.level_up
    else if str_eq stored "BUSINESS_QUEST_APPROVED"
    then NotificationType.business_quest_approved
    else NotificationType.quest_completed

-- `send`'s input
pub record NotificationInput : Type 0 where
  pub user_id : ℕ
  pub type : NotificationType
  pub title : String
  pub payload : NotificationData

abbrev pub no_data : NotificationData
no_data = record {
  quest_id = none;
  xp_awarded = none;
  achievement_id = none;
  slug = none;
  friendship_id = none;
  from_user = none;
  previous_level = none;
  new_level = none;
}

abbrev pub created_notification : NotificationInput → ℕ → Notification
created_notification input now = record {
  user_id = input.user_id;
  type = type_text input.type;
  title = input.title;
  payload = input.payload;
  read_at = none;
  created_at = now;
}

abbrev pub is_unread : Notification → Bool
is_unread n = elim n.read_at [ none ↦ true | some _ ↦ false ]

-- `{ userId, readAt: null }`
abbrev pub unread_of : ℕ → ℕ → Notification → Bool
unread_of user_id id n = n.user_id == user_id && is_unread n

abbrev pub one_unread : ℕ → ℕ → Notification → ℕ
one_unread user_id id n = if unread_of user_id id n then 1 else 0

abbrev pub read_now : ℕ → Notification → Notification
read_now now n = record n { read_at = some now }

-- The selected columns of the user.
abbrev pub participant : ℕ → Option User → Option ParticipantSummary
participant id none = none
participant id (some u) = some (record {
  id = id;
  username = u.username;
  display_name = u.display_name;
  avatar_url = u.avatar_url;
  level = u.level;
})

module _ {F : Type 0} (db : Database F) where
  unfoldable pub send : ℕ → NotificationInput → ℕ → Action (World db) (Unit {0})
  send new_id input now = do
    user ← find_user db input.user_id
    or_throw user record_not_found
    modify (λ w. record w {
      notifications = db.notification.save new_id (created_notification input now) w.notifications;
    })

  -- `.catch((err) => logger.warn(...))`
  abbrev pub caught : Action (World db) (Unit {0}) → Action (World db) (Unit {0})
  caught m w = (ok tt, (m w).1)

  -- `loadParticipantSummary`
  abbrev pub load_participant_summary : ℕ → Action (World db) (Option ParticipantSummary)
  load_participant_summary user_id = gets (λ w. participant user_id (db.user.find user_id w.users))

  abbrev pub friend_input : NotificationType → String → ℕ → ℕ → ℕ → World db → NotificationInput
  friend_input type title to from friendship_id w = record {
    user_id = to;
    type = type;
    title = title;
    payload = record no_data {
      friendship_id = some friendship_id;
      from_user = participant from (db.user.find from w.users);
    };
  }

  -- The listeners of `onModuleInit`.
  unfoldable pub notify : AppEvent → ℕ → ℕ → Action (World db) (Unit {0})
  notify (AppEvent.quest_completed user_id quest_id xp_awarded at) new_id now = caught (
      send new_id
        (record {
          user_id = user_id;
          type = NotificationType.quest_completed;
          title = "Quest completed!";
          payload = record no_data { quest_id = some quest_id; xp_awarded = some xp_awarded };
        })
        now)
  notify (AppEvent.achievement_unlocked user_id achievement_id slug) new_id now = caught (
      send new_id
        (record {
          user_id = user_id;
          type = NotificationType.achievement_unlocked;
          title = "Achievement unlocked";
          payload = record no_data { achievement_id = some achievement_id; slug = some slug };
        })
        now)
  notify (AppEvent.friend_request_sent requester_id addressee_id friendship_id) new_id now = do
    input ← gets (
        friend_input NotificationType.friend_request_received "New friend request" addressee_id
          requester_id friendship_id)
    caught (send new_id input now)
  notify (AppEvent.friend_request_accepted requester_id addressee_id friendship_id) new_id now = do
    input ← gets (
        friend_input NotificationType.friend_request_accepted "Friend request accepted" requester_id
          addressee_id friendship_id)
    caught (send new_id input now)
  notify (AppEvent.level_up user_id previous_level new_level) new_id now = caught (
      send new_id
        (record {
          user_id = user_id;
          type = NotificationType.level_up;
          title = "Level up!";
          payload = record no_data {
            previous_level = some previous_level;
            new_level = some new_level;
          };
        })
        now)
  notify (AppEvent.business_quest_approved user_id quest_id) new_id now = caught (
      send new_id
        (record {
          user_id = user_id;
          type = NotificationType.business_quest_approved;
          title = "Quest approved";
          payload = record no_data { quest_id = some quest_id };
        })
        now)
  notify _ new_id now = pure tt

  unfoldable pub count_unread : ℕ → World db → ℕ
  count_unread user_id w = db.notification.total (one_unread user_id) w.notifications

  -- `{ id, userId }`
  unfoldable pub mark_read : ℕ → ℕ → ℕ → Action (World db) (Unit {0})
  mark_read id user_id now = modify (λ w. record w {
    notifications =
        db.notification.update_many (λ k n. k == id && n.user_id == user_id) (read_now now)
          w.notifications;
  })

  unfoldable pub mark_all_read : ℕ → ℕ → Action (World db) (Unit {0})
  mark_all_read user_id now = modify (λ w. record w {
    notifications = db.notification.update_many (unread_of user_id) (read_now now) w.notifications;
  })
