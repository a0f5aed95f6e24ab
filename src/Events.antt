-- ===== src/Events.antt =====
-- The domain events of src/modules/events/events.types.ts, with the payloads that are sent.
use Prim.Native.String.{String}
use sidequest_demo_be.Common.{ℕ}

-- `AppEvents` and the event interfaces. Identifiers are only compared, so they are numbers; a date
-- is its time in milliseconds.
pub data AppEvent : Type 0 where
  user_registered : (user_id : ℕ) → (email username : String) → AppEvent
  quest_started : (user_id quest_id : ℕ) → AppEvent
  quest_location_checked_in : (user_id quest_id location_id : ℕ) → AppEvent
  quest_completed : (user_id quest_id xp_awarded completed_at : ℕ) → AppEvent
  achievement_unlocked : (user_id achievement_id : ℕ) → (achievement_slug : String) → AppEvent
  friend_request_sent : (requester_id addressee_id friendship_id : ℕ) → AppEvent
  friend_request_accepted : (requester_id addressee_id friendship_id : ℕ) → AppEvent
  level_up : (user_id previous_level new_level : ℕ) → AppEvent
  business_quest_approved : (user_id quest_id : ℕ) → AppEvent
