-- ===== src/Requests.antt =====
-- What changes the database, one step at a time: the requests of src/modules that write, the ping of
-- an authenticated request, an event that reaches the listeners of achievements or of notifications,
-- and the nightly job. An identifier of a new row is part of a step, and so is the time.
pub mod Elsewhere
pub mod Levels
use sidequest_demo_be.Common.{ℕ, Option, List}
use sidequest_demo_be.Common.Text.{Text}
use sidequest_demo_be.Geo.{Float}
use sidequest_demo_be.Links.{TextMethods}
use sidequest_demo_be.Effects.{Transactions}
use sidequest_demo_be.Events.{AppEvent}
use sidequest_demo_be.Model.{Proof}
use sidequest_demo_be.World.{Database, World}
use sidequest_demo_be.Quests
use sidequest_demo_be.Quests.CheckIn.{CheckInBody}
use sidequest_demo_be.Quests.Ratings.{RateQuestDto}
use sidequest_demo_be.Quests.Editing.{Actor, CreateQuestDto, UpdateQuestDto}
use sidequest_demo_be.Friendships
use sidequest_demo_be.Invites
use sidequest_demo_be.Auth
use sidequest_demo_be.Auth.{Crypto, RegisterDto, LoginDto}
use sidequest_demo_be.Users
use sidequest_demo_be.Users.{UpdateUserDto}
use sidequest_demo_be.Achievements
use sidequest_demo_be.Achievements.{Achievement}
use sidequest_demo_be.Notifications
use sidequest_demo_be.Schedules
use sidequest_demo_be.Access
use sidequest_demo_be.Businesses
use sidequest_demo_be.Businesses.{CreateBusinessDto}

pub data Request (F : Type 0) : Type 0 where
  -- auth and users
  register : (new_id link_id : ℕ) → RegisterDto → (now : ℕ) → Request F
  login : LoginDto → (now : ℕ) → Request F
  refresh : Text → (now : ℕ) → Request F
  logout : (user_id : ℕ) → Request F
  update_profile : (user_id : ℕ) → UpdateUserDto → Request F
  set_avatar_url : (user_id : ℕ) → Text → Request F
  touch_last_seen : (user_id now : ℕ) → Request F
  -- quests
  start : (user_id quest_id now : ℕ) → Request F
  complete : (user_id quest_id : ℕ) → Option Proof → (now : ℕ) → Request F
  check_in : (user_id quest_id location_id : ℕ) → CheckInBody F → (now : ℕ) → Request F
  rate : (user_id quest_id : ℕ) → RateQuestDto → (now : ℕ) → Request F
  unrate : (user_id quest_id : ℕ) → Request F
  create_quest : (new_id : ℕ) → (ℕ → ℕ) → (author_id : ℕ) → CreateQuestDto F → (now : ℕ) → Request F
  update_quest : Actor → (quest_id : ℕ) → UpdateQuestDto → (now : ℕ) → Request F
  delete_quest : Actor → (quest_id : ℕ) → Request F
  -- businesses
  create_business : (new_id owner_id : ℕ) → CreateBusinessDto F → (now : ℕ) → Request F
  start_onboarding : (owner_id now : ℕ) → Request F
  -- friendships and invites
  befriend block : (new_id user_id other now : ℕ) → Request F
  accept : (user_id friendship_id now : ℕ) → Request F
  unfriend : (user_id friendship_id : ℕ) → Request F
  invite : (new_id : ℕ) → (token : Text) → (inviter_id : ℕ) → (email : Text) → (now : ℕ) → Request F
  cancel_invite : (inviter_id invite_id : ℕ) → Request F
  -- notifications, listeners and jobs
  mark_read : (id user_id now : ℕ) → Request F
  mark_all_read : (user_id now : ℕ) → Request F
  notify : AppEvent → (new_id now : ℕ) → Request F
  event : AppEvent → (now : ℕ) → Request F
  midnight : (now : ℕ) → Request F

module _ (fl : Float) (db : Database fl.F) (tx : Transactions (World db)) (methods : TextMethods)
    (crypto : Crypto) (frontend : Text) (definitions : List Achievement) where
  -- The world after a request, whatever its answer.
  abbrev pub after : Request fl.F → World db → World db
  after (register id link dto now) w =
      (Auth.register db methods crypto frontend tx id link dto now w).1
  after (login dto now) w = (Auth.login db methods crypto frontend dto now w).1
  after (refresh token now) w = (Auth.refresh db methods crypto frontend token now w).1
  after (logout id) w = (Auth.logout db methods crypto frontend id w).1
  after (update_profile id dto) w = (Users.update_profile db methods frontend id dto w).1
  after (set_avatar_url id url) w = (Users.set_avatar_url db methods frontend id url w).1
  after (start id quest now) w = (Quests.Completion.start fl db id quest now w).1
  after (complete id quest given now) w =
      (Quests.Completion.complete fl db tx id quest given now w).1
  after (check_in id quest location body now) w =
      (Quests.CheckIn.check_in_location fl db tx id quest location body now w).1
  after (rate id quest dto now) w = (Quests.Ratings.rate fl db tx id quest dto now w).1
  after (unrate id quest) w = (Quests.Ratings.unrate fl db tx id quest w).1
  after (create_quest id locations author dto now) w =
      (Quests.Editing.create fl db id locations author dto now w).1
  after (update_quest actor quest dto now) w = (Quests.Editing.update fl db actor quest dto now w).1
  after (delete_quest actor quest) w = (Quests.Editing.delete fl db actor quest w).1
  after (befriend id a b now) w = (Friendships.request db id a b now w).1
  after (block id a b now) w = (Friendships.block db id a b now w).1
  after (accept a id now) w = (Friendships.accept db a id now w).1
  after (unfriend a id) w = (Friendships.remove db a id w).1
  after (invite id token inviter email now) w =
      (Invites.create_invite db methods frontend id token inviter email now w).1
  after (cancel_invite inviter id) w = (Invites.cancel db methods inviter id w).1
  after (mark_read id user now) w = (Notifications.mark_read db id user now w).1
  after (mark_all_read user now) w = (Notifications.mark_all_read db user now w).1
  after (event e now) w = (Achievements.on_event db tx definitions e now w).1
  after (touch_last_seen id now) w = (Access.LastSeen.touch_last_seen db id now w).1
  after (create_business id owner dto now) w = (Businesses.create db id owner dto now w).1
  after (start_onboarding owner now) w = (Businesses.start_onboarding db owner now w).1
  after (notify e id now) w = (Notifications.notify db e id now w).1
  after (midnight now) w = (Schedules.reset_stale_streaks_utc db now w).1

  -- The worlds that a sequence of requests leads to.
  pub data Reach (w : World db) : World db → Type 0 where
    here : Reach w w
    next : {v : World db} (r : Request fl.F) → Reach w v → Reach w (after r v)
