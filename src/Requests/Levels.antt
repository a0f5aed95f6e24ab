-- ===== src/Requests/Levels.antt =====
-- The stored levels over any sequence of requests.
use sidequest_demo_be.Common.{List}
use sidequest_demo_be.Common.Text.{Text}
use sidequest_demo_be.Geo.{Float}
use sidequest_demo_be.Links.{TextMethods}
use sidequest_demo_be.Effects.{Transactions}
use sidequest_demo_be.World.{Database, World}
use sidequest_demo_be.World.Levels.{LevelsAgree, update_many-LevelsAgree}
use sidequest_demo_be.Quests.Completion.Levels.{complete-LevelsAgree}
use sidequest_demo_be.Quests.CheckIn.Levels.{check_in_location-Keeps}
use sidequest_demo_be.Auth.{Crypto}
use sidequest_demo_be.Auth.Levels.{register-Keeps, login-Keeps, refresh-Keeps, logout-Keeps}
use sidequest_demo_be.Users.Levels.{update_profile-Keeps, set_avatar_url-Keeps}
use sidequest_demo_be.Achievements.{Achievement}
use sidequest_demo_be.Achievements.Unlocking.{on_event-LevelsAgree}
use sidequest_demo_be.Access.LastSeen
use sidequest_demo_be.Access.LastSeen.{seen_at}
use sidequest_demo_be.Schedules.{reset_stale_streaks_utc, cleared}
use sidequest_demo_be.Requests.{
  Request, register, login, refresh, logout, update_profile, set_avatar_url, start, complete,
  check_in, rate, unrate, create_quest, update_quest, delete_quest, befriend, block, accept,
  unfriend, invite, cancel_invite, mark_read, mark_all_read, notify, event, touch_last_seen,
  create_business, start_onboarding, midnight, after, Reach, here, next,
}
use sidequest_demo_be.Requests.Elsewhere.{
  request_users, accept_users, block_users, remove_users, mark_read_users, mark_all_read_users,
  create_business_users, start_onboarding_users, notify_users, cancel_users, create_invite_users,
  start_users, create_users, update_users, delete_users, rate_users, unrate_users,
}

module _ (fl : Float) (db : Database fl.F) (tx : Transactions (World db)) (methods : TextMethods)
    (crypto : Crypto) (frontend : Text) (definitions : List Achievement) where
  after-LevelsAgree :
      (r : Request fl.F) (w : World db)
      → LevelsAgree db w.users
      → LevelsAgree db (after fl db tx methods crypto frontend definitions r w).users
  unfolding reset_stale_streaks_utc LastSeen.touch_last_seen
  after-LevelsAgree (register id link dto now) w =
      register-Keeps db methods crypto frontend tx id link dto now w
  after-LevelsAgree (login dto now) w = login-Keeps db methods crypto frontend dto now w
  after-LevelsAgree (refresh token now) w = refresh-Keeps db methods crypto frontend token now w
  after-LevelsAgree (logout id) w = logout-Keeps db methods crypto frontend id w
  after-LevelsAgree (update_profile id dto) w = update_profile-Keeps db methods frontend id dto w
  after-LevelsAgree (set_avatar_url id url) w = set_avatar_url-Keeps db methods frontend id url w
  after-LevelsAgree (start id quest now) w = λ h. rw (start_users fl db id quest now w) h
  after-LevelsAgree (complete id quest given now) w =
      complete-LevelsAgree fl db id quest given now tx w
  after-LevelsAgree (check_in id quest location body now) w =
      check_in_location-Keeps fl db id quest location body now tx w
  after-LevelsAgree (rate id quest dto now) w = λ h. rw (rate_users fl db tx id quest dto now w) h
  after-LevelsAgree (unrate id quest) w = λ h. rw (unrate_users fl db tx id quest w) h
  after-LevelsAgree (create_quest id locations author dto now) w =
      λ h. rw (create_users fl db id locations author dto now w) h
  after-LevelsAgree (update_quest actor quest dto now) w =
      λ h. rw (update_users fl db actor quest dto now w) h
  after-LevelsAgree (delete_quest actor quest) w = λ h. rw (delete_users fl db actor quest w) h
  after-LevelsAgree (befriend id a b now) w = λ h. rw (request_users db id a b now w) h
  after-LevelsAgree (block id a b now) w = λ h. rw (block_users db id a b now w) h
  after-LevelsAgree (accept a id now) w = λ h. rw (accept_users db a id now w) h
  after-LevelsAgree (unfriend a id) w = λ h. rw (remove_users db a id w) h
  after-LevelsAgree (invite id token inviter email now) w =
      λ h. rw (create_invite_users db methods frontend id token inviter email now w) h
  after-LevelsAgree (cancel_invite inviter id) w = λ h. rw (cancel_users db methods inviter id w) h
  after-LevelsAgree (mark_read id user now) w = λ h. rw (mark_read_users db id user now w) h
  after-LevelsAgree (mark_all_read user now) w = λ h. rw (mark_all_read_users db user now w) h
  after-LevelsAgree (touch_last_seen id now) w =
      update_many-LevelsAgree db _ (seen_at now) w.users λ u same. same
  after-LevelsAgree (create_business id owner dto now) w =
      λ h. rw (create_business_users db id owner dto now w) h
  after-LevelsAgree (start_onboarding owner now) w =
      λ h. rw (start_onboarding_users db owner now w) h
  after-LevelsAgree (notify e id now) w = λ h. rw (notify_users db e id now w) h
  after-LevelsAgree (event e now) w = on_event-LevelsAgree db tx definitions e now w
  after-LevelsAgree (midnight now) w = update_many-LevelsAgree db _ cleared w.users λ u same. same

  -- From a world in which every user's stored level is what the user's XP say, whatever steps follow
  -- one after the other - requests that write, pings of presence, events at the listeners of
  -- achievements and of notifications, nightly jobs - and whatever each answers or throws, every
  -- user's stored level is still what the user's XP say.
  pub Reach-LevelsAgree :
      {w v : World db}
      → Reach fl db tx methods crypto frontend definitions w v
      → LevelsAgree db w.users
      → LevelsAgree db v.users
  Reach-LevelsAgree here agree = agree
  Reach-LevelsAgree (next {v} r steps) agree = after-LevelsAgree r v (Reach-LevelsAgree steps agree)
