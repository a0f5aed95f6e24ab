-- ===== src/Tests/Notices.antt =====
-- Examples for notifications and the nightly job.
use sidequest_demo_be.Common.{ℕ, ◌+◌, ◌-◌, ◌≡◌, min, length, refl, none, some, [], ◌∷◌, arith}
use sidequest_demo_be.Events.{friend_request_sent}
use sidequest_demo_be.Model.{Notification}
use sidequest_demo_be.World.{World}
use sidequest_demo_be.Notifications.{notify, count_unread, no_data}
use sidequest_demo_be.Notifications.Inbox.{is_of, list_for_user, list_for_user_lem}
use sidequest_demo_be.Store.{counted}
use sidequest_demo_be.Pagination.{skip}
use sidequest_demo_be.Notifications.Delivery.{notify_lem}
use sidequest_demo_be.Schedules.{reset_stale_streaks_utc, reset_stale_streaks_lem}
use sidequest_demo_be.Tests.{db, ann, ben, town}

notify_example :
    count_unread db 2 (notify db (friend_request_sent 1 2 4) 30 9 town).1
    ≡ count_unread db 2 town + 1
notify_example = (notify_lem db (friend_request_sent 1 2 4) 30 9 2 town refl refl refl).1

-- Ann's last completion was on the first day.
abbrev idle : World db
idle = record town {
  users = (1, record ann { streak_days = 4; last_quest_completed_at = some 5 }) ∷ (2, ben) ∷ [];
}

reset_stale_streaks_example :
    db.user.find 1 (reset_stale_streaks_utc db 259200000 idle).1.users
    ≡ some (record ann { streak_days = 0; last_quest_completed_at = some 5 })
reset_stale_streaks_example =
    (reset_stale_streaks_lem db 259200000 1 idle).1
      (record ann { streak_days = 4; last_quest_completed_at = some 5 }) refl
      λ at last. ground arith

-- Ben has two notifications and asks for one.
abbrev told : ℕ → ℕ → Notification
told user_id at = record {
  user_id = user_id;
  type = "LEVEL_UP";
  title = "Level up";
  payload = no_data;
  read_at = none;
  created_at = at;
}

abbrev noted : World db
noted = record town { notifications = (1, told 2 5) ∷ (2, told 1 6) ∷ (3, told 2 7) ∷ [] }

list_for_user_example :
    length (list_for_user db 2 (record { page = 1; limit = 1 }) noted).items
    ≡ min 1 (
        db.notification.total (counted (is_of 2)) noted.notifications
        - skip (record { page = 1; limit = 1 }))
list_for_user_example =
    (list_for_user_lem db 2 (record { page = 1; limit = 1 }) noted
      (record { page_min = omega arith; limit_min = omega arith; limit_max = omega arith })).2
