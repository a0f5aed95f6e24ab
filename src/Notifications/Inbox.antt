-- ===== src/Notifications/Inbox.antt =====
-- A user's notifications: `listForUser` of src/modules/notifications/notifications.service.ts and of
-- its repository, with `fromEntity` of
-- src/modules/notifications/dto/notification.dto.ts. The body is left out, and the data are the fields
-- that were given, as they are stored.
use Prim.Native.String.{String}
use sidequest_demo_be.Common.{
  ℕ, ◌+◌, ◌-◌, ◌<◌, ◌≡◌, ◌↔◌, min, Bool, true, false, ◌||◌, if◌then◌else◌, Option, none, some, map,
  length, ◌==◌, arith, All, All-imp, All-map,
}
use sidequest_demo_be.Common.Sorting.{Order, Sorted, Sorted-map, ascending, by, reversed}
use sidequest_demo_be.Pagination.{PaginationQuery, PaginatedResult, IsValid, skip, paginate}
use sidequest_demo_be.Store.{counted}
use sidequest_demo_be.Store.Paging.{page_rows, page_rows_sound, page_rows-Sorted, shown_page_size}
use sidequest_demo_be.Model.{Notification, NotificationData}
use sidequest_demo_be.World.{Database, World}
use sidequest_demo_be.Notifications.{NotificationType, parse_stored_notification_type}

pub record NotificationDto : Type 0 where
  pub id : ℕ
  pub user_id : ℕ
  pub type : NotificationType
  pub title : String
  pub payload : Option NotificationData
  pub read_at : Option ℕ
  pub created_at : ℕ

abbrev pub is_given : {A : Type 0} → Option A → Bool
is_given none = false
is_given (some a) = true

-- `Object.keys(out).length > 0 ? out : undefined`
abbrev pub data_of : NotificationData → Option NotificationData
data_of d =
    if is_given d.quest_id
      || is_given d.xp_awarded
      || is_given d.achievement_id
      || is_given d.slug
      || is_given d.friendship_id
      || is_given d.from_user
      || is_given d.previous_level
      || is_given d.new_level
    then some d
    else none

abbrev pub from_entity : ℕ × Notification → NotificationDto
from_entity (id, n) = record {
  id = id;
  user_id = n.user_id;
  type = parse_stored_notification_type n.type;
  title = n.title;
  payload = data_of n.payload;
  read_at = n.read_at;
  created_at = n.created_at;
}

abbrev pub is_of : ℕ → ℕ → Notification → Bool
is_of user_id id n = n.user_id == user_id

abbrev pub newest_dto : Order NotificationDto
newest_dto = reversed (by (λ n. n.created_at) ascending)

abbrev pub latest : Order (ℕ × Notification)
latest = reversed (by (λ e. e.1.created_at) ascending)

module _ {F : Type 0} (db : Database F) where
  unfoldable pub list_for_user : ℕ → PaginationQuery → World db → PaginatedResult NotificationDto
  list_for_user user_id query w =
      paginate
        (map from_entity (
          page_rows db.notification (is_of user_id) latest (skip query) query.limit
            w.notifications))
        query.page query.limit (db.notification.total (counted (is_of user_id)) w.notifications)

  -- A page of notifications has only the user's own, the newest first, as many as there are beyond
  -- those that it skips, up to its limit, and a next page is announced exactly while some are left.
  pub list_for_user_lem :
      (user_id : ℕ) (query : PaginationQuery) (w : World db)
      → IsValid query
      → let page = list_for_user user_id query w in
        let total = db.notification.total (counted (is_of user_id)) w.notifications in
        All (λ n. n.user_id ≡ user_id) page.items
        × Sorted newest_dto page.items
        × (length page.items ≡ min query.limit (total - skip query))
        × ((page.pagination.has_next ≡ true) ↔ (skip query + length page.items < total))
  unfolding list_for_user paginate
  list_for_user_lem user_id query w valid =
      let (size, total, next) =
        shown_page_size db.notification from_entity (is_of user_id) latest query w.notifications
          valid in
      let rows =
        page_rows db.notification (is_of user_id) latest (skip query) query.limit w.notifications in
      (
        All-map (λ n. n.user_id ≡ user_id) from_entity rows
            (All-imp
              (λ (e : ℕ × Notification).
                (is_of user_id e.0 e.1 ≡ true)
                × (db.notification.find e.0 w.notifications ≡ some e.1))
              (λ e h. ground (arith, h.0)) rows
              (page_rows_sound db.notification (is_of user_id) latest (skip query) query.limit
                w.notifications)),
        Sorted-map from_entity newest_dto rows (
            page_rows-Sorted db.notification (is_of user_id) latest (skip query) query.limit
              w.notifications),
        size,
        next,
      )
