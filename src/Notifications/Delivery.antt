-- ===== src/Notifications/Delivery.antt =====
-- Who is notified of what, and what is unread:
-- src/modules/notifications/notifications.service.ts.
use mathlib.Core.Path.{fun_ext, subst}
use sidequest_demo_be.Common.{
  ℕ, ◌+◌, ◌≡◌, ◌≢◌, refl, ◌∙◌, ap, Option, none, some, arith, ◌==◌, if◌then◌else◌, Option-cases,
  Bool-cases, inl, inr,
}
use sidequest_demo_be.Effects.{Result, ok}
use sidequest_demo_be.Events.{AppEvent}
use sidequest_demo_be.Store.{find-save_ne, change}
use sidequest_demo_be.Model.{User, Notification}
use sidequest_demo_be.World.{Database, World}
use sidequest_demo_be.Notifications.{
  NotificationType, NotificationInput, type_text, parse_stored_notification_type,
  created_notification, one_unread, unread_of, read_now, send, notify, count_unread, mark_all_read,
}

-- Every type of notification is read back as it was stored.
parse-type_text : (t : NotificationType) → parse_stored_notification_type (type_text t) ≡ t
unfolding type_text parse_stored_notification_type
parse-type_text NotificationType.quest_completed = refl
parse-type_text NotificationType.achievement_unlocked = refl
parse-type_text NotificationType.friend_request_received = refl
parse-type_text NotificationType.friend_request_accepted = refl
parse-type_text NotificationType.level_up = refl
parse-type_text NotificationType.business_quest_approved = refl

-- Who is told of an event: the user it is about, the one who is asked to be a friend, or the one
-- whose request was accepted.
abbrev pub recipient : AppEvent → Option ℕ
recipient (AppEvent.quest_completed user_id quest_id xp at) = some user_id
recipient (AppEvent.achievement_unlocked user_id achievement_id slug) = some user_id
recipient (AppEvent.friend_request_sent requester_id addressee_id id) = some addressee_id
recipient (AppEvent.friend_request_accepted requester_id addressee_id id) = some requester_id
recipient (AppEvent.level_up user_id previous new) = some user_id
recipient (AppEvent.business_quest_approved user_id quest_id) = some user_id
recipient _ = none

all_read :
    (user_id now : ℕ)
    → ◌≡◌ {A = ℕ → Notification → ℕ}
        (λ k n. one_unread user_id k (change (unread_of user_id) (read_now now) k n))
        (λ k n. 0)
all_read user_id now = fun_ext λ k.
    fun_ext
      λ n. elim (Bool-cases (unread_of user_id k n)) [ inl e ↦ ground arith | inr e ↦ ground arith ]

others_stay :
    (other user_id now : ℕ)
    → other ≢ user_id
    → ◌≡◌ {A = ℕ → Notification → ℕ}
        (λ k n. one_unread other k (change (unread_of user_id) (read_now now) k n))
        (one_unread other)
others_stay other user_id now apart = fun_ext λ k.
    fun_ext
      λ n. elim (Bool-cases (unread_of user_id k n)) [ inl e ↦ ground arith | inr e ↦ ground arith ]

module _ {F : Type 0} (db : Database F) where
  -- The world with one notification more.
  abbrev with_notification : ℕ → Notification → World db → World db
  with_notification id n w = record w { notifications = db.notification.save id n w.notifications }

  -- What a listener does, by the recipient.
  Delivers : AppEvent → ℕ → ℕ → World db → Option ℕ → Type 0
  Delivers event new_id now w none = notify db event new_id now w ≡ (ok tt, w)
  Delivers event new_id now w (some user_id) =
      (n : Notification) × (n.user_id ≡ user_id)
      × (n.read_at ≡ none)
      × (notify db event new_id now w ≡ elim (db.user.find user_id w.users) [
        | none ↦ (ok tt, w)
        | some _ ↦ (ok tt, with_notification new_id n w)
      ])

  sends :
      (new_id now : ℕ) (input : NotificationInput) (w : World db)
      → ◌≡◌ {A = Result (Unit {0}) × World db}
          (ok tt, (send db new_id input now w).1)
          (elim (db.user.find input.user_id w.users) [
            | none ↦ (ok tt, w)
            | some _ ↦ (ok tt, with_notification new_id (created_notification input now) w)
          ])
  unfolding send
  sends new_id now input w = elim (Option-cases (db.user.find input.user_id w.users)) [
    | inl missing ↦ ground arith
    | inr (u, found) ↦ ground arith
  ]

  notify-Delivers :
      (event : AppEvent) (new_id now : ℕ) (w : World db)
      → Delivers event new_id now w (recipient event)
  unfolding notify Delivers
  notify-Delivers (AppEvent.quest_completed user_id quest_id xp at) new_id now w =
      (created_notification _ now, refl, refl, sends new_id now _ w)
  notify-Delivers (AppEvent.achievement_unlocked user_id id slug) new_id now w =
      (created_notification _ now, refl, refl, sends new_id now _ w)
  notify-Delivers (AppEvent.friend_request_sent from to id) new_id now w =
      (created_notification _ now, refl, refl, sends new_id now _ w)
  notify-Delivers (AppEvent.friend_request_accepted from to id) new_id now w =
      (created_notification _ now, refl, refl, sends new_id now _ w)
  notify-Delivers (AppEvent.level_up user_id before after) new_id now w =
      (created_notification _ now, refl, refl, sends new_id now _ w)
  notify-Delivers (AppEvent.business_quest_approved user_id quest_id) new_id now w =
      (created_notification _ now, refl, refl, sends new_id now _ w)
  notify-Delivers (AppEvent.user_registered u e n) new_id now w = refl
  notify-Delivers (AppEvent.quest_started u q) new_id now w = refl
  notify-Delivers (AppEvent.quest_location_checked_in u q l) new_id now w = refl

  unread_after :
      (new_id user_id who : ℕ) (n : Notification) (w : World db)
      → db.notification.find new_id w.notifications ≡ none
      → n.user_id ≡ user_id
      → n.read_at ≡ none
      → count_unread db who (with_notification new_id n w)
        ≡ count_unread db who w + (if user_id == who then 1 else 0)
  unfolding count_unread
  unread_after new_id user_id who n w fresh own unread =
      ground (arith, db.notification.total-save (one_unread who) new_id n w.notifications, fresh)

  -- An event about something that a user is told adds, where that user exists and under a fresh
  -- identifier, one unread notification for that user: the count of the user's unread notifications
  -- grows by one, every other user's stays, and so do the other notifications.
  pub notify_lem :
      (event : AppEvent) (new_id now user_id : ℕ) (w : World db) {u : User}
      → recipient event ≡ some user_id
      → db.user.find user_id w.users ≡ some u
      → db.notification.find new_id w.notifications ≡ none
      → let (r, w') = notify db event new_id now w in
        (r ≡ ok tt)
        × (count_unread db user_id w' ≡ count_unread db user_id w + 1)
        × ((other : ℕ) → other ≢ user_id → count_unread db other w' ≡ count_unread db other w)
        × ((id : ℕ)
            → id ≢ new_id
            → db.notification.find id w'.notifications ≡ db.notification.find id w.notifications)
  unfolding count_unread Delivers
  notify_lem event new_id now user_id w told found fresh =
      let (n, own, unread, e) =
        subst (Delivers event new_id now w) told (notify-Delivers event new_id now w) in
      let sent : notify db event new_id now w ≡ (ok tt, with_notification new_id n w) =
        ground (arith, e, found) in
      rw sent (
        refl,
        unread_after new_id user_id user_id n w fresh own unread ∙ ground (arith),
        λ other apart.
            unread_after new_id user_id other n w fresh own unread ∙ ground (arith, apart),
        λ id apart. find-save_ne db.notification id new_id n w.notifications apart,
      )

  -- An event whose recipient does not exist, or that has none, is passed over: the listener returns,
  -- and nothing changes.
  pub notify_nobody :
      (event : AppEvent) (new_id now : ℕ) (w : World db)
      → ((user_id : ℕ) → recipient event ≡ some user_id → db.user.find user_id w.users ≡ none)
      → notify db event new_id now w ≡ (ok tt, w)
  unfolding Delivers
  notify_nobody event new_id now w nobody =
      go (recipient event) (notify-Delivers event new_id now w) nobody
    where
      go :
          (told : Option ℕ)
          → Delivers event new_id now w told
          → ((user_id : ℕ) → told ≡ some user_id → db.user.find user_id w.users ≡ none)
          → notify db event new_id now w ≡ (ok tt, w)
      go none passed missing = passed
      go (some user_id) (n, own, unread, e) missing = ground (arith, e, missing user_id refl)

  -- Marking all as read leaves a user no unread notification, and every other user as many as
  -- before.
  pub mark_all_read_lem :
      (user_id now : ℕ) (w : World db)
      → let w' = (mark_all_read db user_id now w).1 in
        (count_unread db user_id w' ≡ 0)
        × ((other : ℕ) → other ≢ user_id → count_unread db other w' ≡ count_unread db other w)
  unfolding mark_all_read count_unread
  mark_all_read_lem user_id now w = (
    counted user_id ∙ ap total (all_read user_id now) ∙ db.notification.total_zero w.notifications,
    λ other apart. counted other ∙ ap total (others_stay other user_id now apart),
  )
    where
      total : (ℕ → Notification → ℕ) → ℕ
      total f = db.notification.total f w.notifications

      counted :
          (who : ℕ)
          → db.notification.total
              (one_unread who)
              (db.notification.update_many (unread_of user_id) (read_now now) w.notifications)
            ≡ db.notification.total
                (λ k n. one_unread who k (change (unread_of user_id) (read_now now) k n))
                w.notifications
      counted who =
          db.notification.total-update_many (one_unread who) (unread_of user_id) (read_now now)
            w.notifications
