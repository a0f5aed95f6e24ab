-- ===== src/Requests/Elsewhere.antt =====
-- The requests that write no user: src/modules/friendships/friendships.service.ts, and the start of a
-- quest, ratings, invitations and notifications.
use sidequest_demo_be.Common.{ℕ, ◌≡◌, refl, arith}
use sidequest_demo_be.Common.Text.{Text}
use sidequest_demo_be.Geo.{Float}
use sidequest_demo_be.Links.{TextMethods}
use sidequest_demo_be.Effects.{Action, Result, ok, err, settle, Transactions}
use sidequest_demo_be.World.{Database, World}
use sidequest_demo_be.Quests.Completion.{start, start_completion}
use sidequest_demo_be.Quests.Ratings.{RateQuestDto, rate_tx, unrate_tx, rate, unrate}
use sidequest_demo_be.Quests.Editing.{Actor, CreateQuestDto, UpdateQuestDto, create, update, delete}
use sidequest_demo_be.Friendships
use sidequest_demo_be.Invites
use sidequest_demo_be.Notifications
use sidequest_demo_be.Events.{AppEvent}
use sidequest_demo_be.Businesses
use sidequest_demo_be.Businesses.{CreateBusinessDto}

module _ {F : Type 0} (db : Database F) where
  pub request_users :
      (id a b now : ℕ) (w : World db) → (Friendships.request db id a b now w).1.users ≡ w.users
  unfolding Friendships.request Friendships.create_friendship Friendships.update_status
  request_users id a b now w = grind arith

  pub accept_users :
      (a id now : ℕ) (w : World db) → (Friendships.accept db a id now w).1.users ≡ w.users
  unfolding Friendships.accept Friendships.create_friendship Friendships.update_status
  accept_users a id now w = grind arith

  pub block_users :
      (id a b now : ℕ) (w : World db) → (Friendships.block db id a b now w).1.users ≡ w.users
  unfolding Friendships.block Friendships.create_friendship Friendships.update_status
  block_users id a b now w = grind arith

  pub remove_users : (a id : ℕ) (w : World db) → (Friendships.remove db a id w).1.users ≡ w.users
  unfolding Friendships.remove
  remove_users a id w = grind arith

  pub mark_read_users :
      (a id now : ℕ) (w : World db) → (Notifications.mark_read db a id now w).1.users ≡ w.users
  unfolding Notifications.mark_read
  mark_read_users a id now w = grind arith

  pub mark_all_read_users :
      (a now : ℕ) (w : World db) → (Notifications.mark_all_read db a now w).1.users ≡ w.users
  unfolding Notifications.mark_all_read
  mark_all_read_users a now w = grind arith

  pub create_business_users :
      (id owner : ℕ) (dto : CreateBusinessDto F) (now : ℕ) (w : World db)
      → (Businesses.create db id owner dto now w).1.users ≡ w.users
  unfolding Businesses.create
  create_business_users id owner dto now w = grind arith

  pub start_onboarding_users :
      (owner now : ℕ) (w : World db)
      → (Businesses.start_onboarding db owner now w).1.users ≡ w.users
  unfolding Businesses.start_onboarding Businesses.require_owned_business
  start_onboarding_users owner now w = grind arith

  pub notify_users :
      (e : AppEvent) (id now : ℕ) (w : World db)
      → (Notifications.notify db e id now w).1.users ≡ w.users
  unfolding Notifications.notify Notifications.send
  notify_users e id now w = grind arith

  module _ (methods : TextMethods) where
    pub cancel_users :
        (a id : ℕ) (w : World db) → (Invites.cancel db methods a id w).1.users ≡ w.users
    unfolding Invites.cancel
    cancel_users a id w = grind arith

    pub create_invite_users :
        (frontend : Text) (id : ℕ) (token : Text) (a : ℕ) (email : Text) (now : ℕ) (w : World db)
        → (Invites.create_invite db methods frontend id token a email now w).1.users ≡ w.users
    unfolding Invites.create_invite
    create_invite_users frontend id token a email now w = grind arith

module _ (fl : Float) (db : Database fl.F) where
  pub start_users :
      (a quest_id now : ℕ) (w : World db) → (start fl db a quest_id now w).1.users ≡ w.users
  unfolding start start_completion
  start_users a quest_id now w = grind arith

  pub create_users :
      (id : ℕ) (location_ids : ℕ → ℕ) (author : ℕ) (dto : CreateQuestDto fl.F) (now : ℕ)
      (w : World db)
      → (create fl db id location_ids author dto now w).1.users ≡ w.users
  unfolding create
  create_users id location_ids author dto now w = grind arith

  pub update_users :
      (actor : Actor) (quest_id : ℕ) (dto : UpdateQuestDto) (now : ℕ) (w : World db)
      → (update fl db actor quest_id dto now w).1.users ≡ w.users
  unfolding update
  update_users actor quest_id dto now w = grind arith

  pub delete_users :
      (actor : Actor) (quest_id : ℕ) (w : World db)
      → (delete fl db actor quest_id w).1.users ≡ w.users
  unfolding delete
  delete_users actor quest_id w = grind arith

  rate_tx_users :
      (a quest_id : ℕ) (dto : RateQuestDto) (now : ℕ) (w : World db)
      → (rate_tx fl db a quest_id dto now w).1.users ≡ w.users
  unfolding rate_tx
  rate_tx_users a quest_id dto now w = grind arith

  unrate_tx_users :
      (a quest_id : ℕ) (w : World db) → (unrate_tx fl db a quest_id w).1.users ≡ w.users
  unfolding unrate_tx
  unrate_tx_users a quest_id w = grind arith

  module _ (tx : Transactions (World db)) where
    settled_users :
        (m : Action (World db) (Unit {0})) (w : World db)
        → (m w).1.users ≡ w.users
        → (tx.transaction (Unit {0}) m w).1.users ≡ w.users
    settled_users m w same = rw (tx.transaction_lem (Unit {0}) m w) (go (m w) same)
      where
        go :
            (r : Result (Unit {0}) × World db)
            → r.1.users ≡ w.users
            → (settle w r).1.users ≡ w.users
        go (ok a, v) e = e
        go (err x, v) e = refl

    pub rate_users :
        (a quest_id : ℕ) (dto : RateQuestDto) (now : ℕ) (w : World db)
        → (rate fl db tx a quest_id dto now w).1.users ≡ w.users
    unfolding rate
    rate_users a quest_id dto now w = grind (
      arith,
      settled_users (rate_tx fl db a quest_id dto now) w (rate_tx_users a quest_id dto now w),
    )

    pub unrate_users :
        (a quest_id : ℕ) (w : World db) → (unrate fl db tx a quest_id w).1.users ≡ w.users
    unfolding unrate
    unrate_users a quest_id w =
        grind (arith, settled_users (unrate_tx fl db a quest_id) w (unrate_tx_users a quest_id w))
