-- ===== src/Friendships.antt =====
-- Friend requests and blocks: `request`, `accept`, `block` and `remove` of
-- src/modules/friendships/friendships.service.ts, over
-- src/modules/friendships/friendships.repository.ts.
-- `new_id` is the identifier that the database gives a new row, and `now` the request's time.
pub mod Pairs
pub mod Answers
pub mod Feed
pub mod Lists
use Prim.Native.String.{String}
use sidequest_demo_be.Common.{
  ℕ, Bool, true, false, not, ◌&&◌, ◌||◌, Option, none, some, ◌==◌, if◌then◌else◌,
}
use sidequest_demo_be.Effects.{
  Action, Exception, known_request, ok, err, bad_request, conflict, forbidden, not_found,
  unique_violation, foreign_key_violation, record_not_found, pure, gets, throw, or_throw, throw_if,
  modify, ◌>>=◌, ◌>>◌,
}
use sidequest_demo_be.Events.{friend_request_sent, friend_request_accepted}
use sidequest_demo_be.Model.{Friendship, FriendshipStatus, pending, accepted, blocked}
use sidequest_demo_be.World.{Database, World, emit, find_friendship}

pub record FriendshipDto : Type 0 where
  pub id : ℕ
  pub requester_id : ℕ
  pub addressee_id : ℕ
  pub status : FriendshipStatus
  pub responded_at : Option ℕ
  pub created_at : ℕ

unfoldable pub from_entity : ℕ → Friendship → FriendshipDto
from_entity id f = record {
  id = id;
  requester_id = f.requester_id;
  addressee_id = f.addressee_id;
  status = f.status;
  responded_at = f.responded_at;
  created_at = f.created_at;
}

-- the `OR` of `findBetween`
abbrev pub is_between : ℕ → ℕ → ℕ → Friendship → Bool
is_between a b id f =
    f.requester_id == a && f.addressee_id == b || f.requester_id == b && f.addressee_id == a

abbrev pub is_from_to : ℕ → ℕ → ℕ → Friendship → Bool
is_from_to a b id f = f.requester_id == a && f.addressee_id == b

abbrev pub is_pending : FriendshipStatus → Bool
is_pending pending = true
is_pending _ = false

abbrev pub new_friendship : ℕ → ℕ → ℕ → Friendship
new_friendship requester_id addressee_id now = record {
  requester_id = requester_id;
  addressee_id = addressee_id;
  status = pending;
  responded_at = none;
  created_at = now;
}

abbrev pub with_status : FriendshipStatus → ℕ → Friendship → Friendship
with_status status now f = record f { status = status; responded_at = some now }

module _ {F : Type 0} (db : Database F) where
  abbrev pub find_between : ℕ → ℕ → Action (World db) (Option (ℕ × Friendship))
  find_between a b = gets (λ w. db.friendship.find_first (is_between a b) w.friendships)

  abbrev pub save_friendship : ℕ → Friendship → World db → World db
  save_friendship id f w = record w { friendships = db.friendship.save id f w.friendships }

  -- `create`, under `@@unique([requesterId, addresseeId])` and the two foreign keys
  unfoldable pub create_friendship : ℕ → ℕ → ℕ → ℕ → Action (World db) Friendship
  create_friendship new_id requester_id addressee_id now = do
    repeated ←
        gets (λ w. db.friendship.find_first (is_from_to requester_id addressee_id) w.friendships)
    elim repeated [
      | some _ ↦ throw unique_violation
      | none ↦ (do
        requester ← gets (λ w. db.user.find requester_id w.users)
        or_throw requester foreign_key_violation
        addressee ← gets (λ w. db.user.find addressee_id w.users)
        or_throw addressee foreign_key_violation
        modify (save_friendship new_id (new_friendship requester_id addressee_id now))
        pure (new_friendship requester_id addressee_id now))
    ]

  -- `updateStatus`
  unfoldable pub update_status : ℕ → FriendshipStatus → ℕ → Action (World db) Friendship
  update_status id status now w = elim (db.friendship.find id w.friendships) [
    | none ↦ (err record_not_found, w)
    | some f ↦ (ok (with_status status now f), save_friendship id (with_status status now f) w)
  ]

  unfoldable pub request : ℕ → ℕ → ℕ → ℕ → Action (World db) FriendshipDto
  request new_id requester_id addressee_id now = do
    throw_if (requester_id == addressee_id) (bad_request "Cannot send a friend request to yourself")
    existing ← find_between requester_id addressee_id
    elim existing [
      | some _ ↦ throw (conflict "Friendship already exists")
      | none ↦ (do
        created ← create_friendship new_id requester_id addressee_id now
        emit db (friend_request_sent requester_id addressee_id new_id)
        pure (from_entity new_id created))
    ]

  unfoldable pub accept : ℕ → ℕ → ℕ → Action (World db) FriendshipDto
  accept user_id friendship_id now = do
    row ← find_friendship db friendship_id
    f ← or_throw row (not_found "Friendship not found")
    throw_if (not (f.addressee_id == user_id)) (forbidden "Only the addressee can accept")
    throw_if (not (is_pending f.status)) (bad_request "Friendship is not pending")
    updated ← update_status friendship_id accepted now
    emit db (friend_request_accepted f.requester_id f.addressee_id friendship_id)
    pure (from_entity friendship_id updated)

  unfoldable pub block : ℕ → ℕ → ℕ → ℕ → Action (World db) FriendshipDto
  block new_id user_id other_user_id now = do
    existing ← find_between user_id other_user_id
    elim existing [
      | some (id, _) ↦ (do updated ← update_status id blocked now; pure (from_entity id updated))
      | none ↦ (do
        create_friendship new_id user_id other_user_id now
        updated ← update_status new_id blocked now
        pure (from_entity new_id updated))
    ]

  unfoldable pub remove : ℕ → ℕ → Action (World db) (Unit {0})
  remove user_id friendship_id = do
    row ← find_friendship db friendship_id
    f ← or_throw row (not_found "Friendship not found")
    throw_if (not (f.requester_id == user_id) && not (f.addressee_id == user_id))
        (forbidden "Not allowed")
    modify (λ w. record w { friendships = db.friendship.remove friendship_id w.friendships })
