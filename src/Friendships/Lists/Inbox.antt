-- ===== src/Friendships/Lists/Inbox.antt =====
-- A request in the lists of both users, before and after its acceptance:
-- src/modules/friendships/friendships.service.ts.
use sidequest_demo_be.Common.{
  ℕ, ◌≡◌, refl, ◌∙◌, ap, Bool, true, false, ◌||◌, some, List, [], ◌∷◌, arith, any, ◌==◌, All-imp,
  any-map, any_none, Bool-cases, inl, inr,
}
use sidequest_demo_be.Common.Sorting.{any_order}
use sidequest_demo_be.Store.{find_many_complete}
use sidequest_demo_be.Model.{Friendship, pending, accepted}
use sidequest_demo_be.World.{Database, World}
use sidequest_demo_be.Friendships.{accept}
use sidequest_demo_be.Friendships.Answers.{accept_ok}
use sidequest_demo_be.Friendships.Lists.{
  PendingFriendshipDto, is_friendship_of, is_incoming, newest, other_of, add_id, friend_ids,
  accepted_friend_ids, pending_dto, list_pending_incoming,
}

any-add_id :
    (x y : ℕ) (ids : List ℕ) → any (λ i. i == y) (add_id x ids) ≡ (x == y || any (λ i. i == y) ids)
any-add_id x y ids = elim (Bool-cases (any (λ i. i == x) ids)) [
  | inl there ↦ rw there (elim (Bool-cases (x == y)) [
    | inl same ↦ let e : y ≡ x = ground arith in rw same (rw e there)
    | inr other ↦ rw other refl
  ])
  | inr missing ↦ rw missing refl
]

-- A user is among the identifiers where some row leads there.
any-friend_ids :
    (user_id y : ℕ) (rows : List (ℕ × Friendship))
    → any (λ i. i == y) (friend_ids user_id rows) ≡ any (λ e. other_of user_id e.1 == y) rows
unfolding friend_ids
any-friend_ids user_id y [] = refl
any-friend_ids user_id y ((id, f) ∷ rest) =
    any-add_id (other_of user_id f) y (friend_ids user_id rest)
    ∙ ap (λ (b : Bool). other_of user_id f == y || b) (any-friend_ids user_id y rest)

module _ {F : Type 0} (db : Database F) where
  abbrev pub shows_request : ℕ → List PendingFriendshipDto → Bool
  shows_request id = any (λ p. p.id == id)

  abbrev pub is_friend_id : ℕ → List ℕ → Bool
  is_friend_id y = any (λ i. i == y)

  module _ (w : World db) (id : ℕ) {f : Friendship}
      (found : db.friendship.find id w.friendships ≡ some f) where
    incoming_shown :
        f.status ≡ pending → shows_request id (list_pending_incoming db f.addressee_id w) ≡ true
    unfolding list_pending_incoming
    incoming_shown open_row =
        any-map (pending_dto db w) (λ p. p.id == id)
          (db.friendship.find_many (is_incoming f.addressee_id) newest w.friendships)
        ∙ find_many_complete db.friendship (is_incoming f.addressee_id) newest (λ e. e.0 == id) id f
            w.friendships found (ground arith) (ground arith)

    answered_gone :
        (user_id : ℕ)
        → f.status ≡ accepted
        → shows_request id (list_pending_incoming db user_id w) ≡ false
    unfolding list_pending_incoming
    answered_gone user_id answered =
        let p = is_incoming user_id in
        let rows = db.friendship.find_many p newest w.friendships in
        any-map (pending_dto db w) (λ q. q.id == id) rows
        ∙ any_none (λ e. e.0 == id) rows
            (All-imp (λ e. (p e.0 e.1 ≡ true) × (db.friendship.find e.0 w.friendships ≡ some e.1))
              (λ e (incoming, there). other_row user_id answered e.0 e.1 incoming there) rows
              (db.friendship.find_many_sound p newest w.friendships))
      where
        other_row :
            (user_id : ℕ)
            → f.status ≡ accepted
            → (k : ℕ) (g : Friendship) → is_incoming user_id k g ≡ true
            → db.friendship.find k w.friendships ≡ some g
            → (k == id) ≡ false
        other_row user_id answered k g incoming there = ground arith

    friend_shown :
        (user_id y : ℕ)
        → is_friendship_of user_id id f ≡ true
        → (other_of user_id f == y) ≡ true
        → is_friend_id y (accepted_friend_ids db user_id w) ≡ true
    friend_shown user_id y joins leads =
        any-friend_ids user_id y
          (db.friendship.find_many (is_friendship_of user_id) any_order w.friendships)
        ∙ find_many_complete db.friendship (is_friendship_of user_id) any_order
            (λ e. other_of user_id e.1 == y) id f w.friendships found joins leads

  -- A pending request stands in the addressee's list of requests; once the addressee has accepted
  -- it, it is gone from there, and each of the two is among the other's friends.
  pub accept-lists :
      (user_id id now : ℕ) (w : World db) {f : Friendship}
      → db.friendship.find id w.friendships ≡ some f
      → f.addressee_id ≡ user_id
      → f.status ≡ pending
      → let w' = (accept db user_id id now w).1 in
        (shows_request id (list_pending_incoming db user_id w) ≡ true)
        × (shows_request id (list_pending_incoming db user_id w') ≡ false)
        × (is_friend_id f.requester_id (accepted_friend_ids db user_id w') ≡ true)
        × (is_friend_id user_id (accepted_friend_ids db f.requester_id w') ≡ true)
  accept-lists user_id id now w {f} found mine open_row =
      let after = (accept_ok db user_id id now w found mine open_row).1 in
      let w' = (accept db user_id id now w).1 in
      (
        rw⁻¹ mine (incoming_shown w id found open_row),
        answered_gone w' id after user_id refl,
        friend_shown w' id after user_id f.requester_id (ground arith) (ground arith),
        friend_shown w' id after f.requester_id user_id (ground arith) (ground arith),
      )
