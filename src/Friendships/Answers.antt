-- ===== src/Friendships/Answers.antt =====
-- Answers to friend requests, and what a block is worth:
-- src/modules/friendships/friendships.service.ts.
use sidequest_demo_be.Common.{
  ℕ, ◌≡◌, ◌≢◌, refl, Bool, true, [], ◌∷◌, ◌++◌, none, some, arith, ◌==◌, inl, inr, Option-cases,
  Bool-cases,
}
use sidequest_demo_be.Effects.{Exception, ok, err, conflict, not_found, bad_request, forbidden}
use sidequest_demo_be.Events.{friend_request_accepted, friend_request_sent}
use sidequest_demo_be.Store.{find-save_self}
use sidequest_demo_be.Model.{User, Friendship, pending, accepted, blocked}
use sidequest_demo_be.World.{Database, World}
use sidequest_demo_be.Friendships.{
  from_entity, is_between, is_from_to, new_friendship, with_status, create_friendship,
  update_status, request, accept, remove, save_friendship,
}
use sidequest_demo_be.Friendships.Pairs.{PairsUnique, same_pair}

module _ {F : Type 0} (db : Database F) where
  -- The addressee of a pending request accepts it: the row becomes accepted, answered at `now`, and
  -- the requester is told by one event.
  pub accept_ok :
      (user_id id now : ℕ) (w : World db) {f : Friendship}
      → db.friendship.find id w.friendships ≡ some f
      → f.addressee_id ≡ user_id
      → f.status ≡ pending
      → let (r, w') = accept db user_id id now w in
        (r ≡ ok (from_entity id (with_status accepted now f)))
        × (db.friendship.find id w'.friendships ≡ some (with_status accepted now f))
        × (w'.emitted ≡ w.emitted ++ friend_request_accepted f.requester_id user_id id ∷ [])
  unfolding accept update_status
  accept_ok user_id id now w {f} found mine open_row =
      rw (e) (refl, find-save_self db.friendship id _ w.friendships, rw mine)
    where
      e : accept db user_id id now w ≡ (
        ok (from_entity id (with_status accepted now f)),
        record (save_friendship db id (with_status accepted now f) w) {
          emitted = w.emitted ++ friend_request_accepted f.requester_id f.addressee_id id ∷ [];
        },
      )
      e = ground arith

  -- Every other acceptance is refused and changes nothing: of no row, by anyone but the addressee,
  -- or of a request that was answered or blocked already.
  pub accept_refused :
      (user_id id now : ℕ) (w : World db)
      → ((f : Friendship)
          → db.friendship.find id w.friendships ≡ some f
          → f.addressee_id ≡ user_id
          → f.status ≢ pending)
      → (e : Exception) × (accept db user_id id now w ≡ (err e, w))
  unfolding accept
  accept_refused user_id id now w never =
      elim (Option-cases (db.friendship.find id w.friendships)) [
        | inl missing ↦ (not_found "Friendship not found", ground arith)
        | inr (f, found) ↦ elim (Bool-cases (f.addressee_id == user_id)) [
          | inl mine ↦ (bad_request "Friendship is not pending", ground (arith, never f))
          | inr other ↦ (forbidden "Only the addressee can accept", ground arith)
        ]
      ]

  -- While two users share a row, pending, accepted or blocked, neither can send the other a
  -- request: it is answered by a conflict and changes nothing.
  pub request-conflict :
      (new_id a b now : ℕ) (w : World db) {id : ℕ} {f : Friendship}
      → a ≢ b
      → db.friendship.find id w.friendships ≡ some f
      → is_between a b id f ≡ true
      → request db new_id a b now w ≡ (err (conflict "Friendship already exists"), w)
  unfolding request
  request-conflict new_id a b now w {id} {f} apart found between =
      elim (Option-cases (db.friendship.find_first (is_between a b) w.friendships)) [
        | inl free ↦ cc (
          db.friendship.find_first_complete (is_between a b) w.friendships id f free found,
          between,
        )
        | inr ((k, g), there) ↦ ground arith
      ]

  -- Once the one row of a pair is removed, no search finds a row of that pair.
  gone :
      (p : ℕ → Friendship → Bool) (id : ℕ) (f : Friendship) (rows : db.friendship.State)
      → PairsUnique db rows
      → db.friendship.find id rows ≡ some f
      → ((k : ℕ) (g : Friendship) → p k g ≡ true → same_pair g f ≡ true)
      → db.friendship.find_first p (db.friendship.remove id rows) ≡ none
  gone p id f rows unique found joins =
      elim (Option-cases (db.friendship.find_first p (db.friendship.remove id rows))) [
        | inl e ↦ e
        | inr ((k, g), there) ↦
            let (holds, at) =
              db.friendship.find_first_sound p (db.friendship.remove id rows) k g there in
            ground
              (arith, at, db.friendship.find-remove k id rows, unique k id g f, joins k g holds)
      ]

  -- A block binds only while the blocked user leaves it: the user who was blocked can remove the
  -- row, and then send the blocker a new request, which is pending again.
  pub block_undone :
      (id new_id a b now : ℕ) (w : World db) {f : Friendship} {u v : User}
      → PairsUnique db w.friendships
      → db.friendship.find id w.friendships ≡ some f
      → f.status ≡ blocked
      → f.requester_id ≡ a
      → f.addressee_id ≡ b
      → a ≢ b
      → db.user.find a w.users ≡ some u
      → db.user.find b w.users ≡ some v
      → let (r, w₁) = remove db b id w in
        let (r', w₂) = request db new_id b a now w₁ in
        (r ≡ ok tt)
        × (r' ≡ ok (from_entity new_id (new_friendship b a now)))
        × (db.friendship.find new_id w₂.friendships ≡ some (new_friendship b a now))
  block_undone id new_id a b now w {f} unique found is_blocked from to apart fu fv =
      rw (removed, ask) (refl, refl, find-save_self db.friendship new_id _ _)
    where
      rest : db.friendship.State
      rest = db.friendship.remove id w.friendships

      removed : remove db b id w ≡ (ok tt, record w { friendships = rest })
      removed = unfold remove in ground arith

      no_row : db.friendship.find_first (is_between b a) rest ≡ none
      no_row = gone (is_between b a) id f w.friendships unique found (λ k g h. ground arith)

      no_copy : db.friendship.find_first (is_from_to b a) rest ≡ none
      no_copy = gone (is_from_to b a) id f w.friendships unique found (λ k g h. ground arith)

      ask : request db new_id b a now (record w { friendships = rest }) ≡ (
        ok (from_entity new_id (new_friendship b a now)),
        record (save_friendship db new_id
            (new_friendship b a now)
            (record w { friendships = rest })) {
              emitted = w.emitted ++ friend_request_sent b a new_id ∷ [];
            },
      )
      ask = unfold request create_friendship in ground (arith, no_row, no_copy)
