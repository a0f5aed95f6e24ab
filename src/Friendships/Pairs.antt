-- ===== src/Friendships/Pairs.antt =====
-- Two users share at most one friendship row, whatever requests are made:
-- src/modules/friendships/friendships.service.ts.
use sidequest_demo_be.Common.{
  ℕ, ◌≡◌, ◌≢◌, Bool, true, false, none, some, arith, ◌⊎◌, inl, inr, Option-cases,
}
use sidequest_demo_be.Model.{Friendship, FriendshipStatus, accepted, blocked}
use sidequest_demo_be.World.{Database, World}
use sidequest_demo_be.Friendships
use sidequest_demo_be.Friendships.{
  is_between, is_from_to, new_friendship, with_status, create_friendship, update_status,
}

-- Both rows join the same two users, in either direction.
abbrev pub same_pair : Friendship → Friendship → Bool
same_pair f g = is_between g.requester_id g.addressee_id 0 f

module _ {F : Type 0} (db : Database F) where
  abbrev pub PairsUnique : db.friendship.State → Type 0
  PairsUnique rows =
      (i j : ℕ) (f g : Friendship)
      → db.friendship.find i rows ≡ some f
      → db.friendship.find j rows ≡ some g
      → same_pair f g ≡ true
      → i ≡ j

  save-PairsUnique :
      (id : ℕ) (new : Friendship) (rows : db.friendship.State)
      → ((k : ℕ) (g : Friendship)
          → db.friendship.find k rows ≡ some g
          → k ≢ id
          → same_pair g new ≡ false)
      → PairsUnique rows
      → PairsUnique (db.friendship.save id new rows)
  save-PairsUnique id new rows apart unique i j f g fi fj same = ground (
    arith,
    db.friendship.find-save i id new rows,
    db.friendship.find-save j id new rows,
    apart i f,
    apart j g,
    unique i j f g,
  )

  -- A change of status leaves the pair of the row.
  with_status-PairsUnique :
      (id : ℕ) (f : Friendship) (status : FriendshipStatus) (now : ℕ) (rows : db.friendship.State)
      → db.friendship.find id rows ≡ some f
      → PairsUnique rows
      → PairsUnique (db.friendship.save id (with_status status now f) rows)
  with_status-PairsUnique id f status now rows found unique =
      save-PairsUnique id (with_status status now f) rows
        (λ k g at ne. ground (arith, unique k id g f at found)) unique

  update_status-PairsUnique :
      (id : ℕ) (status : FriendshipStatus) (now : ℕ) (w : World db)
      → PairsUnique w.friendships
      → PairsUnique (update_status db id status now w).1.friendships
  unfolding update_status
  update_status-PairsUnique id status now w unique =
      elim (Option-cases (db.friendship.find id w.friendships)) [
        | inl missing ↦ rw (missing, update_status) unique
        | inr (f, found) ↦
            rw (found, update_status)
              (with_status-PairsUnique id f status now w.friendships found unique)
      ]

  create_cases :
      (id a b now : ℕ) (w : World db)
      → let after = (create_friendship db id a b now w).1.friendships in
        (after ≡ w.friendships)
        ⊎ (after ≡ db.friendship.save id (new_friendship a b now) w.friendships)
  unfolding create_friendship
  create_cases id a b now w = grind arith

  create-PairsUnique :
      (id a b now : ℕ) (w : World db)
      → db.friendship.find_first (is_between a b) w.friendships ≡ none
      → PairsUnique w.friendships
      → PairsUnique (create_friendship db id a b now w).1.friendships
  create-PairsUnique id a b now w free unique = elim (create_cases id a b now w) [
    | inl e ↦ rw e unique
    | inr e ↦ rw e (
        save-PairsUnique id (new_friendship a b now) w.friendships
          (λ k g at ne.
            ground
              (arith, db.friendship.find_first_complete (is_between a b) w.friendships k g free at))
          unique)
  ]

  request_cases :
      (id a b now : ℕ) (w : World db)
      → let after = (Friendships.request db id a b now w).1.friendships in
        (after ≡ w.friendships)
        ⊎ ((db.friendship.find_first (is_between a b) w.friendships ≡ none)
            × (after ≡ (create_friendship db id a b now w).1.friendships))
  unfolding Friendships.request
  request_cases id a b now w = grind arith

  accept_cases :
      (user_id id now : ℕ) (w : World db)
      → let after = (Friendships.accept db user_id id now w).1.friendships in
        (after ≡ w.friendships) ⊎ (after ≡ (update_status db id accepted now w).1.friendships)
  unfolding Friendships.accept
  accept_cases user_id id now w = grind arith

  -- Blocking changes the status of a row that is there, or of the row that it creates.
  block_cases :
      (id a b now : ℕ) (w : World db)
      → let after = (Friendships.block db id a b now w).1.friendships in
        let created = (create_friendship db id a b now w).1 in
        ((k : ℕ) × (after ≡ (update_status db k blocked now w).1.friendships))
        ⊎ ((db.friendship.find_first (is_between a b) w.friendships ≡ none)
            × ((after ≡ created.friendships)
                ⊎ (after ≡ (update_status db id blocked now created).1.friendships)))
  unfolding Friendships.block
  block_cases id a b now w =
      elim (Option-cases (db.friendship.find_first (is_between a b) w.friendships)) [
        | inl free ↦ inr (free, ground arith)
        | inr ((k, f), found) ↦ inl (k, ground arith)
      ]

  remove_cases :
      (user_id id : ℕ) (w : World db)
      → let after = (Friendships.remove db user_id id w).1.friendships in
        (after ≡ w.friendships) ⊎ (after ≡ db.friendship.remove id w.friendships)
  unfolding Friendships.remove
  remove_cases user_id id w = grind arith

  remove-PairsUnique :
      (id : ℕ) (rows : db.friendship.State)
      → PairsUnique rows
      → PairsUnique (db.friendship.remove id rows)
  remove-PairsUnique id rows unique i j f g fi fj same = ground (
    arith,
    db.friendship.find-remove i id rows,
    db.friendship.find-remove j id rows,
    unique i j f g,
  )

-- What a client can ask of the friendships, with the identifier of a new row and the time.
pub data Request : Type 0 where
  request accept block : (new_id user_id other now : ℕ) → Request
  remove : (user_id friendship_id : ℕ) → Request

module _ {F : Type 0} (db : Database F) where
  -- The world after a request, whatever its answer.
  abbrev pub after : Request → World db → World db
  after (Request.request id a b now) w = (Friendships.request db id a b now w).1
  after (Request.accept id user_id friendship_id now) w =
      (Friendships.accept db user_id friendship_id now w).1
  after (Request.block id a b now) w = (Friendships.block db id a b now w).1
  after (Request.remove user_id friendship_id) w = (Friendships.remove db user_id friendship_id w).1

  after-PairsUnique :
      (r : Request) (w : World db)
      → PairsUnique db w.friendships
      → PairsUnique db (after r w).friendships
  after-PairsUnique (Request.request id a b now) w unique = elim (request_cases db id a b now w) [
    | inl e ↦ rw e unique
    | inr (free, e) ↦ rw e (create-PairsUnique db id a b now w free unique)
  ]
  after-PairsUnique (Request.accept id user_id friendship_id now) w unique =
      elim (accept_cases db user_id friendship_id now w) [
        | inl e ↦ rw e unique
        | inr e ↦ rw e (update_status-PairsUnique db friendship_id accepted now w unique)
      ]
  after-PairsUnique (Request.block id a b now) w unique = elim (block_cases db id a b now w) [
    | inl (k, e) ↦ rw e (update_status-PairsUnique db k blocked now w unique)
    | inr (free, inl e) ↦ rw e (create-PairsUnique db id a b now w free unique)
    | inr (free, inr e) ↦ rw e (
        update_status-PairsUnique db id blocked now _
          (create-PairsUnique db id a b now w free unique))
  ]
  after-PairsUnique (Request.remove user_id friendship_id) w unique =
      elim (remove_cases db user_id friendship_id w) [
        | inl e ↦ rw e unique
        | inr e ↦ rw e (remove-PairsUnique db friendship_id w.friendships unique)
      ]

  -- The worlds that a sequence of requests leads to, one handled after the other.
  pub data Reach (w : World db) : World db → Type 0 where
    here : Reach w w
    next : {v : World db} (r : Request) → Reach w v → Reach w (after r v)

  -- From a world in which two users share at most one friendship row, whatever requests, blocks,
  -- answers and removals are handled one after the other, and whatever each answers, two users
  -- still share at most one row, counting both directions.
  pub Reach-PairsUnique :
      {w v : World db} → Reach w v → PairsUnique db w.friendships → PairsUnique db v.friendships
  Reach-PairsUnique here unique = unique
  Reach-PairsUnique (next {v} r steps) unique =
      after-PairsUnique r v (Reach-PairsUnique steps unique)
