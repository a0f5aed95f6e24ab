-- ===== src/Tests/Friends.antt =====
-- Examples for friend requests.
use sidequest_demo_be.Common.{◌≡◌, refl, true, false, [], ◌∷◌, arith}
use sidequest_demo_be.Effects.{ok}
use sidequest_demo_be.Model.{FriendshipStatus, blocked, pending}
use sidequest_demo_be.World.{World}
use sidequest_demo_be.Friendships.{accept, request, remove, from_entity, new_friendship}
use sidequest_demo_be.Friendships.Pairs.{here, next, PairsUnique, Request, after, Reach-PairsUnique}
use sidequest_demo_be.Friendships.Answers.{block_undone}
use sidequest_demo_be.Friendships.Lists.{list_pending_incoming, accepted_friend_ids}
use sidequest_demo_be.Friendships.Lists.Inbox.{shows_request, is_friend_id, accept-lists}
use sidequest_demo_be.Tests.{db, friends, town}

accept-lists_example :
    let w' = (accept db 2 4 20 town).1 in
    (shows_request db 4 (list_pending_incoming db 2 town) ≡ true)
    × (shows_request db 4 (list_pending_incoming db 2 w') ≡ false)
    × (is_friend_id db 1 (accepted_friend_ids db 2 w') ≡ true)
    × (is_friend_id db 2 (accepted_friend_ids db 1 w') ≡ true)
accept-lists_example = accept-lists db 2 4 20 town refl refl refl

-- Ann's row with Ben, blocked by her.
abbrev blocked_town : World db
blocked_town = record town { friendships = (4, friends blocked) ∷ [] }

one-PairsUnique : (status : FriendshipStatus) → PairsUnique db ((4, friends status) ∷ [])
one-PairsUnique status i j f g fi fj same = ground arith

block_undone_example :
    let w₁ = (remove db 2 4 blocked_town).1 in
    (request db 5 2 1 20 w₁).0 ≡ ok (from_entity 5 (new_friendship 2 1 20))
block_undone_example =
    (block_undone db 4 5 1 2 20 blocked_town (one-PairsUnique blocked) refl refl refl refl
      (omega arith) refl refl).1

Reach-PairsUnique_example :
    PairsUnique db
      (after db (Request.accept 0 2 4 20) (after db (Request.request 5 2 1 10) town)).friendships
Reach-PairsUnique_example =
    Reach-PairsUnique db (next (Request.accept 0 2 4 20) (next (Request.request 5 2 1 10) here))
      (one-PairsUnique pending)
