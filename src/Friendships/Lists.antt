-- ===== src/Friendships/Lists.antt =====
-- The lists of friends and of requests: `listMine`, `listFriends`, `listPendingIncoming` and
-- `acceptedFriendIds` of src/modules/friendships/friendships.service.ts. `updated_at` is the column
-- of that name, which the client writes.
pub mod Inbox
use Prim.Native.String.{String}
use text.Mathlib.Text.{◌==◌ as str_eq}
use sidequest_demo_be.Common.{
  ℕ, ◌+◌, Bool, true, false, ◌&&◌, ◌||◌, Option, none, some, List, [], ◌∷◌, map, any, ◌==◌, ltb,
  if◌then◌else◌, or_else,
}
use sidequest_demo_be.Common.Sorting.{Order, any_order, ascending, by, reversed}
use sidequest_demo_be.Common.Text.{Text}
use sidequest_demo_be.Store.{counted}
use sidequest_demo_be.Model.{
  User, Quest, QuestCompletion, Friendship, FriendshipStatus, ParticipantSummary, pending, accepted,
  blocked, is_accepted, is_completed, is_started,
}
use sidequest_demo_be.World.{Database, World}
use sidequest_demo_be.Friendships.{FriendshipDto, from_entity, is_pending}
use sidequest_demo_be.Quests.Dto.{passes, summary_of}

pub data FriendPresenceStatus : Type 0 where
  online questing offline : FriendPresenceStatus

pub record FriendCurrentQuestDto : Type 0 where
  pub id : ℕ
  pub title : String

pub record FriendSummaryDto : Type 0 where
  pub id : ℕ
  pub username : Text
  pub display_name : Option Text
  pub avatar_url : Option Text
  pub level : ℕ
  pub xp : ℕ
  pub status : FriendPresenceStatus
  pub current_quest : Option FriendCurrentQuestDto
  pub last_seen_at : Option ℕ
  pub mutual_quests_count : ℕ

-- The requester is one that the foreign key keeps there.
pub record PendingFriendshipDto : Type 0 where
  pub id : ℕ
  pub requester : Option ParticipantSummary
  pub created_at : ℕ

abbrev pub same_friendship : FriendshipStatus → FriendshipStatus → Bool
same_friendship pending pending = true
same_friendship accepted accepted = true
same_friendship blocked blocked = true
same_friendship _ _ = false

abbrev pub concerns : ℕ → Friendship → Bool
concerns user_id f = f.requester_id == user_id || f.addressee_id == user_id

-- the `where` of `listForUser`
abbrev pub is_listed : ℕ → Option FriendshipStatus → ℕ → Friendship → Bool
is_listed user_id status id f = concerns user_id f && passes status (same_friendship f.status)

abbrev pub is_friendship_of : ℕ → ℕ → Friendship → Bool
is_friendship_of user_id id f = is_accepted f.status && concerns user_id f

abbrev pub is_incoming : ℕ → ℕ → Friendship → Bool
is_incoming user_id id f = f.addressee_id == user_id && is_pending f.status

abbrev pub newest : Order (ℕ × Friendship)
newest = reversed (by (λ e. e.1.created_at) ascending)

-- `requesterId === userId ? addresseeId : requesterId`
abbrev pub other_of : ℕ → Friendship → ℕ
other_of user_id f = if f.requester_id == user_id then f.addressee_id else f.requester_id

-- `ids.add(...)`
abbrev pub add_id : ℕ → List ℕ → List ℕ
add_id id ids = if any (λ x. x == id) ids then ids else id ∷ ids

unfoldable pub friend_ids : ℕ → List (ℕ × Friendship) → List ℕ
friend_ids user_id [] = []
friend_ids user_id ((id, f) ∷ rest) = add_id (other_of user_id f) (friend_ids user_id rest)

-- `lastSeenAt > NOW() - INTERVAL '5 minutes'`
abbrev pub is_recent : ℕ → Option ℕ → Bool
is_recent now none = false
is_recent now (some at) = ltb now (at + 300000)

-- the latest of the quests that were started in the last two hours
abbrev pub is_current : ℕ → ℕ → ℕ × ℕ → QuestCompletion → Bool
is_current friend_id now k c =
    k.0 == friend_id && (is_started c.status && ltb now (c.started_at + 7200000))

abbrev pub latest_start : Order ((ℕ × ℕ) × QuestCompletion)
latest_start = reversed (by (λ e. e.1.started_at) ascending)

abbrev pub first_quest : List ((ℕ × ℕ) × QuestCompletion) → Option ℕ
first_quest [] = none
first_quest (e ∷ rest) = some e.0.1

-- the `CASE` of the query, whose texts `parseFriendPresenceStatus` reads back
abbrev pub presence : Option ℕ → ℕ → Option ℕ → FriendPresenceStatus
presence (some quest_id) now last_seen_at = questing
presence none now last_seen_at = if is_recent now last_seen_at then online else offline

abbrev pub has_completed : Option QuestCompletion → Bool
has_completed none = false
has_completed (some c) = is_completed c.status

module _ {F : Type 0} (db : Database F) where
  unfoldable pub list_mine : ℕ → Option FriendshipStatus → World db → List FriendshipDto
  list_mine user_id status w =
      map (λ (e : ℕ × Friendship). from_entity e.0 e.1)
        (db.friendship.find_many (is_listed user_id status) newest w.friendships)

  abbrev pub accepted_friend_ids : ℕ → World db → List ℕ
  accepted_friend_ids user_id w =
      friend_ids user_id
        (db.friendship.find_many (is_friendship_of user_id) any_order w.friendships)

  abbrev pub requester_of : World db → ℕ → Option ParticipantSummary
  requester_of w id = elim (db.user.find id w.users) [
    | none ↦ none
    | some u ↦ some (summary_of id u)
  ]

  abbrev pub pending_dto : World db → ℕ × Friendship → PendingFriendshipDto
  pending_dto w (id, f) = record {
    id = id;
    requester = requester_of w f.requester_id;
    created_at = f.created_at;
  }

  unfoldable pub list_pending_incoming : ℕ → World db → List PendingFriendshipDto
  list_pending_incoming user_id w =
      map (pending_dto w) (db.friendship.find_many (is_incoming user_id) newest w.friendships)

  -- the lateral join `mutual`
  abbrev pub is_mutual : ℕ → ℕ → World db → ℕ × ℕ → QuestCompletion → Bool
  is_mutual user_id friend_id w k c =
      k.0 == user_id
      && (is_completed c.status
          && has_completed (db.quest_completion.find (friend_id, k.1) w.completions))

  abbrev pub count_mutual : ℕ → ℕ → World db → ℕ
  count_mutual user_id friend_id w =
      db.quest_completion.total (counted (is_mutual user_id friend_id w)) w.completions

  -- the lateral join `cq`
  abbrev pub current_quest_id : ℕ → ℕ → World db → Option ℕ
  current_quest_id friend_id now w =
      first_quest
        (db.quest_completion.find_many (is_current friend_id now) latest_start w.completions)

  -- `currentQuestId && currentQuestTitle`, which is false where the title is empty
  abbrev pub with_title : ℕ → Option (Quest F) → Option FriendCurrentQuestDto
  with_title id none = none
  with_title id (some q) =
      if str_eq q.title "" then none else some (record { id = id; title = q.title })

  abbrev pub current_quest_of : Option ℕ → World db → Option FriendCurrentQuestDto
  current_quest_of none w = none
  current_quest_of (some id) w = with_title id (db.quest.find id w.quests)

  abbrev pub friend_summary : ℕ → ℕ → ℕ → User → World db → FriendSummaryDto
  friend_summary user_id now friend_id u w =
      let current = current_quest_id friend_id now w in
      record {
        id = friend_id;
        username = u.username;
        display_name = u.display_name;
        avatar_url = u.avatar_url;
        level = u.level;
        xp = u.xp;
        status = presence current now u.last_seen_at;
        current_quest = current_quest_of current w;
        last_seen_at = u.last_seen_at;
        mutual_quests_count = count_mutual user_id friend_id w;
      }

  -- `JOIN "User"`
  abbrev pub push_friend :
      ℕ → ℕ → ℕ → Option User → World db → List FriendSummaryDto → List FriendSummaryDto
  push_friend user_id now friend_id none w rest = rest
  push_friend user_id now friend_id (some u) w rest =
      friend_summary user_id now friend_id u w ∷ rest

  unfoldable pub summaries : ℕ → ℕ → World db → List (ℕ × Friendship) → List FriendSummaryDto
  summaries user_id now w [] = []
  summaries user_id now w ((id, f) ∷ rest) =
      let friend = other_of user_id f in
      push_friend user_id now friend (db.user.find friend w.users) w (summaries user_id now w rest)

  -- `COALESCE(respondedAt, updatedAt) DESC`
  abbrev pub latest_answer : (ℕ → Friendship → ℕ) → Order (ℕ × Friendship)
  latest_answer updated_at =
      reversed (by (λ e. or_else e.1.responded_at (updated_at e.0 e.1)) ascending)

  unfoldable pub list_friends : (ℕ → Friendship → ℕ) → ℕ → ℕ → World db → List FriendSummaryDto
  list_friends updated_at user_id now w =
      summaries user_id now w (
        db.friendship.find_many (is_friendship_of user_id) (latest_answer updated_at) w.friendships)
