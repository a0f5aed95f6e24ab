-- ===== src/Tests/Feeds.antt =====
-- Examples for the activity feed.
use sidequest_demo_be.Common.{
  ℕ, ◌+◌, ◌≤◌, ◌<◌, ◌≡◌, refl, Option, none, some, List, [], ◌∷◌, All, length,
}
use sidequest_demo_be.Common.Text.{Text, codes}
use sidequest_demo_be.Model.{ParticipantSummary, Notification, FriendshipStatus}
use sidequest_demo_be.Friendships.Feed.{
  Streams, LevelUpRow, Feed, level_up_item, page, merged, sort, insert, completed_items,
  achievement_items,
}
use sidequest_demo_be.Friendships.Feed.Pages.{page_lem}
use sidequest_demo_be.Friendships.Feed.Reads.{RowIds, included, streams, activity_feed}
use sidequest_demo_be.Friendships.Feed.Cursors.{activity_feed_pages}
use sidequest_demo_be.Friendships.Lists.{friend_ids}
use sidequest_demo_be.Tests.{db, ben, friends, town}
use sidequest_demo_be.Effects.{ok}
use sidequest_demo_be.Common.Sorting
use sidequest_demo_be.Store.Rows
use sidequest_demo_be.World.{World}
use sidequest_demo_be.Notifications.{no_data}

abbrev who : ParticipantSummary
who = record { id = 1; username = codes "ann"; display_name = none; avatar_url = none; level = 1 }

abbrev rise : ℕ → LevelUpRow
rise at = record { id = at; user = who; created_at = at }

abbrev ben_summary : ParticipantSummary
ben_summary = record {
  id = 2;
  username = ben.username;
  display_name = ben.display_name;
  avatar_url = ben.avatar_url;
  level = ben.level;
}

abbrev read : List LevelUpRow → Streams
read rows = record {
  completed_quests = [];
  started_quests = [];
  achievements = [];
  level_ups = rows;
  place_visits = [];
}

page_example : length (page 2 (read (rise 3 ∷ rise 9 ∷ rise 5 ∷ []))).items ≡ 2
unfolding merged completed_items achievement_items
page_example = (page_lem 2 (read (rise 3 ∷ rise 9 ∷ rise 5 ∷ []))).0

abbrev ids : RowIds
ids = record {
  completion_id = λ k. k.0 + k.1;
  achievement_id = λ k. k.0 + k.1;
  check_in_id = λ k. k.0 + k.1;
}

abbrev risen : ℕ → Notification
risen at = record {
  user_id = 2;
  type = "LEVEL_UP";
  title = "Level up";
  payload = no_data;
  read_at = none;
  created_at = at;
}

-- Ann and Ben are friends, and Ben went up a level at 3, 9 and 5.
abbrev lively : World db
lively = record town {
  friendships = (4, friends FriendshipStatus.accepted) ∷ [];
  notifications = (1, risen 3) ∷ (2, risen 9) ∷ (3, risen 5) ∷ [];
}

abbrev five : Text → Option ℕ
five text = some 5

-- The first two of them, and what comes after 5.
abbrev newest_two : Feed
newest_two = record {
  items =
      level_up_item (record { id = 2; user = ben_summary; created_at = 9 })
      ∷ level_up_item (record { id = 3; user = ben_summary; created_at = 5 })
      ∷ [];
  next_cursor = some 5;
}

activity_feed_pages_example :
    All (λ y. 5 ≤ y.created_at) newest_two.items
    × ((second : Feed) × ((activity_feed db ids [] five 1 2 (some (codes "5")) lively).0
          ≡ ok second)
        × All (λ y. y.created_at < 5) second.items)
unfolding activity_feed streams included friend_ids page merged sort insert completed_items
    achievement_items Sorting.sort Rows.unless
activity_feed_pages_example =
    activity_feed_pages db ids [] five 1 2 lively lively none (codes "5") 5 newest_two refl refl
      refl refl
