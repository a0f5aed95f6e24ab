-- ===== src/Friendships/Feed/Cursors.antt =====
-- Going on from the cursor of a page of the activity feed:
-- src/modules/friendships/friendships.service.ts.
use sidequest_demo_be.Common.{
  ℕ, Bool, ◌≤◌, ◌<◌, ◌≡◌, true, false, Option, none, some, List, [], ◌∷◌, ◌++◌, map, arith, refl,
  take, All, All-take, All-map, All-imp, All-append, Option-cases, inl, inr,
}
use sidequest_demo_be.Common.Text.{Text, text_eq}
use sidequest_demo_be.Effects.{Result, ok}
use sidequest_demo_be.Store.{Key, Table}
use sidequest_demo_be.Common.Sorting.{Order}
use sidequest_demo_be.World.{Database, World}
use sidequest_demo_be.Achievements.{Achievement}
use sidequest_demo_be.Friendships.Lists.{accepted_friend_ids}
use sidequest_demo_be.Friendships.Feed.{
  FriendActivityDto, CompletedRow, AchievementRow, Streams, Feed, merged, completed_items,
  achievement_items, started_item, level_up_item, visit_item, page, page_limit, per_stream,
}
use sidequest_demo_be.Friendships.Feed.Pages.{page_until, All-page}
use sidequest_demo_be.Friendships.Feed.Reads.{
  RowIds, parsed_cursor, included, was_finished, was_begun, was_earned, was_level_up, was_visited,
  streams, completed_quest_row, started_quest_row, achievement_row, level_up_row, visit_row,
  feed_of, activity_feed,
}

All-included :
    {A B C : Type 0} (Q : A → Type 0) (R : C → Type 0) (relation : A → Option B) (row : A → B → C)
    → ((a : A) (b : B) → Q a → R (row a b))
    → (xs : List A) → All Q xs
    → All R (included relation row xs)
unfolding included
All-included Q R relation row step [] h = tt
All-included Q R relation row step (x ∷ xs) (hx, h) =
    let more = All-included Q R relation row step xs h in
    elim (Option-cases (relation x)) [
      | inl missing ↦ rw (missing, All) more
      | inr (b, found) ↦ rw (found, All) (step x b hx, more)
    ]

module _ (before : ℕ) where
  abbrev Older : FriendActivityDto → Type 0
  Older y = y.created_at < before

  -- A time that is set is older.
  abbrev SetOlder : Option ℕ → Type 0
  SetOlder time = (at : ℕ) → time ≡ some at → at < before

  completed-Older :
      (rows : List CompletedRow)
      → All (λ r. SetOlder r.completed_at) rows
      → All Older (completed_items rows)
  unfolding completed_items
  completed-Older [] h = tt
  completed-Older (r ∷ rest) (hr, h) = elim (Option-cases r.completed_at) [
    | inl never ↦ rw never (completed-Older rest h)
    | inr (at, set) ↦ rw set (hr at set, completed-Older rest h)
  ]

  achievement-Older :
      (rows : List AchievementRow)
      → All (λ r. SetOlder r.unlocked_at) rows
      → All Older (achievement_items rows)
  unfolding achievement_items
  achievement-Older [] h = tt
  achievement-Older (r ∷ rest) (hr, h) = elim (Option-cases r.unlocked_at) [
    | inl never ↦ rw never (achievement-Older rest h)
    | inr (at, set) ↦ rw set (hr at set, achievement-Older rest h)
  ]

  merged-Older :
      (s : Streams)
      → All (λ r. SetOlder r.completed_at) s.completed_quests
      → All (λ r. r.started_at < before) s.started_quests
      → All (λ r. SetOlder r.unlocked_at) s.achievements
      → All (λ r. r.created_at < before) s.level_ups
      → All (λ r. r.created_at < before) s.place_visits
      → All Older (merged s)
  unfolding merged
  merged-Older s completed started earned risen visited =
      let quests = completed_items s.completed_quests in
      let starts = map started_item s.started_quests in
      let awards = achievement_items s.achievements in
      let levels = map level_up_item s.level_ups in
      let visits = map visit_item s.place_visits in
      All-append Older (quests ++ starts ++ awards ++ levels) visits
        (All-append Older (quests ++ starts ++ awards) levels
          (All-append Older (quests ++ starts) awards
            (All-append Older quests starts (completed-Older s.completed_quests completed)
              (All-map Older started_item s.started_quests started))
            (achievement-Older s.achievements earned))
          (All-map Older level_up_item s.level_ups risen))
        (All-map Older visit_item s.place_visits visited)

module _ {F : Type 0} (db : Database F) (row_ids : RowIds) (definitions : List Achievement) where
  module _ (w : World db) (ids : List ℕ) (before cap : ℕ) where
    -- The rows of a table that meet the condition of a query, as far as they are taken.
    taken :
        {K Row : Type 0} {key : Key K} (table : Table key Row) (p : K → Row → Bool)
        (order : Order (K × Row)) (s : table.State)
        → All (λ e. p e.0 e.1 ≡ true) (take cap (table.find_many p order s))
    taken table p order s =
        All-take (λ e. p e.0 e.1 ≡ true) cap (table.find_many p order s)
          (All-imp (λ e. (p e.0 e.1 ≡ true) × (table.find e.0 s ≡ some e.1)) (λ e h. h.0)
            (table.find_many p order s) (table.find_many_sound p order s))

    -- Everything that the queries read is older than the time they are given.
    streams-Older :
        All (Older before) (merged (streams db row_ids definitions w ids (some before) cap))
    unfolding streams
    streams-Older =
        merged-Older before (streams db row_ids definitions w ids (some before) cap)
          (All-included (λ e. was_finished ids (some before) e.0 e.1 ≡ true)
            (λ r. SetOlder before r.completed_at) _ (completed_quest_row db row_ids definitions w)
            (λ e b h at set. ground arith) _
            (taken db.quest_completion (was_finished ids (some before)) _ w.completions))
          (All-included (λ e. was_begun ids (some before) e.0 e.1 ≡ true)
            (λ r. r.started_at < before) _ (started_quest_row db row_ids definitions w)
            (λ e b h. ground arith) _
            (taken db.quest_completion (was_begun ids (some before)) _ w.completions))
          (All-included (λ e. was_earned ids (some before) e.0 e.1 ≡ true)
            (λ r. SetOlder before r.unlocked_at) _ (achievement_row db row_ids definitions w)
            (λ e b h at set. ground arith) _
            (taken db.user_achievement (was_earned ids (some before)) _ w.user_achievements))
          (All-included (λ e. was_level_up ids (some before) e.0 e.1 ≡ true)
            (λ r. r.created_at < before) _ (level_up_row db row_ids definitions w)
            (λ e b h. ground arith) _
            (taken db.notification (was_level_up ids (some before)) _ w.notifications))
          (All-included (λ e. was_visited ids (some before) e.0 e.1 ≡ true)
            (λ r. r.created_at < before) _ (visit_row db row_ids definitions w)
            (λ e b h. ground arith) _
            (taken db.quest_location_check_in (was_visited ids (some before)) _ w.check_ins))

  module _ (parse_date : Text → Option ℕ) (limit c : ℕ) (w : World db) where
    feed_of_until :
        (ids : List ℕ) (cursor : Option Text) (first : Feed)
        → (feed_of db row_ids definitions parse_date ids limit cursor w).0 ≡ ok first
        → first.next_cursor ≡ some c
        → All (λ y. c ≤ y.created_at) first.items
    feed_of_until [] cursor first served next = absurd (ground arith)
    feed_of_until (friend ∷ friends) cursor first served next =
        elim (Option-cases (parsed_cursor parse_date cursor)) [
          | inl wrong ↦ absurd (ground arith)
          | inr (before, time) ↦
              let read =
                streams db row_ids definitions w (friend ∷ friends) before
                  (per_stream (page_limit limit)) in
              let same : first ≡ page (page_limit limit) read = ground arith in
              rw same (page_until (page_limit limit) c read (ground arith))
        ]

    feed_of_after :
        (ids : List ℕ) (text : Text)
        → text_eq text [] ≡ false
        → parse_date text ≡ some c
        → (second : Feed) × ((feed_of db row_ids definitions parse_date ids limit (some text) w).0
            ≡ ok second)
          × All (λ y. y.created_at < c) second.items
    feed_of_after [] text filled time = (record { items = []; next_cursor = none }, refl, tt)
    feed_of_after (friend ∷ friends) text filled time =
        let cap = per_stream (page_limit limit) in
        let read = streams db row_ids definitions w (friend ∷ friends) (some c) cap in
        let given : parsed_cursor parse_date (some text) ≡ some (some c) = ground arith in
        (
          page (page_limit limit) read,
          rw given refl,
          All-page (Older c) (page_limit limit) read (streams-Older w (friend ∷ friends) c cap),
        )

  module _ (parse_date : Text → Option ℕ) (user_id limit : ℕ) where
    abbrev feed : Option Text → World db → Result Feed
    feed cursor w = (activity_feed db row_ids definitions parse_date user_id limit cursor w).0

    -- Pages do not overlap: a page whose next cursor is `c` has nothing older than `c`, and a request
    -- for the page after a cursor text of that time, at whatever later state of the database,
    -- succeeds and gives only items that are older than `c`.
    pub activity_feed_pages :
        (w w' : World db) (cursor : Option Text) (text : Text) (c : ℕ) (first : Feed)
        → feed cursor w ≡ ok first
        → first.next_cursor ≡ some c
        → text_eq text [] ≡ false
        → parse_date text ≡ some c
        → All (λ y. c ≤ y.created_at) first.items
          × ((second : Feed) × (feed (some text) w' ≡ ok second)
              × All (λ y. y.created_at < c) second.items)
    unfolding activity_feed
    activity_feed_pages w w' cursor text c first served next filled time = (
      feed_of_until parse_date limit c w (accepted_friend_ids db user_id w) cursor first served
          next,
      feed_of_after parse_date limit c w' (accepted_friend_ids db user_id w') text filled time,
    )
