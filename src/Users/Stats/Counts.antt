-- ===== src/Users/Stats/Counts.antt =====
-- The figures of a user add up: src/modules/users/users.service.ts.
use Prim.Native.String.{String}
use mathlib.Core.Path.{fun_ext}
use text.Mathlib.Text.{◌==◌ as str_eq}
use text.Mathlib.TextEquality.{eq_iff}
use sidequest_demo_be.Common.{
  length, ℕ, ◌+◌, ◌≤◌, min, max, ◌≡◌, ◌∙◌, sym, ap, Option, none, some, List, [], ◌∷◌, arith,
  if◌then◌else◌, ◌==◌, Bool, Bool-cases, inl, inr,
}
use sidequest_demo_be.Common.Sorting.{any_order, sum_of, sum-sort, Sorted, Sorted-sort}
use sidequest_demo_be.Geo.{Float}
use sidequest_demo_be.Store.{picked, counted, length-find_many}
use sidequest_demo_be.Model.{
  QuestCategory, QuestCompletion, QuestCompletionStatus, started, completed, abandoned, expired,
}
use sidequest_demo_be.World.{Database, World}
use sidequest_demo_be.Users.{has_status, same_completion}
use sidequest_demo_be.Users.Stats.{
  CategoryBreakdownItemDto, count_category, count_row, category_of_quest, count_rows,
  most_completed, by_category, count_status, breakdown,
}

-- What a counter adds to the figure of a category, and what a completed quest does.
abbrev pub of_slug : String → CategoryBreakdownItemDto → ℕ
of_slug slug item = if str_eq item.category_slug slug then item.completed else 0

abbrev pub is_slug : String → CategoryBreakdownItemDto → ℕ
is_slug slug item = if str_eq item.category_slug slug then 1 else 0

abbrev pub one_of_slug : String → Option QuestCategory → ℕ
one_of_slug slug none = 0
one_of_slug slug (some c) = if str_eq c.slug slug then 1 else 0

module _ (slug : String) where
  sum-count_category :
      (c : QuestCategory) (counters : List CategoryBreakdownItemDto)
      → sum_of (of_slug slug) (count_category c counters)
        ≡ sum_of (of_slug slug) counters + one_of_slug slug (some c)
  unfolding count_category
  sum-count_category c [] = omega arith
  sum-count_category c (item ∷ rest) = elim (Bool-cases (str_eq item.category_slug c.slug)) [
    | inl same ↦
        let e = (eq_iff item.category_slug c.slug).0 same in
        rw (same, e) (ground (arith, sum-count_category c rest))
    | inr other ↦ rw other (omega (arith, sum-count_category c rest))
  ]

  sum-count_row :
      (o : Option QuestCategory) (counters : List CategoryBreakdownItemDto)
      → sum_of (of_slug slug) (count_row o counters)
        ≡ sum_of (of_slug slug) counters + one_of_slug slug o
  sum-count_row none counters = omega arith
  sum-count_row (some c) counters = sum-count_category c counters

  -- A category that is counted has an entry, and gets no second one.
  entries-count_category :
      (c : QuestCategory) (counters : List CategoryBreakdownItemDto)
      → sum_of (is_slug slug) (count_category c counters)
        ≡ max (one_of_slug slug (some c)) (sum_of (is_slug slug) counters)
  unfolding count_category
  entries-count_category c [] = ground arith
  entries-count_category c (item ∷ rest) = elim (Bool-cases (str_eq item.category_slug c.slug)) [
    | inl same ↦ let e = (eq_iff item.category_slug c.slug).0 same in rw (same, e) (ground arith)
    | inr other ↦ elim (Bool-cases (str_eq c.slug slug)) [
      | inl named ↦
          let e = (eq_iff c.slug slug).0 named in
          rw other (ground (arith, entries-count_category c rest, e))
      | inr unnamed ↦ rw other (ground (arith, entries-count_category c rest))
    ]
  ]

  entries-count_row :
      (o : Option QuestCategory) (counters : List CategoryBreakdownItemDto)
      → sum_of (is_slug slug) (count_row o counters)
        ≡ max (one_of_slug slug o) (sum_of (is_slug slug) counters)
  entries-count_row none counters = omega arith
  entries-count_row (some c) counters = entries-count_category c counters

  one_at_most : (o : Option QuestCategory) → one_of_slug slug o ≤ 1
  one_at_most none = omega arith
  one_at_most (some c) = ground arith

  module _ (fl : Float) (db : Database fl.F) (w : World db) where
    -- 1 for a row of a quest in the category
    abbrev pub in_slug : (ℕ × ℕ) × QuestCompletion → ℕ
    in_slug e = one_of_slug slug (category_of_quest fl db w e.0.1)

    sum-count_rows :
        (counters : List CategoryBreakdownItemDto) (rows : List ((ℕ × ℕ) × QuestCompletion))
        → sum_of (of_slug slug) (count_rows fl db w counters rows)
          ≡ sum_of (of_slug slug) counters + sum_of in_slug rows
    unfolding count_rows
    sum-count_rows counters [] = omega arith
    sum-count_rows counters (((u, q), c) ∷ rest) =
        let o = category_of_quest fl db w q in
        omega (arith, sum-count_rows (count_row o counters) rest, sum-count_row o counters)

    entries-count_rows :
        (counters : List CategoryBreakdownItemDto) (rows : List ((ℕ × ℕ) × QuestCompletion))
        → sum_of (is_slug slug) (count_rows fl db w counters rows)
          ≡ max (min 1 (sum_of in_slug rows)) (sum_of (is_slug slug) counters)
    unfolding count_rows
    entries-count_rows counters [] = omega arith
    entries-count_rows counters (((u, q), c) ∷ rest) =
        let o = category_of_quest fl db w q in
        omega (
          arith,
          entries-count_rows (count_row o counters) rest,
          entries-count_row o counters,
          one_at_most o,
        )

    -- The breakdown by category of a user has exactly one entry for a category in which the user
    -- completed a quest, and none for another; what stands there is the number of the user's
    -- completed quests in the category; and the entries stand by falling number.
    pub by_category_lem :
        (user_id : ℕ)
        → (sum_of (of_slug slug) (by_category fl db user_id w)
            ≡ db.quest_completion.total
                (picked (has_status user_id completed) in_slug)
                w.completions)
          × (sum_of (is_slug slug) (by_category fl db user_id w)
              ≡ min 1 (
                  db.quest_completion.total
                    (picked (has_status user_id completed) in_slug)
                    w.completions))
          × Sorted (most_completed fl db) (by_category fl db user_id w)
    unfolding by_category
    by_category_lem user_id =
        let rows =
          db.quest_completion.find_many (has_status user_id completed) any_order w.completions in
        let counters = count_rows fl db w [] rows in
        (
          omega (
            arith,
            sum-sort (most_completed fl db) (of_slug slug) counters,
            sum-count_rows [] rows,
            db.quest_completion.find_many_sum in_slug (has_status user_id completed) any_order
                w.completions,
          ),
          omega (
            arith,
            sum-sort (most_completed fl db) (is_slug slug) counters,
            entries-count_rows [] rows,
            db.quest_completion.find_many_sum in_slug (has_status user_id completed) any_order
                w.completions,
          ),
          Sorted-sort (most_completed fl db) counters,
        )

abbrev pub of_user : ℕ → ℕ × ℕ → QuestCompletion → Bool
of_user user_id k c = k.0 == user_id

abbrev one_with : QuestCompletionStatus → (ℕ × ℕ) × QuestCompletion → ℕ
one_with status e = if same_completion e.1.status status then 1 else 0

statuses :
    (rows : List ((ℕ × ℕ) × QuestCompletion))
    → sum_of (one_with started) rows
        + sum_of (one_with completed) rows
        + sum_of (one_with abandoned) rows
        + sum_of (one_with expired) rows
      ≡ length rows
statuses [] = omega arith
statuses ((k, c) ∷ rest) = ground (arith, statuses rest)

module _ (fl : Float) (db : Database fl.F) (user_id : ℕ) (w : World db) where
  abbrev rows_of : List ((ℕ × ℕ) × QuestCompletion)
  rows_of = db.quest_completion.find_many (of_user user_id) any_order w.completions

  split_test :
      (status : QuestCompletionStatus)
      → counted (has_status user_id status) ≡ picked (of_user user_id) (one_with status)
  split_test status = fun_ext λ k. fun_ext λ c. ground arith

  count-rows_of :
      (status : QuestCompletionStatus)
      → count_status fl db user_id w status ≡ sum_of (one_with status) rows_of
  count-rows_of status =
      ap (λ (f : ℕ × ℕ → QuestCompletion → ℕ). db.quest_completion.total f w.completions)
        (split_test status)
      ∙ sym (
          db.quest_completion.find_many_sum (one_with status) (of_user user_id) any_order
            w.completions)

  -- The four counts of the completion breakdown add up to all quests that the user ever started.
  pub breakdown_lem :
      let b = breakdown fl db user_id w in
      b.started + b.completed + b.abandoned + b.expired
      ≡ db.quest_completion.total (counted (of_user user_id)) w.completions
  unfolding breakdown
  breakdown_lem = omega (
    arith,
    count-rows_of started,
    count-rows_of completed,
    count-rows_of abandoned,
    count-rows_of expired,
    statuses rows_of,
    length-find_many db.quest_completion (of_user user_id) any_order w.completions,
  )
