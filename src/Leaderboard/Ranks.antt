-- ===== src/Leaderboard/Ranks.antt =====
-- The entries and the viewer's own rank: src/modules/leaderboard/leaderboard.service.ts.
use sidequest_demo_be.Common.{
  ℕ, zero, suc, ◌+◌, ◌-◌, ◌<◌, min, ◌≡◌, refl, true, Option, some, List, [], ◌∷◌, map, arith,
  length, take, length-take, All, ◌==◌, leb, Bool-cases, inl, inr, length-map,
}
use sidequest_demo_be.Common.Sorting.{
  any_order, ascending, by, reversed, Order, Sorted, Sorted-sort, Sorted-take, Sorted-coarser, sort,
  length-sort,
}
use sidequest_demo_be.Common.Text.{Text}
use sidequest_demo_be.Links.{TextMethods, SqlText}
use sidequest_demo_be.Store.{counted, length-find_many}
use sidequest_demo_be.World.{Database, World}
use sidequest_demo_be.Leaderboard.{
  Standing, LeaderboardEntryDto, best_first, row_number, rank_up_to, row_of, to_entry, find_entry,
  entry_of, or_entry, is_listed, standing_of, ranked, list_top, find_my_rank, respond, standings,
}

-- past the limit nothing is left
none_up_to :
    (limit n : ℕ) (xs : List Standing) → limit < n → rank_up_to limit (row_number n xs) ≡ []
unfolding rank_up_to row_number
none_up_to limit n [] h = refl
none_up_to limit n (s ∷ rest) h = ground (arith, none_up_to limit (n + 1) rest)

module _ (viewer : ℕ) where
  abbrev mine : Option ℕ
  mine = some viewer

  -- The viewer's entry among the top rows, where there is one, is that of the viewer's first row.
  find_entry_top :
      (limit n : ℕ) (xs : List Standing)
      → or_entry
          (find_entry viewer (map (to_entry mine) (rank_up_to limit (row_number n xs))))
          (entry_of mine (row_of viewer (row_number n xs)))
        ≡ entry_of mine (row_of viewer (row_number n xs))
  unfolding find_entry rank_up_to row_number row_of to_entry
  find_entry_top limit n [] = refl
  find_entry_top limit n (s ∷ rest) = elim (Bool-cases (leb n limit)) [
    | inl within ↦ elim (Bool-cases (s.id == viewer)) [
      | inl me ↦ ground arith
      | inr other ↦ rw (within, other) (find_entry_top limit (n + 1) rest)
    ]
    | inr beyond ↦ rw (beyond, none_up_to limit (n + 1) rest (ground arith)) refl
  ]

take_nil : (n : ℕ) → take {A = Standing} n [] ≡ []
take_nil zero = refl
take_nil (suc n) = refl

top_rows :
    (limit n : ℕ) (xs : List Standing)
    → rank_up_to limit (row_number n xs) ≡ row_number n (take (limit + 1 - n) xs)
unfolding rank_up_to row_number
top_rows limit n [] = rw take_nil refl
top_rows limit n (s ∷ rest) = elim (Bool-cases (leb n limit)) [
  | inl within ↦
      let e : limit + 1 - n ≡ suc (limit + 1 - (n + 1)) = ground arith in
      rw (within, e, top_rows limit (n + 1) rest) refl
  | inr beyond ↦
      let e : limit + 1 - n ≡ 0 = ground arith in
      rw (beyond, e, none_up_to limit (n + 1) rest (ground arith)) refl
]

module _ (viewer : Option ℕ) where
  abbrev entries_from : ℕ → List Standing → List LeaderboardEntryDto
  entries_from n xs = map (to_entry viewer) (row_number n xs)

  -- Entries are numbered in turn, from a number on.
  abbrev pub Numbered : ℕ → List LeaderboardEntryDto → Type 0
  Numbered n [] = Unit
  Numbered n (e ∷ rest) = (e.rank ≡ n) × Numbered (n + 1) rest

  entries_from-Numbered : (n : ℕ) (xs : List Standing) → Numbered n (entries_from n xs)
  unfolding row_number to_entry
  entries_from-Numbered n [] = tt
  entries_from-Numbered n (s ∷ rest) = (refl, entries_from-Numbered (n + 1) rest)

  length-entries_from : (n : ℕ) (xs : List Standing) → length (entries_from n xs) ≡ length xs
  unfolding row_number
  length-entries_from n [] = refl
  length-entries_from n (s ∷ rest) = omega (arith, length-entries_from (n + 1) rest)

  All-entries_from :
      (P : ℕ → Type 0) (n : ℕ) (xs : List Standing)
      → All (λ s. P s.xp) xs
      → All (λ e. P e.xp) (entries_from n xs)
  unfolding row_number to_entry
  All-entries_from P n [] h = tt
  All-entries_from P n (s ∷ rest) (hs, h) = (hs, All-entries_from P (n + 1) rest h)

  abbrev pub most_xp : Order LeaderboardEntryDto
  most_xp = reversed (by (λ e. e.xp) ascending)

  entries_from-Sorted :
      (n : ℕ) (xs : List Standing)
      → Sorted (reversed (by (λ (s : Standing). s.xp) ascending)) xs
      → Sorted most_xp (entries_from n xs)
  unfolding row_number to_entry
  entries_from-Sorted n [] h = tt
  entries_from-Sorted n (s ∷ rest) (hs, h) = (
    All-entries_from (λ xp. leb xp s.xp ≡ true) (n + 1) rest hs,
    entries_from-Sorted (n + 1) rest h,
  )

module _ {F : Type 0} (db : Database F) (methods : TextMethods) (sql : SqlText) where
  -- A leaderboard has as many entries as there are active users in its scope, up to the limit,
  -- numbered from 1 on with falling XP; and the viewer's own entry is the one at the viewer's rank
  -- among all of them, whether or not it is among the entries shown.
  pub respond_lem :
      (start : Option ℕ) (city_lower : Option Text) (limit viewer : ℕ) (w : World db)
      → let r = respond db methods sql start city_lower limit (some viewer) w in
        (length r.entries ≡ min limit (db.user.total (counted (is_listed sql city_lower)) w.users))
        × Numbered (some viewer) 1 r.entries
        × Sorted (most_xp (some viewer)) r.entries
        × (r.my_entry
            ≡ entry_of (some viewer) (find_my_rank db methods sql start city_lower viewer w))
  unfolding list_top find_my_rank ranked
  respond_lem start city_lower limit viewer w =
      let users = db.user.find_many (is_listed sql city_lower) any_order w.users in
      let all = standings db methods sql start city_lower w in
      let best = sort best_first all in
      let top = top_rows limit 1 best in
      let e : limit + 1 - 1 ≡ limit = omega arith in
      (
        rw (top, e)
            (omega (
              arith,
              length-entries_from (some viewer) 1 (take limit best),
              length-take limit best,
              length-sort best_first all,
              length-map (standing_of db methods sql start w) users,
              length-find_many db.user (is_listed sql city_lower) any_order w.users,
            )),
        rw (top, e) (entries_from-Numbered (some viewer) 1 (take limit best)),
        rw (top, e)
            (entries_from-Sorted (some viewer) 1 (take limit best) (
              Sorted-coarser best_first (reversed (by (λ (s : Standing). s.xp) ascending))
                (take limit best) (λ a b h. ground arith)
                (Sorted-take best_first limit best (Sorted-sort best_first all)))),
        find_entry_top viewer limit 1 best,
      )
