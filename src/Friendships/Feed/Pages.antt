-- ===== src/Friendships/Feed/Pages.antt =====
-- A page of the activity feed is the newest part of what was read:
-- src/modules/friendships/friendships.service.ts.
use mathlib.Core.List.{Perm}
use mathlib.Core.List.Perm
use sidequest_demo_be.Common.{
  ℕ, zero, suc, min, refl, ◌≤◌, ◌≡◌, ◌↔◌, some, List, [], ◌∷◌, ◌++◌, arith, length, take, drop,
  take-drop, length-take, All, All-take, Bool-cases, inl, inr,
}
use sidequest_demo_be.Friendships.Feed.{
  FriendActivityDto, Streams, merged, goes_before, insert, sort, last_time, page,
}

-- No item is newer than one that stands before it.
abbrev pub NewestFirst : List FriendActivityDto → Type 0
NewestFirst [] = Unit
NewestFirst (x ∷ xs) = All (λ y. y.created_at ≤ x.created_at) xs × NewestFirst xs

module _ (P : FriendActivityDto → Type 0) where
  All-insert :
      (x : FriendActivityDto) (xs : List FriendActivityDto) → All P (insert x xs) ↔ (P x × All P xs)
  unfolding insert
  All-insert x [] = (λ h. h, λ h. h)
  All-insert x (y ∷ ys) =
      let rest = All-insert x ys in
      elim (Bool-cases (goes_before x y)) [
        | inl first ↦ rw first (λ h. h, λ h. h)
        | inr later ↦ rw later (
          λ (py, h). let (px, hs) = rest.0 h in (px, (py, hs)),
          λ (px, (py, hs)). (py, rest.1 (px, hs)),
        )
      ]

  All-sort : (xs : List FriendActivityDto) → All P (sort xs) ↔ All P xs
  unfolding sort
  All-sort [] = (λ h. h, λ h. h)
  All-sort (x ∷ xs) =
      let own = All-insert x (sort xs) in
      let rest = All-sort xs in
      (λ h. let (px, hs) = own.0 h in (px, rest.0 hs), λ (px, hs). own.1 (px, rest.1 hs))

older :
    (a b : ℕ) (xs : List FriendActivityDto)
    → a ≤ b
    → All (λ y. y.created_at ≤ a) xs
    → All (λ y. y.created_at ≤ b) xs
older a b [] le h = tt
older a b (x ∷ xs) le (hx, h) = (omega arith, older a b xs le h)

NewestFirst-insert :
    (x : FriendActivityDto) (xs : List FriendActivityDto)
    → NewestFirst xs
    → NewestFirst (insert x xs)
unfolding insert
NewestFirst-insert x [] h = (tt, tt)
NewestFirst-insert x (y ∷ ys) (hy, h) = elim (Bool-cases (goes_before x y)) [
  | inl first ↦
      let le : y.created_at ≤ x.created_at = ground arith in
      rw first ((le, older y.created_at x.created_at ys le hy), (hy, h))
  | inr later ↦
      let le : x.created_at ≤ y.created_at = ground arith in
      rw later
        ((All-insert (λ z. z.created_at ≤ y.created_at) x ys).1 (le, hy), NewestFirst-insert x ys h)
]

NewestFirst-sort : (xs : List FriendActivityDto) → NewestFirst (sort xs)
unfolding sort
NewestFirst-sort [] = tt
NewestFirst-sort (x ∷ xs) = NewestFirst-insert x (sort xs) (NewestFirst-sort xs)

insert-perm : (x : FriendActivityDto) (xs : List FriendActivityDto) → Perm (insert x xs) (x ∷ xs)
unfolding insert
insert-perm x [] = Perm.refl (x ∷ [])
insert-perm x (y ∷ ys) = elim (Bool-cases (goes_before x y)) [
  | inl first ↦ rw first (Perm.refl (x ∷ y ∷ ys))
  | inr later ↦ rw later (Perm.trans (Perm.cons y (insert-perm x ys)) (Perm.swap x y ys))
]

sort-perm : (xs : List FriendActivityDto) → Perm (sort xs) xs
unfolding sort
sort-perm [] = Perm.refl []
sort-perm (x ∷ xs) = Perm.trans (insert-perm x (sort xs)) (Perm.cons x (sort-perm xs))

length-insert :
    (x : FriendActivityDto) (xs : List FriendActivityDto) → length (insert x xs) ≡ suc (length xs)
unfolding insert
length-insert x [] = refl
length-insert x (y ∷ ys) = ground (arith, length-insert x ys)

length-sort : (xs : List FriendActivityDto) → length (sort xs) ≡ length xs
unfolding sort
length-sort [] = refl
length-sort (x ∷ xs) = omega (arith, length-insert x (sort xs), length-sort xs)

NewestFirst-take : (n : ℕ) (xs : List FriendActivityDto) → NewestFirst xs → NewestFirst (take n xs)
NewestFirst-take zero xs h = tt
NewestFirst-take (suc n) [] h = tt
NewestFirst-take (suc n) (x ∷ xs) (hx, h) =
    (All-take (λ y. y.created_at ≤ x.created_at) n xs hx, NewestFirst-take n xs h)

last_oldest :
    (c : ℕ) (xs : List FriendActivityDto)
    → NewestFirst xs
    → last_time xs ≡ some c
    → All (λ y. c ≤ y.created_at) xs
last_oldest c [] h e = tt
last_oldest c (x ∷ []) h e = (ground arith, tt)
last_oldest c (x ∷ y ∷ rest) ((hy, hx), h) e =
    let more = last_oldest c (y ∷ rest) h e in (omega (arith, more.0), more)

-- A page has as many items as were read, up to its limit, and it is the start of all that was read,
-- the newest first: page and rest together are exactly the items that were read, each as often as it
-- was, and what is left off is not newer than anything on the page.
pub page_lem :
    (limit : ℕ) (s : Streams)
    → let items = (page limit s).items in
      (length items ≡ min limit (length (merged s)))
      × ((rest : List FriendActivityDto) × NewestFirst (items ++ rest)
          × Perm (items ++ rest) (merged s))
unfolding page
page_lem limit s =
    let sorted = sort (merged s) in
    (
      omega (arith, length-take limit sorted, length-sort (merged s)),
      (
        drop limit sorted,
        rw (take-drop limit sorted) (NewestFirst-sort (merged s)),
        rw (take-drop limit sorted) (sort-perm (merged s)),
      ),
    )

-- The next cursor is at or before everything on the page.
pub page_until :
    (limit c : ℕ) (s : Streams)
    → (page limit s).next_cursor ≡ some c
    → All (λ y. c ≤ y.created_at) (page limit s).items
unfolding page
page_until limit c s cursor =
    last_oldest c (take limit (sort (merged s)))
      (NewestFirst-take limit (sort (merged s)) (NewestFirst-sort (merged s))) (ground arith)

-- What holds of all that was read holds of the page.
pub All-page :
    (P : FriendActivityDto → Type 0) (limit : ℕ) (s : Streams)
    → All P (merged s)
    → All P (page limit s).items
unfolding page
All-page P limit s read = All-take P limit (sort (merged s)) ((All-sort P (merged s)).1 read)
