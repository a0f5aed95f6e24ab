-- ===== src/Common/Sorting.antt =====
-- Sorting by a Boolean order, as `orderBy` of a query and `Array.prototype.sort` do, and sums over a
-- list.
use sidequest_demo_be.Common.Tests.{leb, if◌then◌else◌, Bool-cases}
use sidequest_demo_be.Common.Lists.{length, take, drop, any, All, All-take, All-map, All-imp}
use Prim.Native.Nat.{ℕ, zero, suc, ◌+◌}
use mathlib.Core.Path.{◌≡◌, refl, sym, ◌∙◌}
use mathlib.Core.Logic.{◌↔◌, inl, inr}
use mathlib.Core.Bool.{Bool, true, false, not, ◌&&◌, ◌||◌}
use mathlib.Core.Option.{Option, none, some}
use mathlib.Core.List.{List, [], ◌∷◌, map, Perm}
use mathlib.Core.List.Perm
use native.Mathlib.Omega.{arith}

-- `le a b`: `a` may stand before `b`.
pub record Order {ℓ} (A : Type ℓ) : Type ℓ where
  pub le : A → A → Bool
  pub le_total : (a b : A) → le a b ≡ false → le b a ≡ true
  pub le_trans : (a b c : A) → le a b ≡ true → le b c ≡ true → le a c ≡ true

-- without `orderBy`
abbrev pub any_order {ℓ} : {A : Type ℓ} → Order A
any_order = record { le = λ a b. true; le_total = λ a b h. refl; le_trans = λ a b c h k. refl }

pub leb_total : (a b : ℕ) → leb a b ≡ false → leb b a ≡ true
leb_total a b h = ground arith

pub leb_trans : (a b c : ℕ) → leb a b ≡ true → leb b c ≡ true → leb a c ≡ true
leb_trans a b c h k = ground arith

-- `asc`, of numbers and by a column
abbrev pub ascending : Order ℕ
ascending = record { le = leb; le_total = leb_total; le_trans = leb_trans }

abbrev pub by {ℓ κ} : {A : Type ℓ} {B : Type κ} → (A → B) → Order B → Order A
by f order = record {
  le = λ a b. order.le (f a) (f b);
  le_total = λ a b. order.le_total (f a) (f b);
  le_trans = λ a b c. order.le_trans (f a) (f b) (f c);
}

-- Null stands after every value, as in PostgreSQL.
abbrev pub le_null {ℓ} : {A : Type ℓ} → Order A → Option A → Option A → Bool
le_null order a none = true
le_null order none (some b) = false
le_null order (some a) (some b) = order.le a b

pub le_null_total {ℓ} :
    {A : Type ℓ} (order : Order A) (a b : Option A)
    → le_null order a b ≡ false
    → le_null order b a ≡ true
le_null_total order a none h = absurd (ground arith)
le_null_total order none (some b) h = refl
le_null_total order (some a) (some b) h = order.le_total a b h

pub le_null_trans {ℓ} :
    {A : Type ℓ} (order : Order A) (a b c : Option A)
    → le_null order a b ≡ true
    → le_null order b c ≡ true
    → le_null order a c ≡ true
le_null_trans order a b none h k = refl
le_null_trans order a none (some c) h k = absurd (ground arith)
le_null_trans order none (some b) (some c) h k = absurd (ground arith)
le_null_trans order (some a) (some b) (some c) h k = order.le_trans a b c h k

abbrev pub nulls_last {ℓ} : {A : Type ℓ} → Order A → Order (Option A)
nulls_last order = record {
  le = le_null order;
  le_total = le_null_total order;
  le_trans = le_null_trans order;
}

-- `desc`
abbrev pub reversed {ℓ} : {A : Type ℓ} → Order A → Order A
reversed order = record {
  le = λ a b. order.le b a;
  le_total = λ a b. order.le_total b a;
  le_trans = λ a b c h k. order.le_trans c b a k h;
}

-- an order of ties
abbrev pub both {ℓ} : {A : Type ℓ} → Order A → Order A → A → A → Bool
both first second a b = first.le a b && (not (first.le b a) || second.le a b)

pub both_total {ℓ} :
    {A : Type ℓ} (first second : Order A) (a b : A)
    → both first second a b ≡ false
    → both first second b a ≡ true
both_total first second a b h = ground (arith, first.le_total a b, second.le_total a b)

pub both_trans {ℓ} :
    {A : Type ℓ} (first second : Order A) (a b c : A)
    → both first second a b ≡ true
    → both first second b c ≡ true
    → both first second a c ≡ true
both_trans first second a b c h k =
    ground (
      arith,
      first.le_trans a b c,
      first.le_trans c a b,
      first.le_trans b c a,
      second.le_trans a b c,
    )

abbrev pub then_by {ℓ} : {A : Type ℓ} → Order A → Order A → Order A
then_by first second = record {
  le = both first second;
  le_total = both_total first second;
  le_trans = both_trans first second;
}

abbrev pub sum_of {ℓ} : {A : Type ℓ} → (A → ℕ) → List A → ℕ
sum_of f [] = 0
sum_of f (x ∷ xs) = f x + sum_of f xs

pub length_sum {ℓ} : {A : Type ℓ} (xs : List A) → length xs ≡ sum_of (λ x. 1) xs
length_sum [] = refl
length_sum (x ∷ xs) = omega (arith, length_sum xs)

-- Something that does not count is not there.
pub sum_any {ℓ} :
    {A : Type ℓ} (q : A → Bool) (xs : List A)
    → any q xs ≡ false
    → sum_of (λ x. if q x then 1 else 0) xs ≡ 0
sum_any q [] h = refl
sum_any q (x ∷ xs) h = ground (arith, sum_any q xs)

module _ {ℓ} {A : Type ℓ} (order : Order A) where
  unfoldable pub insert : A → List A → List A
  insert x [] = x ∷ []
  insert x (y ∷ ys) = let rest = insert x ys in if order.le x y then x ∷ y ∷ ys else y ∷ rest

  unfoldable pub sort : List A → List A
  unfolding insert
  sort [] = []
  sort (x ∷ xs) = insert x (sort xs)

  -- Every item may stand before all that follow it.
  abbrev pub Sorted : List A → Type ℓ
  Sorted [] = Unit
  Sorted (x ∷ xs) = All (λ y. order.le x y ≡ true) xs × Sorted xs

  pub All-insert {κ} :
      (P : A → Type κ) (x : A) (xs : List A) → All P (insert x xs) ↔ (P x × All P xs)
  unfolding insert
  All-insert P x [] = (λ h. h, λ h. h)
  All-insert P x (y ∷ ys) =
      let rest = All-insert P x ys in
      elim (Bool-cases (order.le x y)) [
        | inl first ↦ rw first (λ h. h, λ h. h)
        | inr later ↦ rw later (
          λ (py, h). let (px, hs) = rest.0 h in (px, (py, hs)),
          λ (px, (py, hs)). (py, rest.1 (px, hs)),
        )
      ]

  pub All-sort {κ} : (P : A → Type κ) (xs : List A) → All P (sort xs) ↔ All P xs
  unfolding sort
  All-sort P [] = (λ h. h, λ h. h)
  All-sort P (x ∷ xs) =
      let here = All-insert P x (sort xs) in
      let rest = All-sort P xs in
      (λ h. let (px, hs) = here.0 h in (px, rest.0 hs), λ (px, hs). here.1 (px, rest.1 hs))

  later_too :
      (a b : A) (xs : List A)
      → order.le a b ≡ true
      → All (λ y. order.le b y ≡ true) xs
      → All (λ y. order.le a y ≡ true) xs
  later_too a b [] h k = tt
  later_too a b (x ∷ xs) h (kx, k) = (order.le_trans a b x h kx, later_too a b xs h k)

  Sorted-insert : (x : A) (xs : List A) → Sorted xs → Sorted (insert x xs)
  unfolding insert
  Sorted-insert x [] h = (tt, tt)
  Sorted-insert x (y ∷ ys) (hy, h) = elim (Bool-cases (order.le x y)) [
    | inl first ↦ rw first ((first, later_too x y ys first hy), (hy, h))
    | inr later ↦ rw later (
      (All-insert (λ z. order.le y z ≡ true) x ys).1 (order.le_total x y later, hy),
      Sorted-insert x ys h,
    )
  ]

  pub Sorted-sort : (xs : List A) → Sorted (sort xs)
  unfolding sort
  Sorted-sort [] = tt
  Sorted-sort (x ∷ xs) = Sorted-insert x (sort xs) (Sorted-sort xs)

  sum-insert : (f : A → ℕ) (x : A) (xs : List A) → sum_of f (insert x xs) ≡ f x + sum_of f xs
  unfolding insert
  sum-insert f x [] = refl
  sum-insert f x (y ∷ ys) = elim (Bool-cases (order.le x y)) [
    | inl first ↦ rw first refl
    | inr later ↦ rw later (omega (arith, sum-insert f x ys))
  ]

  pub sum-sort : (f : A → ℕ) (xs : List A) → sum_of f (sort xs) ≡ sum_of f xs
  unfolding sort
  sum-sort f [] = refl
  sum-sort f (x ∷ xs) = omega (arith, sum-insert f x (sort xs), sum-sort f xs)

  pub length-sort : (xs : List A) → length (sort xs) ≡ length xs
  length-sort xs = length_sum (sort xs) ∙ sum-sort (λ x. 1) xs ∙ sym (length_sum xs)

  insert-perm : (x : A) (xs : List A) → Perm (insert x xs) (x ∷ xs)
  unfolding insert
  insert-perm x [] = Perm.refl (x ∷ [])
  insert-perm x (y ∷ ys) = elim (Bool-cases (order.le x y)) [
    | inl first ↦ rw first (Perm.refl (x ∷ y ∷ ys))
    | inr later ↦ rw later (Perm.trans (Perm.cons y (insert-perm x ys)) (Perm.swap x y ys))
  ]

  -- Sorting keeps every item as often as it was.
  pub sort-perm : (xs : List A) → Perm (sort xs) xs
  unfolding sort
  sort-perm [] = Perm.refl []
  sort-perm (x ∷ xs) = Perm.trans (insert-perm x (sort xs)) (Perm.cons x (sort-perm xs))

  pub Sorted-take : (n : ℕ) (xs : List A) → Sorted xs → Sorted (take n xs)
  Sorted-take zero xs h = tt
  Sorted-take (suc n) [] h = tt
  Sorted-take (suc n) (x ∷ xs) (hx, h) =
      (All-take (λ y. order.le x y ≡ true) n xs hx, Sorted-take n xs h)

  pub Sorted-drop : (n : ℕ) (xs : List A) → Sorted xs → Sorted (drop n xs)
  Sorted-drop zero xs h = h
  Sorted-drop (suc n) [] h = tt
  Sorted-drop (suc n) (x ∷ xs) (hx, h) = Sorted-drop n xs h

-- A coarser order sorts what a finer one does.
pub Sorted-coarser {ℓ} :
    {A : Type ℓ} (fine coarse : Order A) (xs : List A)
    → ((a b : A) → fine.le a b ≡ true → coarse.le a b ≡ true)
    → Sorted fine xs
    → Sorted coarse xs
Sorted-coarser fine coarse [] f h = tt
Sorted-coarser fine coarse (x ∷ xs) f (hx, h) =
    (All-imp (λ y. fine.le x y ≡ true) (λ y. f x y) xs hx, Sorted-coarser fine coarse xs f h)

pub Sorted-map {ℓ κ} :
    {A : Type ℓ} {B : Type κ} (f : B → A) (order : Order A) (xs : List B)
    → Sorted (by f order) xs
    → Sorted order (map f xs)
Sorted-map f order [] h = tt
Sorted-map f order (x ∷ xs) (hx, h) =
    (All-map (λ y. order.le (f x) y ≡ true) f xs hx, Sorted-map f order xs h)
