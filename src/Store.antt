-- ===== src/Store.antt =====
-- The database as the services see it. The Prisma client and PostgreSQL are not part of the
-- repository, so a table is a parameter: a record of the client's calls with what its documentation
-- says of them. `Store/Rows.antt` has a list of rows that meets all of it.
pub mod Rows
pub mod Paging
use mathlib.Core.Option
use sidequest_demo_be.Common.Sorting.{Order, sum_of, Sorted, length_sum, sum_any}
use sidequest_demo_be.Common.{
  List, length, any, All, Bool-cases, inl, inr, ℕ, ◌+◌, ◌≡◌, ◌∙◌, ◌≢◌, ◌↔◌, refl, Bool, true, false,
  ◌&&◌, Option, none, some, arith, ◌==◌, if◌then◌else◌,
}

-- What a unique key is compared by.
pub record Key (K : Type 0) : Type 0 where
  pub same : K → K → Bool
  pub same_iff : (a b : K) → (same a b ≡ true) ↔ (a ≡ b)

pub id_same_iff : (a b : ℕ) → ((a == b) ≡ true) ↔ (a ≡ b)
id_same_iff a b = ground arith

-- `@id`
abbrev pub id_key : Key ℕ
id_key = record { same = λ a b. a == b; same_iff = id_same_iff }

abbrev pub pair_same : ℕ × ℕ → ℕ × ℕ → Bool
pair_same (a, b) (c, d) = a == c && b == d

pub pair_same_iff : (a b : ℕ × ℕ) → (pair_same a b ≡ true) ↔ (a ≡ b)
pair_same_iff (a, b) (c, d) = ground arith

-- `@@unique([a, b])`
abbrev pub pair_key : Key (ℕ × ℕ)
pair_key = record { same = pair_same; same_iff = pair_same_iff }

abbrev pub weight : {K Row : Type 0} → (K → Row → ℕ) → K → Option Row → ℕ
weight f k none = 0
weight f k (some r) = f k r

abbrev pub change : {K Row : Type 0} → (K → Row → Bool) → (Row → Row) → K → Row → Row
change p f k r = if p k r then f r else r

abbrev pub keep : {K Row : Type 0} → (K → Row → Bool) → K → Option Row → Option Row
keep p k none = none
keep p k (some r) = if p k r then none else some r

-- A sum over the rows that meet a condition, and their number.
abbrev pub picked : {K Row : Type 0} → (K → Row → Bool) → (K × Row → ℕ) → K → Row → ℕ
picked p f k r = if p k r then f (k, r) else 0

abbrev pub counted : {K Row : Type 0} → (K → Row → Bool) → K → Row → ℕ
counted p = picked p (λ e. 1)

-- One table, with the rows under one of its unique keys. `find` is `findUnique`; `save` is what
-- `create`, `update` and `upsert` leave under the key; `remove` is `delete` and `deleteMany` by the
-- key; `total` is `count` and the sums of `aggregate`; `find_first` is `findFirst`, with the row's
-- key; `update_many` is `updateMany`, and
-- `delete_many` `deleteMany`. `find_many` is `findMany` of the rows that meet a condition, in an order.
pub record Table {K : Type 0} (key : Key K) (Row : Type 0) : Type 1 where
  pub State : Type 0
  pub find : K → State → Option Row
  pub save : K → Row → State → State
  pub remove : K → State → State
  pub total : (K → Row → ℕ) → State → ℕ
  pub find_first : (K → Row → Bool) → State → Option (K × Row)
  pub update_many : (K → Row → Bool) → (Row → Row) → State → State
  pub delete_many : (K → Row → Bool) → State → State
  pub find_many : (K → Row → Bool) → Order (K × Row) → State → List (K × Row)
  pub find-save :
      (j k : K) (r : Row) (s : State)
      → find j (save k r s) ≡ (if key.same k j then some r else find j s)
  pub find-remove :
      (j k : K) (s : State) → find j (remove k s) ≡ (if key.same k j then none else find j s)
  pub find-update_many :
      (k : K) (p : K → Row → Bool) (f : Row → Row) (s : State)
      → find k (update_many p f s) ≡ Option.map (change p f k) (find k s)
  pub find-delete_many :
      (k : K) (p : K → Row → Bool) (s : State) → find k (delete_many p s) ≡ keep p k (find k s)
  pub total_zero : (s : State) → total (λ k r. 0) s ≡ 0
  pub total-update_many :
      (f : K → Row → ℕ) (p : K → Row → Bool) (g : Row → Row) (s : State)
      → total f (update_many p g s) ≡ total (λ k r. f k (change p g k r)) s
  pub total-save :
      (f : K → Row → ℕ) (k : K) (r : Row) (s : State)
      → total f (save k r s) + weight f k (find k s) ≡ total f s + f k r
  pub total-remove :
      (f : K → Row → ℕ) (k : K) (s : State)
      → total f (remove k s) + weight f k (find k s) ≡ total f s
  pub find_first_sound :
      (p : K → Row → Bool) (s : State) (k : K) (r : Row)
      → find_first p s ≡ some (k, r)
      → (p k r ≡ true) × (find k s ≡ some r)
  pub find_first_complete :
      (p : K → Row → Bool) (s : State) (k : K) (r : Row)
      → find_first p s ≡ none
      → find k s ≡ some r
      → p k r ≡ false
  pub find_many_sound :
      (p : K → Row → Bool) (order : Order (K × Row)) (s : State)
      → All (λ e. (p e.0 e.1 ≡ true) × (find e.0 s ≡ some e.1)) (find_many p order s)
  pub find_many_sum :
      (f : K × Row → ℕ) (p : K → Row → Bool) (order : Order (K × Row)) (s : State)
      → sum_of f (find_many p order s) ≡ total (picked p f) s
  pub find_many-Sorted :
      (p : K → Row → Bool) (order : Order (K × Row)) (s : State)
      → Sorted order (find_many p order s)

module _ {K Row : Type 0} {key : Key K} (table : Table key Row) where
  pub find-save_self :
      (k : K) (r : Row) (s : table.State) → table.find k (table.save k r s) ≡ some r
  find-save_self k r s = rw (table.find-save k k r s, (key.same_iff k k).1 refl)

  pub find-save_ne :
      (j k : K) (r : Row) (s : table.State)
      → j ≢ k
      → table.find j (table.save k r s) ≡ table.find j s
  find-save_ne j k r s h = ground (arith, table.find-save j k r s, key.same_iff k j)

  pub find-remove_self : (k : K) (s : table.State) → table.find k (table.remove k s) ≡ none
  find-remove_self k s = rw (table.find-remove k k s, (key.same_iff k k).1 refl)

  pub find-remove_ne :
      (j k : K) (s : table.State) → j ≢ k → table.find j (table.remove k s) ≡ table.find j s
  find-remove_ne j k s h = ground (arith, table.find-remove j k s, key.same_iff k j)

  pub saved_row :
      (k : K) {r r' : Row} (s : table.State) → table.find k (table.save k r s) ≡ some r' → r' ≡ r
  saved_row k {r} s h = cc (find-save_self k r s)

  -- as many rows as the count of the same condition says
  pub length-find_many :
      (p : K → Row → Bool) (order : Order (K × Row)) (s : table.State)
      → length (table.find_many p order s) ≡ table.total (counted p) s
  length-find_many p order s =
      length_sum (table.find_many p order s) ∙ table.find_many_sum (λ e. 1) p order s

  -- A row that meets the condition is among those found.
  pub find_many_complete :
      (p : K → Row → Bool) (order : Order (K × Row)) (q : K × Row → Bool) (k : K) (r : Row)
      (s : table.State)
      → table.find k s ≡ some r
      → p k r ≡ true
      → q (k, r) ≡ true
      → any q (table.find_many p order s) ≡ true
  find_many_complete p order q k r s found meets is =
      let f : K × Row → ℕ = λ e. if q e then 1 else 0 in
      elim (Bool-cases (any q (table.find_many p order s))) [
        | inl h ↦ h
        | inr h ↦ absurd (
            ground (
              arith,
              sum_any q (table.find_many p order s) h,
              table.find_many_sum f p order s,
              table.total-remove (picked p f) k s,
            ))
      ]
