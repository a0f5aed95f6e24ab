-- ===== src/Store/Rows.antt =====
-- A table as a list of rows. It shows that the laws of `Table` can hold, and serves the tests.
use mathlib.Core.Path.{fun_ext}
use mathlib.Core.Option
use sidequest_demo_be.Common.Sorting.{Order, sum_of, Sorted, sort, All-sort, Sorted-sort, sum-sort}
use sidequest_demo_be.Common.{
  All, ℕ, ◌+◌, ◌≡◌, refl, ap, ◌∙◌, inl, inr, Bool, true, false, not, ◌&&◌, Option, none, some, List,
  [], ◌∷◌, arith, if◌then◌else◌, Bool-cases,
}
use sidequest_demo_be.Store.{Key, Table, weight, change, keep, picked}

apart : {K : Type 0} (key : Key K) (j k : K) → key.same j k ≡ false → key.same k j ≡ false
apart key j k e = ground (arith, key.same_iff j k, key.same_iff k j)

module _ {K Row : Type 0} (key : Key K) where
  abbrev pub find : K → List (K × Row) → Option Row
  find k [] = none
  find k ((j, r) ∷ s) = if key.same j k then some r else find k s

  abbrev pub save : K → Row → List (K × Row) → List (K × Row)
  save k r [] = (k, r) ∷ []
  save k r ((j, q) ∷ s) = if key.same j k then (k, r) ∷ s else (j, q) ∷ save k r s

  abbrev pub remove : K → List (K × Row) → List (K × Row)
  remove k [] = []
  remove k ((j, q) ∷ s) = let rest = remove k s in if key.same j k then rest else (j, q) ∷ rest

  -- A row counts once, so a function is cut off at the keys already met.
  unfoldable pub except : K → (K → Row → ℕ) → K → Row → ℕ
  except k f j r = if key.same k j then 0 else f j r

  abbrev pub total : (K → Row → ℕ) → List (K × Row) → ℕ
  total f [] = 0
  total f ((k, r) ∷ s) = f k r + total (except k f) s

  unfoldable pub unless : K → (K → Row → Bool) → K → Row → Bool
  unless k p j r = not (key.same k j) && p j r

  abbrev pub find_first : (K → Row → Bool) → List (K × Row) → Option (K × Row)
  find_first p [] = none
  find_first p ((k, r) ∷ s) =
      let rest = find_first (unless k p) s in if p k r then some (k, r) else rest

  -- the rows that meet a condition, each key once
  abbrev pub matching : (K → Row → Bool) → List (K × Row) → List (K × Row)
  matching p [] = []
  matching p ((k, r) ∷ s) =
      let rest = matching (unless k p) s in if p k r then (k, r) ∷ rest else rest

  abbrev pub find_many : (K → Row → Bool) → Order (K × Row) → List (K × Row) → List (K × Row)
  find_many p order s = sort order (matching p s)

  abbrev pub update_many : (K → Row → Bool) → (Row → Row) → List (K × Row) → List (K × Row)
  update_many p f [] = []
  update_many p f ((k, r) ∷ s) = (k, change p f k r) ∷ update_many p f s

  abbrev pub delete_many : (K → Row → Bool) → List (K × Row) → List (K × Row)
  delete_many p [] = []
  delete_many p ((k, r) ∷ s) =
      let rest = delete_many p s in if p k r then remove k rest else (k, r) ∷ rest

  pub find-save :
      (j k : K) (r : Row) (s : List (K × Row))
      → find j (save k r s) ≡ (if key.same k j then some r else find j s)
  find-save j k r [] = refl
  find-save j k r ((i, q) ∷ s) =
      ground (arith, key.same_iff i k, key.same_iff k j, key.same_iff i j, find-save j k r s)

  pub find-remove :
      (j k : K) (s : List (K × Row))
      → find j (remove k s) ≡ (if key.same k j then none else find j s)
  find-remove j k [] = ground arith
  find-remove j k ((i, q) ∷ s) =
      ground (arith, key.same_iff i k, key.same_iff k j, key.same_iff i j, find-remove j k s)

  pub find-update_many :
      (k : K) (p : K → Row → Bool) (f : Row → Row) (s : List (K × Row))
      → find k (update_many p f s) ≡ Option.map (change p f k) (find k s)
  find-update_many k p f [] = refl
  find-update_many k p f ((j, r) ∷ s) = ground (arith, key.same_iff j k, find-update_many k p f s)

  pub find-delete_many :
      (k : K) (p : K → Row → Bool) (s : List (K × Row))
      → find k (delete_many p s) ≡ keep p k (find k s)
  find-delete_many k p [] = refl
  find-delete_many k p ((j, r) ∷ s) =
      ground (arith, key.same_iff j k, find-remove k j (delete_many p s), find-delete_many k p s)

  module _ (k : K) (f : K → Row → ℕ) where
    except_same : except k (except k f) ≡ except k f
    unfolding except
    except_same = fun_ext λ i. fun_ext λ r. ground arith

    except_swap : (j : K) → except j (except k f) ≡ except k (except j f)
    unfolding except
    except_swap j = fun_ext λ i. fun_ext λ r. ground arith

    except_self : (r : Row) → except k f k r ≡ 0
    unfolding except
    except_self r = rw ((key.same_iff k k).1 refl)

    except_other : (j : K) (r : Row) → key.same k j ≡ false → except k f j r ≡ f j r
    unfolding except
    except_other j r e = rw e

    weight-except :
        (j : K) (o : Option Row) → key.same k j ≡ false → weight (except k f) j o ≡ weight f j o
    weight-except j none e = refl
    weight-except j (some r) e = except_other j r e

  -- The sum over the other keys, and what the row of the key adds.
  total-except :
      (f : K → Row → ℕ) (k : K) (s : List (K × Row))
      → total (except k f) s + weight f k (find k s) ≡ total f s
  total-except f k [] = refl
  total-except f k ((j, q) ∷ s) = elim (Bool-cases (key.same j k)) [
    | inl e ↦
        let p = (key.same_iff j k).0 e in
        rw e (rw (p, except_self k f q, except_same k f) (omega arith))
    | inr e ↦
        rw (e, except_other k f j q (apart key j k e), except_swap k f j)
          (omega (arith, total-except (except j f) k s, weight-except j f k (find k s) e))
  ]

  total_of_remove :
      (f : K → Row → ℕ) (k : K) (s : List (K × Row)) → total f (remove k s) ≡ total (except k f) s
  total_of_remove f k [] = refl
  total_of_remove f k ((j, q) ∷ s) = elim (Bool-cases (key.same j k)) [
    | inl e ↦
        let p = (key.same_iff j k).0 e in
        rw e (rw (p, except_self k f q, except_same k f) (omega (arith, total_of_remove f k s)))
    | inr e ↦
        rw (e, except_other k f j q (apart key j k e), except_swap k f j)
          (omega (arith, total_of_remove (except j f) k s))
  ]

  total_of_save :
      (f : K → Row → ℕ) (k : K) (r : Row) (s : List (K × Row))
      → total f (save k r s) ≡ total (except k f) s + f k r
  total_of_save f k r [] = omega arith
  total_of_save f k r ((j, q) ∷ s) = elim (Bool-cases (key.same j k)) [
    | inl e ↦
        let p = (key.same_iff j k).0 e in
        rw e (rw (p, except_self k f q, except_same k f) (omega arith))
    | inr e ↦
        rw (e, except_other k f j q (apart key j k e), except_swap k f j)
          (omega (arith, total_of_save (except j f) k r s, except_other j f k r e))
  ]

  pub total-save :
      (f : K → Row → ℕ) (k : K) (r : Row) (s : List (K × Row))
      → total f (save k r s) + weight f k (find k s) ≡ total f s + f k r
  total-save f k r s = omega (arith, total_of_save f k r s, total-except f k s)

  pub total-remove :
      (f : K → Row → ℕ) (k : K) (s : List (K × Row))
      → total f (remove k s) + weight f k (find k s) ≡ total f s
  total-remove f k s = omega (arith, total_of_remove f k s, total-except f k s)

  pub total_zero : (s : List (K × Row)) → total (λ k r. 0) s ≡ 0
  total_zero [] = refl
  total_zero ((k, r) ∷ s) =
      omega (arith, ap (λ (f : K → Row → ℕ). total f s) (except_zero k), total_zero s)
    where
      except_zero : (k : K) → except k (λ j r. 0) ≡ (λ j r. 0)
      except_zero k = unfold except in fun_ext λ j. fun_ext λ r. ground arith

  pub total-update_many :
      (f : K → Row → ℕ) (p : K → Row → Bool) (g : Row → Row) (s : List (K × Row))
      → total f (update_many p g s) ≡ total (λ k r. f k (change p g k r)) s
  unfolding except
  total-update_many f p g [] = refl
  total-update_many f p g ((k, r) ∷ s) =
      ap (λ (n : ℕ). f k (change p g k r) + n) (total-update_many (except k f) p g s)

  pub find_first_sound :
      (p : K → Row → Bool) (s : List (K × Row)) (k : K) (r : Row)
      → find_first p s ≡ some (k, r)
      → (p k r ≡ true) × (find k s ≡ some r)
  unfolding unless
  find_first_sound p [] k r h = ground arith
  find_first_sound p ((j, q) ∷ s) k r h =
      ground (arith, key.same_iff j k, find_first_sound (unless j p) s k r)

  pub find_first_complete :
      (p : K → Row → Bool) (s : List (K × Row)) (k : K) (r : Row)
      → find_first p s ≡ none
      → find k s ≡ some r
      → p k r ≡ false
  unfolding unless
  find_first_complete p [] k r h e = ground arith
  find_first_complete p ((j, q) ∷ s) k r h e =
      ground (arith, key.same_iff j k, find_first_complete (unless j p) s k r)

  -- Among the rows after one of key `k`, the condition keeps to the other keys.
  found_later :
      (p : K → Row → Bool) (k : K) (q : Row) (s : List (K × Row)) (xs : List (K × Row))
      → All (λ e. (unless k p e.0 e.1 ≡ true) × (find e.0 s ≡ some e.1)) xs
      → All (λ e. (p e.0 e.1 ≡ true) × (find e.0 ((k, q) ∷ s) ≡ some e.1)) xs
  unfolding unless
  found_later p k q s [] h = tt
  found_later p k q s ((j, r) ∷ xs) ((h, e), rest) =
      ((ground arith, ground arith), found_later p k q s xs rest)

  matching_sound :
      (p : K → Row → Bool) (s : List (K × Row))
      → All (λ e. (p e.0 e.1 ≡ true) × (find e.0 s ≡ some e.1)) (matching p s)
  matching_sound p [] = tt
  matching_sound p ((k, r) ∷ s) =
      let rest = found_later p k r s (matching (unless k p) s) (matching_sound (unless k p) s) in
      elim (Bool-cases (p k r)) [
        | inl e ↦ rw e ((e, rw ((key.same_iff k k).1 refl) refl), rest)
        | inr e ↦ rw e rest
      ]

  picked-unless :
      (p : K → Row → Bool) (f : K × Row → ℕ) (k : K) → picked (unless k p) f ≡ except k (picked p f)
  unfolding unless except
  picked-unless p f k = fun_ext λ j. fun_ext λ r. ground arith

  matching_sum :
      (f : K × Row → ℕ) (p : K → Row → Bool) (s : List (K × Row))
      → sum_of f (matching p s) ≡ total (picked p f) s
  matching_sum f p [] = refl
  matching_sum f p ((k, r) ∷ s) =
      let rest =
        matching_sum f (unless k p) s ∙ ap (λ (g : K → Row → ℕ). total g s) (picked-unless p f k) in
      elim (Bool-cases (p k r)) [
        | inl e ↦ rw e (omega (arith, rest))
        | inr e ↦ rw e (omega (arith, rest))
      ]

  pub find_many_sound :
      (p : K → Row → Bool) (order : Order (K × Row)) (s : List (K × Row))
      → All (λ e. (p e.0 e.1 ≡ true) × (find e.0 s ≡ some e.1)) (find_many p order s)
  find_many_sound p order s =
      (All-sort order (λ e. (p e.0 e.1 ≡ true) × (find e.0 s ≡ some e.1)) (matching p s)).1
        (matching_sound p s)

  pub find_many_sum :
      (f : K × Row → ℕ) (p : K → Row → Bool) (order : Order (K × Row)) (s : List (K × Row))
      → sum_of f (find_many p order s) ≡ total (picked p f) s
  find_many_sum f p order s = sum-sort order f (matching p s) ∙ matching_sum f p s

  pub find_many-Sorted :
      (p : K → Row → Bool) (order : Order (K × Row)) (s : List (K × Row))
      → Sorted order (find_many p order s)
  find_many-Sorted p order s = Sorted-sort order (matching p s)

  abbrev pub rows : Table key Row
  rows = record {
    State = List (K × Row);
    find = find;
    save = save;
    remove = remove;
    total = total;
    find_first = find_first;
    update_many = update_many;
    delete_many = delete_many;
    find-delete_many = find-delete_many;
    find-save = find-save;
    find-remove = find-remove;
    find-update_many = find-update_many;
    total_zero = total_zero;
    total-update_many = total-update_many;
    total-save = total-save;
    total-remove = total-remove;
    find_first_sound = find_first_sound;
    find_first_complete = find_first_complete;
    find_many = find_many;
    find_many_sound = find_many_sound;
    find_many_sum = find_many_sum;
    find_many-Sorted = find_many-Sorted;
  }
