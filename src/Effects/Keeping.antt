-- ===== src/Effects/Keeping.antt =====
-- Invariants of actions: what holds of a world before an action holds after it, whether it returned
-- or threw. An action made of steps keeps what its steps keep.
use sidequest_demo_be.Common.{Bool, true, false, Option, none, some, inl, inr}
use sidequest_demo_be.Effects.{
  Exception, Result, ok, err, Action, or_throw, when, settle, ◌>>=◌, bind_cases, Transactions,
}

module _ {W : Type 0} (P : W → Type 0) where
  abbrev pub Keeps : {A : Type 0} → Action W A → Type 0
  Keeps m = (w : W) → P w → P (m w).1

  pub bind-Keeps :
      {A B : Type 0} (m : Action W A) (f : A → Action W B)
      → Keeps m
      → ((a : A) → Keeps (f a))
      → Keeps (m >>= f)
  bind-Keeps m f first next w h = elim (bind_cases f w m) [
    | inl e ↦ rw e (first w h)
    | inr (a, returned, e) ↦ rw e (next a (m w).1 (first w h))
  ]

  pub or_throw-Keeps : {A : Type 0} (o : Option A) (e : Exception) → Keeps (or_throw o e)
  or_throw-Keeps none e w h = h
  or_throw-Keeps (some a) e w h = h

  pub when-Keeps : (test : Bool) (m : Action W (Unit {0})) → Keeps m → Keeps (when test m)
  when-Keeps true m kept w h = kept w h
  when-Keeps false m kept w h = h

  pub transaction-Keeps :
      (tx : Transactions W) {A : Type 0} (m : Action W A) → Keeps m → Keeps (tx.transaction A m)
  transaction-Keeps tx {A} m kept w h = rw (tx.transaction_lem A m w) (settled (m w) (kept w h))
    where
      settled : (r : Result A × W) → P r.1 → P (settle w r).1
      settled (ok a, w') k = k
      settled (err e, w') k = h
