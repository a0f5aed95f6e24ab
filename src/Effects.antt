-- ===== src/Effects.antt =====
-- Requests as actions on a world: they return or throw, and leave a world either way. The exceptions
-- are those of @nestjs/common and of the Prisma client that the code throws or meets, by the status
-- and message that they carry.
pub mod Keeping
use Prim.Native.String.{String}
use sidequest_demo_be.Common.{
  ℕ, ◌≡◌, refl, ◌⊎◌, inl, inr, ap, arith, Bool, true, false, Option, none, some, if◌then◌else◌,
}

pub data Exception : Type 0 where
  -- `HttpException`, with the `code` of its payload where the code gives one
  http : (status : ℕ) → (code : Option String) → (message : String) → Exception
  -- `PrismaClientKnownRequestError`
  known_request : (code : String) → Exception
  -- `PrismaClientValidationError`
  validation : Exception
  -- any other `Error`
  other : (message : String) → Exception

abbrev pub bad_request : String → Exception
bad_request message = http 400 none message

abbrev pub unauthorized : String → Exception
unauthorized message = http 401 none message

abbrev pub forbidden : String → Exception
forbidden message = http 403 none message

abbrev pub not_found : String → Exception
not_found message = http 404 none message

abbrev pub conflict : String → Exception
conflict message = http 409 none message

-- What the client throws where a unique column would repeat, where a row to refer to is missing, and
-- where a row to change is missing.
abbrev pub unique_violation : Exception
unique_violation = known_request "P2002"

abbrev pub foreign_key_violation : Exception
foreign_key_violation = known_request "P2003"

abbrev pub record_not_found : Exception
record_not_found = known_request "P2025"

pub data Result (A : Type 0) : Type 0 where
  ok : A → Result A
  err : Exception → Result A

abbrev pub Action : Type 0 → Type 0 → Type 0
Action W A = W → Result A × W

module _ {W A : Type 0} where
  abbrev pub pure : A → Action W A
  pure a w = (ok a, w)

  abbrev pub throw : Exception → Action W A
  throw e w = (err e, w)

  abbrev pub gets : (W → A) → Action W A
  gets f w = (ok (f w), w)

  -- `if (!x) throw e`
  abbrev pub or_throw : Option A → Exception → Action W A
  or_throw none e = throw e
  or_throw (some a) e = pure a

  -- A transaction that threw leaves the world in which it began.
  abbrev pub settle : W → Result A × W → Result A × W
  settle w (ok a, w') = (ok a, w')
  settle w (err e, w') = (err e, w)

infixl 5 ◌>>=◌ ◌>>◌
abbrev pub ◌>>=◌ : {W A B : Type 0} → Action W A → (A → Action W B) → Action W B
◌>>=◌ m f w = let (r, w') = m w in elim r [ ok a ↦ f a w' | err e ↦ (err e, w') ]

abbrev pub ◌>>◌ : {W A B : Type 0} → Action W A → Action W B → Action W B
m >> k = m >>= λ _. k

module _ {W : Type 0} where
  -- `if (test) throw e`
  abbrev pub throw_if : Bool → Exception → Action W (Unit {0})
  throw_if test e w = (if test then err e else ok tt, w)

  abbrev pub modify : (W → W) → Action W (Unit {0})
  modify f w = (ok tt, f w)

  abbrev pub when : Bool → Action W (Unit {0}) → Action W (Unit {0})
  when true m = m
  when false m = pure tt

-- `$transaction` of the Prisma client, which `PrismaService.runInTransaction` calls: all writes of
-- the callback are kept, or none where it throws.
pub record Transactions (W : Type 0) : Type 1 where
  pub transaction : (A : Type 0) → Action W A → Action W A
  pub transaction_lem : (A : Type 0) (m : Action W A) (w : W) → transaction A m w ≡ settle w (m w)

-- A world that is put back by hand meets it.
abbrev pub rollback : (W : Type 0) → Transactions W
rollback W = record {
  transaction = λ A m w. settle w (m w);
  transaction_lem = λ A m w i. settle w (m w);
}

module _ {W A B : Type 0} (f : A → Action W B) (w : W) where
  -- An action that returned goes on; one that gives the same result and world can take its place.
  pub bind_ok : (r : Result A × W) {a : A} → r.0 ≡ ok a → ((λ _. r) >>= f) w ≡ f a r.1
  bind_ok (ok x, v) h = ground arith
  bind_ok (err e, v) h = ground arith

  pub bind_same : (m m' : Action W A) → m w ≡ m' w → (m >>= f) w ≡ (m' >>= f) w
  bind_same m m' h = ap (λ (r : Result A × W). ((λ _. r) >>= f) w) h

  -- An action before another leaves the world where it threw, or the other goes on from there.
  pub bind_cases :
      (m : Action W A)
      → (((m >>= f) w).1 ≡ (m w).1) ⊎ ((a : A) × ((m w).0 ≡ ok a) × ((m >>= f) w ≡ f a (m w).1))
  bind_cases m = go (m w)
    where
      go :
          (r : Result A × W)
          → ((((λ _. r) >>= f) w).1 ≡ r.1)
            ⊎ ((a : A) × (r.0 ≡ ok a) × (((λ _. r) >>= f) w ≡ f a r.1))
      go (ok a, v) = inr (a, refl, refl)
      go (err e, v) = inl refl
