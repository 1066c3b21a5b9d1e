-- ===== src/Prelude/Results.antt =====
-- Computations that may throw: JavaScript exceptions as values.
use Prim.Native.String.{String}
use mathlib.Core.Path.{◌≡◌, refl}
use mathlib.Core.Logic.{◌⊎◌, inl, inr}
use mathlib.Core.Bool.{Bool, true, false}
use mathlib.Core.Option.{Option, none, some}

-- `error` is a `new Error(message)` of the program; the others are the runtime's.
pub data Error : Type 0 where
  error : String → Error
  range_error type_error : Error

pub data Result {ℓ} (A : Type ℓ) : Type ℓ where
  ok : A → Result A
  throw : Error → Result A

module _ {ℓ} {A : Type ℓ} where
  -- `a ?? b`
  abbrev pub or_else : Option A → A → A
  or_else none b = b
  or_else (some a) b = a

  -- A value that must be there.
  abbrev pub or_throw : Option A → Error → Result A
  or_throw none thrown = throw thrown
  or_throw (some a) thrown = ok a

  pub Result-cases : (r : Result A) → ((a : A) × (r ≡ ok a)) ⊎ ((e : Error) × (r ≡ throw e))
  Result-cases (ok a) = inl (a, refl)
  Result-cases (throw thrown) = inr (thrown, refl)

-- `if (!test) throw thrown;`
abbrev pub guard : Bool → Error → Result (Unit {0})
guard false thrown = throw thrown
guard true thrown = ok tt

module _ {ℓ κ} {A : Type ℓ} {B : Type κ} where
  infixl 5 ◌>>=◌
  -- What follows a statement runs if the statement does not throw.
  abbrev pub ◌>>=◌ : Result A → (A → Result B) → Result B
  throw thrown >>= next = throw thrown
  ok value >>= next = next value

  pub >>=-eq-ok :
      (first : Result A) (next : A → Result B) {result : B}
      → (first >>= next) ≡ ok result
      → (value : A) × (first ≡ ok value) × (next value ≡ ok result)
  >>=-eq-ok (throw thrown) next h = cc
  >>=-eq-ok (ok value) next h = (value, refl, h)

-- The same in the form of an elimination, for long chains.
pub >>=-elim {ℓ κ ι} :
    {A : Type ℓ} {B : Type κ} {C : Type ι} (first : Result A) (next : A → Result B) {result : B}
    → (first >>= next) ≡ ok result
    → ((value : A) → first ≡ ok value → next value ≡ ok result → C)
    → C
>>=-elim (throw thrown) next h k = cc
>>=-elim (ok value) next h k = k value refl h

module _ {ℓ} {B : Type ℓ} where
  infixl 5 ◌>>◌
  abbrev pub ◌>>◌ : Result (Unit {0}) → Result B → Result B
  first >> next = first >>= λ _. next
