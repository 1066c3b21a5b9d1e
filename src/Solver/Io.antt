-- ===== src/Solver/Io.antt =====
-- Asynchronous code that talks to the network: it takes the state of the world, and gives a result or
-- an exception together with the state that it leaves.
use example_liquidity_layer.Prelude.{Error, Result, ok, throw, refl, ◌≡◌}

abbrev pub Io {ℓ} : Type ℓ → Type ℓ → Type ℓ
Io W A = W → Result A × W

module _ {ℓ} {W A : Type ℓ} where
  abbrev pub return : A → Io W A
  return a w = (ok a, w)

  abbrev pub fail : Error → Io W A
  fail e w = (throw e, w)

  abbrev pub lift : Result A → Io W A
  lift r w = (r, w)

  -- `.catch(handler)`
  abbrev pub caught : Result A × W → (Error → Io W A) → Result A × W
  caught (ok a, w) handler = (ok a, w)
  caught (throw e, w) handler = handler e w

  abbrev pub catch : Io W A → (Error → Io W A) → Io W A
  catch m handler w = caught (m w) handler

module _ {ℓ} {W A B : Type ℓ} where
  abbrev pub continue : Result A × W → (A → Io W B) → Result B × W
  continue (ok a, w) f = f a w
  continue (throw e, w) f = (throw e, w)

  infixl 5 ◌>>=◌ ◌>>◌
  abbrev pub ◌>>=◌ : Io W A → (A → Io W B) → Io W B
  (m >>= f) w = continue (m w) f

  abbrev pub ◌>>◌ : Io W A → Io W B → Io W B
  m >> k = m >>= λ _. k

  -- Where a computation gives a result, its first step did.
  pub continue-eq-ok :
      (r : Result A × W) (f : A → Io W B) {b : B} {w' : W}
      → continue r f ≡ (ok b, w')
      → (a : A) × (w : W) × (r ≡ (ok a, w)) × (f a w ≡ (ok b, w'))
  continue-eq-ok (ok a, w) f h = (a, w, refl, h)
  continue-eq-ok (throw e, w) f h = cc

  -- The same for a first step that touches nothing.
  pub lift-eq-ok :
      (r : Result A) (w : W) (f : A → Io W B) {b : B} {w' : W}
      → continue (lift r w) f ≡ (ok b, w')
      → (a : A) × (r ≡ ok a) × (f a w ≡ (ok b, w'))
  lift-eq-ok (ok a) w f h = (a, refl, h)
  lift-eq-ok (throw e) w f h = cc
