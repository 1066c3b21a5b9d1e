-- ===== src/ArrayQueue/Slots.antt =====
-- The slots that a circular array holds from an index on, and what each operation makes of them.
use example_liquidity_layer.Prelude.{
  Bool-cases, List, [], ap, arith, false, get_elem?-set_ne, inl, inr, length, length-set, ltb,
  ltb→lt, refl, set, suc, sym, zero, ℕ, ◌%◌, ◌++◌, ◌+◌, ◌-◌, ◌<◌, ◌∙◌, ◌∷◌, ◌≡◌, ◌≢◌, ◌≤◌, ◌⊎◌,
}
use example_liquidity_layer.ArrayQueue.{ArrayQueue, Slot, get_slot}
use native.Mathlib.Nat.{mod-add-mod, mod-eq_of_lt, mod-eq-sub-mod}

-- An index below two rounds, brought back into the array.
mod_cases : (x m : ℕ) → x < m + m → ((x < m) × (x % m ≡ x)) ⊎ ((m ≤ x) × (x % m + m ≡ x))
mod_cases x m h = elim (Bool-cases (ltb x m)) [
  | inl e ↦ inl (ltb→lt x m e, mod-eq_of_lt (ltb→lt x m e))
  | inr e ↦ inr (not_lt e, back (not_lt e))
]
  where
    not_lt : ltb x m ≡ false → m ≤ x
    not_lt e = ground arith

    back : m ≤ x → x % m + m ≡ x
    back l = omega (arith, mod-eq-sub-mod l, mod-eq_of_lt {n = x - m} {m = m} (omega arith))

-- Two places less than a round apart differ.
pub mod_ne : (i j k m : ℕ) → i < m → j < k → k < m → (i + j) % m ≢ (i + k) % m
mod_ne i j k m hi h l e =
    ground (arith, mod_cases (i + j) m (omega arith), mod_cases (i + k) m (omega arith))

module _ {ℓ} {A : Type ℓ} where
  -- `n` slots from `i` on, round the end of the array.
  abbrev pub slots : List (Slot A) → ℕ → ℕ → List (Slot A)
  slots d i zero = []
  slots d i (suc n) = get_slot d (i % length d) ∷ slots d (i + 1) n

  -- What the queue holds, first in first.
  abbrev pub contents : ArrayQueue A → List (Slot A)
  contents q = slots q.items q.index q.size

  pub record IsValid (q : ArrayQueue A) : Type 0 where
    pub fits : q.size ≤ length q.items
    pub in_range : q.index < length q.items

  pub slots-mod :
      (d : List (Slot A)) (i j n : ℕ) → i % length d ≡ j % length d → slots d i n ≡ slots d j n
  slots-mod d i j zero e = refl
  slots-mod d i j (suc n) e =
      cc (ap (get_slot d) e, slots-mod d (i + 1) (j + 1) n (mod_suc i j (length d) e))
    where
      mod_suc : (a b m : ℕ) → a % m ≡ b % m → (a + 1) % m ≡ (b + 1) % m
      mod_suc a b m e = rw (← mod-add-mod a m 1, ← mod-add-mod b m 1, e) refl

  pub slots-set_ne :
      (d : List (Slot A)) (i n p : ℕ) (s : Slot A)
      → ((j : ℕ) → j < n → (i + j) % length d ≢ p)
      → slots (set d p s) i n ≡ slots d i n
  unfolding get_slot
  slots-set_ne d i zero p s h = refl
  slots-set_ne d i (suc n) p s h = ground (
    arith,
    length-set d p s,
    get_elem?-set_ne d p (i % length d) s
        (λ e. h 0 (omega arith) (ap (λ k. k % length d) (omega arith) ∙ sym e)),
    slots-set_ne d (i + 1) n p s (λ j l e. h (suc j) (omega arith) (shift j e)),
  )
    where
      shift : (j : ℕ) → (i + 1 + j) % length d ≡ p → (i + suc j) % length d ≡ p
      shift j e = ap (λ k. k % length d) (omega arith) ∙ e

  pub slots_snoc :
      (d : List (Slot A)) (i n : ℕ)
      → slots d i (suc n) ≡ slots d i n ++ get_slot d ((i + n) % length d) ∷ []
  slots_snoc d i zero = ap (λ k. get_slot d (k % length d) ∷ []) (omega arith)
  slots_snoc d i (suc n) = ap (◌∷◌ (get_slot d (i % length d))) (slots_snoc d (i + 1) n ∙ last)
    where
      last :
          slots d (i + 1) n ++ get_slot d ((i + 1 + n) % length d) ∷ []
          ≡ slots d (i + 1) n ++ get_slot d ((i + suc n) % length d) ∷ []
      last = ap (λ k. slots d (i + 1) n ++ get_slot d (k % length d) ∷ []) (omega arith)
