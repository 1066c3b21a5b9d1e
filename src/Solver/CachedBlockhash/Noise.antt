-- ===== src/Solver/CachedBlockhash/Noise.antt =====
-- That the noise makes the fees for one blockhash different.

use example_liquidity_layer.Prelude.{
  All, All-map, List, String, [], ap, arith, subst, sym, true, ℕ, ◌+◌, ◌∷◌, ◌≡◌, ◌≢◌,
}
use example_liquidity_layer.Prelude.Int.{lt_ℤ, negsuc, pos, ℤ, ◌+ℤ◌}
use example_liquidity_layer.Solver.CachedBlockhash.{
  CachedBlockhash, Reached, add_noise, adds_noise, answers, fails, on_answer, on_slot_change,
  slot_changes, starts,
}

-- No two entries are equal.
abbrev pub IsDistinct {ℓ} : {A : Type ℓ} → List A → Type ℓ
IsDistinct [] = Unit
IsDistinct (x ∷ xs) = All (λ y. x ≢ y) xs × IsDistinct xs

lt_ℤ-irrefl : (x : ℤ) → lt_ℤ x x ≡ true → ⊥
unfolding lt_ℤ
lt_ℤ-irrefl (pos n) h = ground arith
lt_ℤ-irrefl (negsuc n) h = ground arith

lt_ℤ-next : (value : ℤ) (n : ℕ) → lt_ℤ (value +ℤ pos n) (value +ℤ pos (n + 1)) ≡ true
unfolding lt_ℤ ◌+ℤ◌
lt_ℤ-next (pos m) n = ground arith
lt_ℤ-next (negsuc m) n = ground arith

lt_ℤ-later :
    (x value : ℤ) (n : ℕ) → lt_ℤ x (value +ℤ pos n) ≡ true → lt_ℤ x (value +ℤ pos (n + 1)) ≡ true
unfolding lt_ℤ ◌+ℤ◌
lt_ℤ-later (pos k) (pos m) n h = ground arith
lt_ℤ-later (pos k) (negsuc m) n h = ground arith
lt_ℤ-later (negsuc k) (pos m) n h = ground arith
lt_ℤ-later (negsuc k) (negsuc m) n h = ground arith

-- A fee handed out for the cached blockhash is below the next one.
abbrev Below : ℤ → CachedBlockhash → String × ℤ → Type 0
Below value c e = e.0 ≡ c.cached.blockhash → lt_ℤ (e.1) (value +ℤ pos c.noise) ≡ true

module _ {frequency : ℕ} {value : ℤ} where
  -- What holds of all fetched blockhashes holds of the cached one and of those that were handed out.
  given-All :
      (P : String → Type 0) {given : List (String × ℤ)} {hashes : List String} {c : CachedBlockhash}
      → Reached frequency value given hashes c
      → All P hashes
      → P c.cached.blockhash × All (λ (e : String × ℤ). P (e.0)) given
  unfolding on_slot_change on_answer add_noise
  given-All P (starts b) h = (h.0, tt)
  given-All P (slot_changes given hashes c slot r) h = given-All P r h
  given-All P (answers given hashes c b pending r) h = (h.0, (given-All P r (h.1)).1)
  given-All P (fails given hashes c e pending r) h = given-All P r h
  given-All P (adds_noise given hashes c r) h =
      let (cached, others) = given-All P r h in (cached, (cached, others))

  given-Below :
      {given : List (String × ℤ)} {hashes : List String} {c : CachedBlockhash}
      → Reached frequency value given hashes c
      → IsDistinct hashes
      → All (Below value c) given
  unfolding on_slot_change on_answer add_noise
  given-Below (starts b) d = tt
  given-Below (slot_changes given hashes c slot r) d = given-Below r d
  given-Below (answers given hashes c b pending r) d =
      All-map given (λ e apart same. absurd (apart (sym same)))
        ((given-All (λ h. b.blockhash ≢ h) r (d.0)).1)
  given-Below (fails given hashes c e pending r) d = given-Below r d
  given-Below (adds_noise given hashes c r) d = (
    λ same. lt_ℤ-next value c.noise,
    All-map given (λ e below same. lt_ℤ-later (e.1) value c.noise (below same)) (given-Below r d),
  )

  -- In every run in which the fetched blockhashes are different, no fee is handed out twice for the same
  -- blockhash, however often the noise is added to one value: no two pairs of a blockhash and a fee are equal.
  pub given-IsDistinct :
      {given : List (String × ℤ)} {hashes : List String} {c : CachedBlockhash}
      → Reached frequency value given hashes c
      → IsDistinct hashes
      → IsDistinct given
  unfolding on_slot_change on_answer add_noise
  given-IsDistinct (starts b) d = tt
  given-IsDistinct (slot_changes given hashes c slot r) d = given-IsDistinct r d
  given-IsDistinct (answers given hashes c b pending r) d = given-IsDistinct r (d.1)
  given-IsDistinct (fails given hashes c e pending r) d = given-IsDistinct r d
  given-IsDistinct (adds_noise given hashes c r) d = (
    All-map given
        (λ e below same. lt_ℤ-irrefl (e.1) (
          subst (λ f. lt_ℤ (e.1) f ≡ true) (ap (λ x. x.1) same) (below (sym (ap (λ x. x.0) same)))))
        (given-Below r d),
    given-IsDistinct r d,
  )
