-- ===== src/Solver/Evm/Index.antt =====
-- Which log is found.

use example_liquidity_layer.Prelude.{
  ==_iff, Bool-cases, List, Option, Result-cases, [], ap, arith, inl, inr, none, ok, some, subst, ℕ,
  ◌+◌, ◌==◌, ◌∙◌, ◌∷◌, ◌≡◌,
}
use example_liquidity_layer.Solver.Evm.{Log, find_from, find_wormhole_message_index}

-- A message of the core bridge with the sequence.
abbrev pub IsMessage : ℕ → ℕ → Log → Type 0
IsMessage core sequence log = (log.address ≡ core) × (log.sequence ≡ ok sequence)

module _ (core sequence : ℕ) where
  -- The index of the first log that is one, if there is one.
  pub data Found : List Log → Option ℕ → Type 0 where
    nowhere : Found [] none
    here : {log : Log} {logs : List Log} → IsMessage core sequence log → Found (log ∷ logs) (some 0)
    none_there :
        {log : Log} {logs : List Log}
        → ¬ IsMessage core sequence log
        → Found logs none
        → Found (log ∷ logs) none
    there :
        {log : Log} {logs : List Log} {i : ℕ}
        → ¬ IsMessage core sequence log
        → Found logs (some i)
        → Found (log ∷ logs) (some (1 + i))

  -- The same for a loop that starts to count at `start`.
  abbrev FoundFrom : ℕ → List Log → Option ℕ → Type 0
  FoundFrom start logs none = Found logs none
  FoundFrom start logs (some j) = (i : ℕ) × (j ≡ start + i) × Found logs (some i)

  skip :
      (start : ℕ) (log : Log) (logs : List Log) (r : Option ℕ)
      → ¬ IsMessage core sequence log
      → FoundFrom (start + 1) logs r
      → FoundFrom start (log ∷ logs) r
  skip start log logs none other found = none_there other found
  skip start log logs (some j) other (i, e, found) = (1 + i, omega (arith, e), there other found)

  find_from_lem :
      (start : ℕ) (logs : List Log) (r : Option ℕ)
      → find_from start logs core sequence ≡ ok r
      → FoundFrom start logs r
  unfolding find_from
  find_from_lem start [] r h = let same : none ≡ r = cc in subst (FoundFrom start []) same nowhere
  find_from_lem start (log ∷ logs) r h = elim (Bool-cases (log.address == core)) [
    | inr n ↦
        skip start log logs r (λ (at, _). cc ((==_iff log.address core).1 at, n))
          (find_from_lem (start + 1) logs r (rw n at h))
    | inl here_at ↦ elim (Result-cases log.sequence) [
      | inr (e, thrown) ↦ absurd (cc (rw (here_at, thrown) at h))
      | inl (s, parsed) ↦ elim (Bool-cases (s == sequence)) [
        | inr n ↦
            skip start log logs r
              (λ (_, is).
                let same : s ≡ sequence = cc (parsed, is) in cc ((==_iff s sequence).1 same, n))
              (find_from_lem (start + 1) logs r (rw (here_at, parsed, n) at h))
        | inl e ↦
            let same : some start ≡ r = cc (rw (here_at, parsed, e) at h) in
            subst (FoundFrom start (log ∷ logs)) same (
              0,
              omega arith,
              here ((==_iff log.address core).0 here_at, parsed ∙ ap ok ((==_iff s sequence).0 e)),
            )
      ]
    ]
  ]

  -- Where the search answers, it is with the index of the first log of the core bridge that has the
  -- sequence, or with nothing if no log is one.
  pub find_wormhole_message_index_lem :
      (logs : List Log) (r : Option ℕ)
      → find_wormhole_message_index logs core sequence ≡ ok r
      → Found logs r
  unfolding find_wormhole_message_index
  find_wormhole_message_index_lem logs none h = find_from_lem 0 logs none h
  find_wormhole_message_index_lem logs (some j) h =
      let (i, e, found) = find_from_lem 0 logs (some j) h in
      subst (λ k. Found logs (some k)) (omega (arith, e)) found
