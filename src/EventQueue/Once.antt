-- ===== src/EventQueue/Once.antt =====
-- The log callback of onEventCpi over a sequence of logs.
use example_liquidity_layer.Prelude.{
  ==_iff, Bool, Bool-cases, List, [], arith, inl, inr, or_else, refl, true, ℕ, ◌++◌, ◌==◌, ◌||◌,
  ◌∷◌, ◌≡◌,
}
use example_liquidity_layer.Prelude.Maps.{get, get-put, int_key, nat_key, put}
use example_liquidity_layer.EventQueue.{Observer, contains, on_logs}

abbrev pub run_logs : List (ℕ × ℕ) → Observer → Observer
run_logs [] o = o
run_logs ((signature, event_slot) ∷ logs) o = run_logs logs (on_logs signature event_slot o)

contains-append :
    (xs ys : List ℕ) (s : ℕ) → contains (xs ++ ys) s ≡ (contains xs s || contains ys s)
unfolding contains
contains-append [] ys s = refl
contains-append (x ∷ xs) ys s = ground (arith, contains-append xs ys s)

contains_last : (xs : List ℕ) (s : ℕ) → contains (xs ++ s ∷ []) s ≡ true
unfolding contains
contains_last [] s = ground arith
contains_last (x ∷ xs) s = ground (arith, contains_last xs s)

abbrev seen : ℕ → ℕ → Observer → Bool
seen s e o = contains (or_else (get e o.observed_txs) []) s

seen-on_logs : (s e : ℕ) (o : Observer) → seen s e (on_logs s e o) ≡ true
unfolding on_logs
seen-on_logs s e o =
    let observed = or_else (get e o.observed_txs) [] in
    elim (Bool-cases (seen s e o)) [
      | inl t ↦ rw (t, get-put e e observed o.observed_txs) (ground (arith, t))
      | inr n ↦
          rw (n, get-put e e (observed ++ s ∷ []) o.observed_txs)
            (ground (arith, contains_last observed s))
    ]

seen_put :
    (s e f : ℕ) (w : List ℕ) (m : List (ℕ × List ℕ))
    → contains (or_else (get e m) []) s ≡ true
    → (f ≡ e → contains w s ≡ true)
    → contains (or_else (get e (put f w m)) []) s ≡ true
seen_put s e f w m h k = elim (Bool-cases (f == e)) [
  | inl t ↦ rw (get-put f e w m, t) (k ((==_iff f e).0 t))
  | inr n ↦ rw (get-put f e w m, n) h
]

seen_still : (s e t f : ℕ) (o : Observer) → seen s e o ≡ true → seen s e (on_logs t f o) ≡ true
unfolding on_logs
seen_still s e t f o h =
    let observed = or_else (get f o.observed_txs) [] in
    elim (Bool-cases (seen t f o)) [
      | inl y ↦ rw y (seen_put s e f observed o.observed_txs h (λ p. same_slot p))
      | inr n ↦ rw n (
          seen_put s e f (observed ++ t ∷ []) o.observed_txs h
            (λ p. ground (arith, contains-append observed (t ∷ []) s, same_slot p)))
    ]
  where
    same_slot : f ≡ e → seen s f o ≡ true
    same_slot p = rw p h

seen_on :
    (s e : ℕ) (logs : List (ℕ × ℕ)) (o : Observer)
    → seen s e o ≡ true
    → seen s e (run_logs logs o) ≡ true
seen_on s e [] o h = h
seen_on s e ((t, f) ∷ logs) o h = seen_on s e logs (on_logs t f o) (seen_still s e t f o h)

-- Whatever logs come between, a second log of a transaction in the same slot queues nothing.
pub on_logs_once :
    (s e : ℕ) (logs : List (ℕ × ℕ)) (o : Observer)
    → (on_logs s e (run_logs logs (on_logs s e o))).unprocessed_txs
      ≡ (run_logs logs (on_logs s e o)).unprocessed_txs
on_logs_once s e logs o =
    queues_nothing (run_logs logs (on_logs s e o))
      (seen_on s e logs (on_logs s e o) (seen-on_logs s e o))
  where
    queues_nothing :
        (p : Observer) → seen s e p ≡ true → (on_logs s e p).unprocessed_txs ≡ p.unprocessed_txs
    queues_nothing p h = unfold on_logs in rw h refl
