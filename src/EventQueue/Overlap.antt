-- ===== src/EventQueue/Overlap.antt =====
-- Two slot callbacks of onEventCpi at once.
use example_liquidity_layer.Prelude.{
  List, Option, Result, [], arith, false, length, none, ok, refl, some, suc, ℕ, ◌+◌, ◌∷◌, ◌≡◌, ◌≤◌,
}
use example_liquidity_layer.ArrayQueue.{ArrayQueue, dequeue, is_empty}
use example_liquidity_layer.ArrayQueue.Refine.{Holds, call-Holds, dequeues, head-Holds, held-size}
use example_liquidity_layer.Buffer.{Bytes}
use example_liquidity_layer.EventQueue.{
  Delivered, InnerInstruction, Unprocessed, deliver, next_turn, resume,
}

next_turn-Holds :
    (c : ℕ) (q : ArrayQueue Unprocessed) (u : Unprocessed) (us : List Unprocessed)
    → Holds c q (u ∷ us)
    → next_turn q ≡ ok (some u)
unfolding next_turn
next_turn-Holds c q u us h = rw (filled q (held-size h), head-Holds q (u ∷ us) h) refl
  where
    filled : (p : ArrayQueue Unprocessed) {n : ℕ} → p.size ≡ suc n → is_empty p ≡ false
    filled p e = unfold is_empty in ground arith

module _ (program_id : ℕ) (decode : Bytes → Result (Option ℕ)) where
  -- Let the queue hold two transactions or more, within its capacity, and let the first have instructions that
  -- are read without an exception. A slot callback awaits the first, hands on its events, takes it from the
  -- queue, and awaits the second. If a second slot callback began while the first awaited, it hands
  -- on the same events again and takes the second transaction from the queue; if the network does not have the second
  -- yet, the first callback then ends, and the queue holds only what came after: the second is lost.
  pub resume_lem :
      (c : ℕ) (q : ArrayQueue Unprocessed) (first second : Unprocessed) (us : List Unprocessed)
      (ixs : List InnerInstruction) (events : List Delivered)
      → Holds c q (first ∷ second ∷ us)
      → length us + 2 ≤ c
      → deliver program_id decode first ixs ≡ (events, none)
      → (left : ArrayQueue Unprocessed) × (gone : ArrayQueue Unprocessed) × (awaits : Result
          (Option Unprocessed))
        × (next_turn q ≡ ok (some first))
        × (resume program_id decode (some (some ixs)) first q ≡ (events, left, ok (some second)))
        × Holds c left (second ∷ us)
        × (resume program_id decode (some (some ixs)) first left ≡ (events, gone, awaits))
        × (resume program_id decode none second gone ≡ ([], gone, ok none))
        × Holds c gone us
  unfolding resume
  resume_lem c q first second us ixs events h room read =
      let holds : Holds c (dequeue q) (second ∷ us) =
        call-Holds c q (first ∷ second ∷ us) dequeues h (omega arith) in
      (
        dequeue q,
        dequeue (dequeue q),
        next_turn (dequeue (dequeue q)),
        next_turn-Holds c q first (second ∷ us) h,
        rw (read, next_turn-Holds c (dequeue q) second us holds) refl,
        holds,
        rw read refl,
        refl,
        call-Holds c (dequeue q) (second ∷ us) dequeues holds (omega arith),
      )
