-- ===== src/ArrayQueue/Refine.antt =====
-- ArrayQueue against a plain queue, over any history of calls.
use mathlib.Core.List.{map-append}
use example_liquidity_layer.Prelude.{
  List, [], ap, arith, length, length-append, length-replicate, map, refl, some, suc, sym, ℕ, ◌++◌,
  ◌+◌, ◌<◌, ◌∙◌, ◌∷◌, ◌≡◌, ◌≤◌,
}
use example_liquidity_layer.ArrayQueue.{
  ArrayQueue, Slot, dequeue, enqueue, head, hole, is_empty, new_queue, null, queue_length, value,
}
use example_liquidity_layer.ArrayQueue.Slots.{IsValid, contents}
use example_liquidity_layer.ArrayQueue.Resize.{
  contents-dequeue, contents-enqueue, contents-enqueue_full, length-slots,
}

pub data Call {ℓ} (A : Type ℓ) : Type ℓ where
  enqueues : A → Call A
  dequeues : Call A

module _ {ℓ} {A : Type ℓ} where
  abbrev pub call : ArrayQueue A → Call A → ArrayQueue A
  call q (enqueues v) = enqueue q v
  call q dequeues = dequeue q

  abbrev pub run : ArrayQueue A → List (Call A) → ArrayQueue A
  run q [] = q
  run q (c ∷ cs) = run (call q c) cs

  -- The plain queue: a list, first in first.
  abbrev pub plain_call : List A → Call A → List A
  plain_call xs (enqueues v) = xs ++ v ∷ []
  plain_call [] dequeues = []
  plain_call (x ∷ xs) dequeues = xs

  abbrev pub plain_run : List A → List (Call A) → List A
  plain_run xs [] = xs
  plain_run xs (c ∷ cs) = plain_run (plain_call xs c) cs

  -- The backlog never passes `capacity`.
  abbrev pub Fits : ℕ → List A → List (Call A) → Type 0
  Fits capacity xs [] = length xs ≤ capacity
  Fits capacity xs (c ∷ cs) = (length xs ≤ capacity) × Fits capacity (plain_call xs c) cs

  abbrev pub plain_head : List A → Slot A
  plain_head [] = null
  plain_head (x ∷ xs) = value x

  -- The circular array holds the values of the plain queue.
  pub record Holds (capacity : ℕ) (q : ArrayQueue A) (xs : List A) : Type ℓ where
    pub valid : IsValid q
    pub cap : length q.items ≡ capacity
    pub held : contents q ≡ map value xs

  pub held-size : {c : ℕ} {q : ArrayQueue A} {xs : List A} → Holds c q xs → q.size ≡ length xs
  held-size {q = q} {xs = xs} h =
      omega (arith, length-slots q.items q.index q.size, ap length h.held, length-map_value xs)
    where
      length-map_value : (ys : List A) → length (map {B = Slot A} value ys) ≡ length ys
      length-map_value [] = refl
      length-map_value (y ∷ ys) = ap suc (length-map_value ys)

  pub call-Holds :
      (c : ℕ) (q : ArrayQueue A) (xs : List A) (op : Call A)
      → Holds c q xs
      → length (plain_call xs op) ≤ c
      → Holds c (call q op) (plain_call xs op)
  call-Holds c q xs (enqueues v) h room =
      let step =
        contents-enqueue q v h.valid
          (omega (arith, held-size h, h.cap, length-append xs (v ∷ []))) in
      record {
        valid = step.2;
        cap = step.1 ∙ h.cap;
        held = step.0 ∙ rw (h.held) (sym (map-append value xs (v ∷ [])));
      }
  call-Holds c q [] dequeues h room = rw (dequeue_nothing q (held-size h)) h
    where
      dequeue_nothing : (p : ArrayQueue A) → p.size ≡ 0 → dequeue p ≡ p
      dequeue_nothing p e = unfold dequeue is_empty in ground arith
  call-Holds c q (x ∷ xs) dequeues h room =
      let step = contents-dequeue q (value x) (map value xs) h.valid h.held in
      record { valid = step.3; cap = ap length step.2 ∙ h.cap; held = step.0 }

  run-Holds :
      (c : ℕ) (cs : List (Call A)) (q : ArrayQueue A) (xs : List A)
      → Holds c q xs
      → Fits c xs cs
      → Holds c (run q cs) (plain_run xs cs)
  run-Holds c [] q xs h fits = h
  run-Holds c (op ∷ []) q xs h fits = call-Holds c q xs op h fits.1
  run-Holds c (op ∷ o ∷ cs) q xs h fits =
      run-Holds c (o ∷ cs) (call q op) (plain_call xs op) (call-Holds c q xs op h fits.1.0) fits.1

  pub head-Holds : {c : ℕ} (q : ArrayQueue A) (xs : List A) → Holds c q xs → head q ≡ plain_head xs
  head-Holds q [] h = empty_head q (held-size h)
    where
      empty_head : (p : ArrayQueue A) → p.size ≡ 0 → head p ≡ null
      empty_head p e = unfold head is_empty in ground arith
  head-Holds q (x ∷ xs) h = (contents-dequeue q (value x) (map value xs) h.valid h.held).1

new_queue-Holds {ℓ} :
    (A : Type ℓ) (capacity : ℕ) → 0 < capacity → Holds capacity (new_queue A (some capacity)) []
unfolding new_queue
new_queue-Holds A capacity pos = record {
  valid = record {
    fits = omega arith;
    in_range = omega (arith, length-replicate {A = Slot A} capacity null);
  };
  cap = length-replicate {A = Slot A} capacity null;
  held = refl;
}

-- While the backlog stays within a positive capacity, a queue made with that capacity answers every
-- history of enqueues and dequeues as a plain first-in-first-out queue: the same values in the same
-- order, the same head (null when empty) and the same length.
pub run_refines {ℓ} :
    (A : Type ℓ) (capacity : ℕ) (cs : List (Call A))
    → 0 < capacity
    → Fits capacity [] cs
    → (contents (run (new_queue A (some capacity)) cs) ≡ map value (plain_run [] cs))
      × (head (run (new_queue A (some capacity)) cs) ≡ plain_head (plain_run [] cs))
      × (queue_length (run (new_queue A (some capacity)) cs) ≡ length (plain_run [] cs))
unfolding queue_length
run_refines A capacity cs pos fits =
    let h = run-Holds capacity cs _ [] (new_queue-Holds A capacity pos) fits in
    (h.held, head-Holds _ _ h, held-size h)

-- The value that is enqueued on a full array is lost: the queue then holds a slot that was never
-- written behind the values it had, and counts it.
pub enqueue_full_loses {ℓ} :
    {A : Type ℓ} (q : ArrayQueue A) (v : A)
    → q.size ≡ length q.items
    → (contents (enqueue q v) ≡ contents q ++ hole ∷ [])
      × (queue_length (enqueue q v) ≡ queue_length q + 1)
unfolding queue_length enqueue
enqueue_full_loses q v full = (contents-enqueue_full q v full, ground arith)
