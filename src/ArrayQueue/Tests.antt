-- ===== src/ArrayQueue/Tests.antt =====
-- Runs of ArrayQueue, and its theorems at concrete histories.
use example_liquidity_layer.Prelude.{List, [], arith, refl, some, ℕ, ◌++◌, ◌+◌, ◌∷◌, ◌≡◌}
use example_liquidity_layer.ArrayQueue.{
  ArrayQueue, dequeue, enqueue, get_slot, head, hole, new_queue, queue_length, value,
}
use example_liquidity_layer.ArrayQueue.Slots.{contents}
use example_liquidity_layer.ArrayQueue.Refine.{
  Call, dequeues, enqueue_full_loses, enqueues, run, run_refines,
}

abbrev history : List (Call ℕ)
history = enqueues 7 ∷ enqueues 8 ∷ dequeues ∷ enqueues 9 ∷ []

abbrev filled : ArrayQueue ℕ
filled = record { items = value 7 ∷ value 8 ∷ []; size = 2; index = 0 }

wraps : contents (run (new_queue ℕ (some 2)) history) ≡ value 8 ∷ value 9 ∷ []
unfolding new_queue enqueue dequeue get_slot
wraps = refl

run_refines_example :
    (contents (run (new_queue ℕ (some 2)) history) ≡ value 8 ∷ value 9 ∷ [])
    × (head (run (new_queue ℕ (some 2)) history) ≡ value 8)
    × (queue_length (run (new_queue ℕ (some 2)) history) ≡ 2)
run_refines_example = run_refines ℕ 2 history (omega arith) (omega arith)

enqueue_full_loses_example :
    (contents (enqueue filled 9) ≡ contents filled ++ hole ∷ [])
    × (queue_length (enqueue filled 9) ≡ queue_length filled + 1)
enqueue_full_loses_example = enqueue_full_loses filled 9 refl
