-- ===== src/SlotAuctions/Tests.antt =====
-- Runs of SlotOrderedAuctions, and its theorems at concrete slots.

use example_liquidity_layer.Prelude.{
  All, Bool, List, [], arith, false, if◌then◌else◌, none, ok, refl, some, true, ℕ, ◌+◌, ◌∷◌, ◌≡◌,
  ◌≤◌,
}
use example_liquidity_layer.Prelude.Int.{pos, pos_part, ℤ}
use example_liquidity_layer.Prelude.Maps.{get, int_key, nat_key}
use example_liquidity_layer.Uint64.{number}
use example_liquidity_layer.SlotAuctions.{
  AuctionDetails, Due, SlotOrderedAuctions, add_at, decimal, dequeue, empty_auctions, head_slot,
  insert_slot, is_due, keep_due, slot_text, sort_slots, text_lt,
}
use example_liquidity_layer.SlotAuctions.Order.{IsSorted}
use example_liquidity_layer.SlotAuctions.Listener.{
  AuctionUpdated, Event, finds, on_slot_change, slot_changed, updated,
}
use example_liquidity_layer.SlotAuctions.History.{
  history_is_ordered, later_slot_comes_first, run_events,
}
use example_liquidity_layer.SlotAuctions.Dequeue.{Picked, dequeue_lem, due_of}

-- Slots 1000 and 999 by their strings.
sorted_by_text : sort_slots (pos 999 ∷ pos 1000 ∷ pos 24 ∷ []) ≡ pos 1000 ∷ pos 24 ∷ pos 999 ∷ []
unfolding sort_slots insert_slot slot_text decimal text_lt
sorted_by_text = refl

abbrev started : ℕ → ℕ → AuctionUpdated
started auction end_slot = record {
  auction = auction;
  vaa = some (auction + 100);
  best_offer_token = 5;
  end_slot = pos end_slot;
}

abbrev events : List Event
events =
    updated (started 1 330)
    ∷ updated (started 2 320)
    ∷ slot_changed (pos 321)
    ∷ updated (started 3 340)
    ∷ []

history_is_ordered_example :
    (due : List Due) × (t : SlotOrderedAuctions) × (run_events (5 ∷ []) empty_auctions events
      ≡ ok (due, t))
    × IsSorted t.slots
    × ((head : ℤ) → head_slot t ≡ some head → All (λ x. pos_part head ≤ pos_part x) t.slots)
history_is_ordered_example = history_is_ordered 2 (5 ∷ []) events (
  (330, refl, omega arith, omega arith),
  ((320, refl, omega arith, omega arith), (tt, ((340, refl, omega arith, omega arith), tt))),
)

later_slot_comes_first_example :
    (s t : SlotOrderedAuctions) × (add_at empty_auctions (pos 999) 1 101 true ≡ ok s)
    × (add_at s (pos 1000) 2 102 true ≡ ok t)
    × (head_slot t ≡ some (pos 1000))
    × (on_slot_change t (number (pos 999)) ≡ ok ([], t))
later_slot_comes_first_example =
    later_slot_comes_first 2 3 999 1000 1 2 101 102 true true (omega arith) (omega arith)
      (omega arith) (omega arith)

abbrev details : Bool → AuctionDetails
details execute = record { slot = pos 331; fast_vaa = 101; execute = execute }

abbrev two_auctions : SlotOrderedAuctions
two_auctions = record {
  slots = pos 331 ∷ [];
  auctions_per_slot = (pos 331, 1 ∷ 2 ∷ []) ∷ [];
  auctions = (1, details false) ∷ (2, details true) ∷ [];
}

dequeue_lem_example :
    (due : List Due) × (t : SlotOrderedAuctions) × (dequeue two_auctions ≡ ok (due, t))
    × Picked two_auctions.auctions (1 ∷ 2 ∷ []) due
    × (t.slots ≡ [])
    × ((j : ℕ)
        → get j t.auctions ≡ (if finds j (1 ∷ 2 ∷ []) then none else get j two_auctions.auctions))
unfolding finds get
dequeue_lem_example =
    dequeue_lem two_auctions (pos 331) [] (1 ∷ 2 ∷ []) refl refl (refl, (refl, tt))

keeps_the_second :
    keep_due (due_of two_auctions.auctions (1 ∷ 2 ∷ []))
    ≡ record { auction = 2; details = some (details true) } ∷ []
unfolding keep_due is_due get
keeps_the_second = refl
