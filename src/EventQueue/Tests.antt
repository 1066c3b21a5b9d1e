-- ===== src/EventQueue/Tests.antt =====
-- Two slot changes of the event listener at a concrete queue.
use example_liquidity_layer.Prelude.{
  Result, List, Option, [], arith, none, ok, refl, some, ℕ, ◌++◌, ◌∷◌, ◌≡◌,
}
use example_liquidity_layer.ArrayQueue.{ArrayQueue, get_slot, value}
use example_liquidity_layer.ArrayQueue.Refine.{Holds}
use example_liquidity_layer.AuctionHistory.{bytes_equal}
use example_liquidity_layer.Buffer.{Bytes, subarray}
use example_liquidity_layer.EventQueue.{
  Delivered, InnerInstruction, Unprocessed, cpi_event_ix_selector, deliver, next_turn, resume,
}
use example_liquidity_layer.EventQueue.Overlap.{resume_lem}

abbrev first_tx : Unprocessed
first_tx = record { signature = 5; event_slot = 100 }

abbrev second_tx : Unprocessed
second_tx = record { signature = 6; event_slot = 101 }

abbrev queue : ArrayQueue Unprocessed
queue = record { items = value first_tx ∷ value second_tx ∷ []; size = 2; index = 0 }

-- The event is the byte behind the selector.
abbrev decode_byte : Bytes → Result (Option ℕ)
decode_byte [] = ok none
decode_byte (b ∷ bs) = ok (some b)

abbrev instructions : List InnerInstruction
instructions =
    record { program_id = 1; contents = some (cpi_event_ix_selector ++ 77 ∷ []) }
    ∷ record { program_id = 2; contents = some (cpi_event_ix_selector ++ 78 ∷ []) }
    ∷ record { program_id = 1; contents = none }
    ∷ []

abbrev events : List Delivered
events = record { event = 77; event_slot = 100; signature = 5 } ∷ []

queue-Holds : Holds 2 queue (first_tx ∷ second_tx ∷ [])
unfolding get_slot
queue-Holds = record {
  valid = record { fits = omega arith; in_range = omega arith };
  cap = refl;
  held = refl;
}

instructions_read : deliver 1 decode_byte first_tx instructions ≡ (events, none)
unfolding deliver subarray bytes_equal
instructions_read = refl

resume_lem_example :
    (left : ArrayQueue Unprocessed) × (gone : ArrayQueue Unprocessed) × (awaits : Result
      (Option Unprocessed))
    × (next_turn queue ≡ ok (some first_tx))
    × (resume 1 decode_byte (some (some instructions)) first_tx queue
        ≡ (events, left, ok (some second_tx)))
    × Holds 2 left (second_tx ∷ [])
    × (resume 1 decode_byte (some (some instructions)) first_tx left ≡ (events, gone, awaits))
    × (resume 1 decode_byte none second_tx gone ≡ ([], gone, ok none))
    × Holds 2 gone []
resume_lem_example =
    resume_lem 1 decode_byte 2 queue first_tx second_tx [] instructions events queue-Holds
      (omega arith) instructions_read
