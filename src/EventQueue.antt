-- ===== src/EventQueue.antt =====
-- MatchingEngineProgram.onEventCpi (solana/ts/src/matchingEngine/index.ts): the log subscription queues
-- the signatures of transactions, and the callback of a slot change fetches the queued transactions in
-- order and hands on their events. It awaits each transaction, and what runs between two awaits is one
-- step here. A signature and a program id are numbers; what the network has for a signature and Anchor's
-- decoder are arguments.
pub mod Once
pub mod Overlap
mod Tests
use example_liquidity_layer.Prelude.{
  Bool, Error, List, Option, Result, [], drop, false, if◌then◌else◌, ltb, none, ok, or_else, some,
  suc, throw, type_error, zero, ℕ, ◌++◌, ◌+◌, ◌==◌, ◌||◌, ◌∷◌, ◌>>=◌, ◌>>◌,
}
use example_liquidity_layer.Prelude.Maps.{get, int_key, nat_key, put}
use example_liquidity_layer.Buffer.{Bytes, subarray}
use example_liquidity_layer.ArrayQueue.{
  ArrayQueue, Slot, dequeue, enqueue, head, hole, is_empty, null, queue_length, value,
}
use example_liquidity_layer.AuctionHistory.{bytes_equal}

pub record Unprocessed : Type 0 where
  pub signature : ℕ
  pub event_slot : ℕ

pub record Observer : Type 0 where
  pub unprocessed_txs : ArrayQueue Unprocessed
  pub observed_txs : List (ℕ × List ℕ)

-- An inner instruction; one that web3.js has parsed has no data.
pub record InnerInstruction : Type 0 where
  pub program_id : ℕ
  pub contents : Option Bytes

-- What the callback is called with.
pub record Delivered : Type 0 where
  pub event : ℕ
  pub event_slot : ℕ
  pub signature : ℕ

abbrev pub cpi_event_ix_selector : Bytes
cpi_event_ix_selector = 228 ∷ 69 ∷ 165 ∷ 46 ∷ 81 ∷ 203 ∷ 154 ∷ 29 ∷ []

-- `observed.has(signature)`
unfoldable pub contains : List ℕ → ℕ → Bool
contains [] signature = false
contains (s ∷ ss) signature = (s == signature) || contains ss signature

-- The callback of the log subscription.
unfoldable pub on_logs : ℕ → ℕ → Observer → Observer
unfolding contains
on_logs signature event_slot o =
    let observed = or_else (get event_slot o.observed_txs) [] in
    if contains observed signature
    then record {
      unprocessed_txs = o.unprocessed_txs;
      observed_txs = put event_slot observed o.observed_txs;
    }
    else record {
      unprocessed_txs =
          enqueue o.unprocessed_txs (record { signature = signature; event_slot = event_slot });
      observed_txs = put event_slot (observed ++ signature ∷ []) o.observed_txs;
    }

-- Slots that are more than 64 behind are forgotten.
unfoldable pub forget : ℕ → List (ℕ × List ℕ) → List (ℕ × List ℕ)
forget slot [] = []
forget slot ((s, observed) ∷ m) =
    let rest = forget slot m in if ltb (s + 64) slot then rest else (s, observed) ∷ rest

-- What an await of a transaction gives: null, or the transaction, whose inner instructions are missing where
-- its meta is null or has none.
abbrev pub Answer : Type 0
Answer = Option (Option (List InnerInstruction))

-- The head of the queue, whose transaction a slot callback then awaits; without one, the loop is over. A
-- head that was never written is undefined, which cannot be destructured.
abbrev pub on_head : Slot Unprocessed → Result (Option Unprocessed)
on_head hole = throw type_error
on_head null = ok none
on_head (value u) = ok (some u)

unfoldable pub next_turn : ArrayQueue Unprocessed → Result (Option Unprocessed)
next_turn q = if is_empty q then ok none else on_head (head q)

module _ (program_id : ℕ) (decode : Bytes → Result (Option ℕ)) where
  -- The event of an instruction's data, if it is one.
  abbrev pub event_in : Option Bytes → Result (Option ℕ)
  event_in none = ok none
  event_in (some contents) =
      if bytes_equal (subarray contents 0 8) cpi_event_ix_selector
      then decode (drop 8 contents)
      else ok none

  abbrev pub event_of : InnerInstruction → Result (Option ℕ)
  event_of ix = if ix.program_id == program_id then event_in ix.contents else ok none

  -- An event goes to the callback before the next instruction is read; an exception ends the reading.
  abbrev pub delivered :
      Unprocessed
      → Result (Option ℕ)
      → List Delivered × Option Error
      → List Delivered × Option Error
  delivered u (throw thrown) rest = ([], some thrown)
  delivered u (ok none) rest = rest
  delivered u (ok (some event)) (later, outcome) = (
    record { event = event; event_slot = u.event_slot; signature = u.signature } ∷ later,
    outcome,
  )

  unfoldable pub deliver : Unprocessed → List InnerInstruction → List Delivered × Option Error
  deliver u [] = ([], none)
  deliver u (ix ∷ ixs) = delivered u (event_of ix) (deliver u ixs)

  abbrev pub after_events : Option Error → ArrayQueue Unprocessed → Result (Option Unprocessed)
  after_events none q = next_turn q
  after_events (some thrown) q = throw thrown

  -- A slot callback goes on with the answer for the head that it read, on the queue as it is by then: what it
  -- hands on, the queue that it leaves, and the transaction that it awaits next. No instructions at all is a
  -- TypeError, after the dequeue.
  unfoldable pub resume :
      Answer
      → Unprocessed
      → ArrayQueue Unprocessed
      → List Delivered × ArrayQueue Unprocessed × Result (Option Unprocessed)
  unfolding next_turn deliver
  resume none u q = ([], q, ok none)
  resume (some none) u q = ([], dequeue q, throw type_error)
  resume (some (some ixs)) u q =
      let (events, outcome) = deliver u ixs in (events, dequeue q, after_events outcome (dequeue q))
