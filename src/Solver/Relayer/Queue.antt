-- ===== src/Solver/Relayer/Queue.antt =====
-- What the relayer sends, over any run.
use example_liquidity_layer.Prelude.{Error, List, [], ok, refl, throw, ℕ, ◌++◌, ◌∷◌, ◌≡◌}
use example_liquidity_layer.Solver.Transactions.{PreparedTransaction}
use example_liquidity_layer.Solver.Relayer.{
  Observation, Relay, RelayEvent, Relayer, observes, on_observation, relay, relay_step, turn,
}

module _ {W : Type 0} (r : Relayer W) (send : List PreparedTransaction → W → W) where
  -- A run in which no observation throws, with the batches that the observations give, in order; an observation
  -- that gives no transaction gives no batch. A turn of the loop sends the first batch of the queue.
  pub data Handled : Relay W → List RelayEvent → List (List PreparedTransaction) → Type 0 where
    finished : (s : Relay W) → Handled s [] []
    gave_nothing :
        (s : Relay W) (now : ℕ) (o : Observation) (w : W) (es : List RelayEvent)
        (batches : List (List PreparedTransaction))
        → on_observation r now o s.world ≡ (ok [], w)
        → Handled (record s { world = w }) es batches
        → Handled s (observes now o ∷ es) batches
    gave :
        (s : Relay W) (now : ℕ) (o : Observation) (tx : PreparedTransaction)
        (txs : List PreparedTransaction) (w : W) (es : List RelayEvent)
        (batches : List (List PreparedTransaction))
        → on_observation r now o s.world ≡ (ok (tx ∷ txs), w)
        → Handled
            (record s {
              world = w;
              transaction_batch_queue = s.transaction_batch_queue ++ (tx ∷ txs) ∷ [];
            })
            es
            batches
        → Handled s (observes now o ∷ es) ((tx ∷ txs) ∷ batches)
    slept :
        (w : W) (sent : List (List PreparedTransaction)) (es : List RelayEvent)
        (batches : List (List PreparedTransaction))
        → Handled (record { world = w; transaction_batch_queue = []; sent = sent }) es batches
        → Handled
            (record { world = w; transaction_batch_queue = []; sent = sent })
            (turn ∷ es)
            batches
    sent_first :
        (w : W) (batch : List PreparedTransaction) (queue sent : List (List PreparedTransaction))
        (es : List RelayEvent) (batches : List (List PreparedTransaction))
        → Handled
            (record {
              world = send batch w;
              transaction_batch_queue = queue;
              sent = sent ++ batch ∷ [];
            })
            es
            batches
        → Handled
            (record { world = w; transaction_batch_queue = batch ∷ queue; sent = sent })
            (turn ∷ es)
            batches

  abbrev pub all_of : Relay W → List (List PreparedTransaction)
  all_of s = s.sent ++ s.transaction_batch_queue

  -- An observation that throws ends the process, whatever comes after it.
  pub relay_throws :
      (s : Relay W) (now : ℕ) (o : Observation) (e : Error) (w : W) (es : List RelayEvent)
      → on_observation r now o s.world ≡ (throw e, w)
      → relay r send s (observes now o ∷ es) ≡ throw e
  unfolding relay relay_step
  relay_throws s now o e w es h = rw h refl
