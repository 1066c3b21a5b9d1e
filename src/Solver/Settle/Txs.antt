-- ===== src/Solver/Settle/Txs.antt =====
-- When an auction is settled, and with which transactions.
use example_liquidity_layer.Solver.Io.{continue-eq-ok, lift-eq-ok}
use example_liquidity_layer.Prelude.{
  Bool, Bool-cases, List, Option, Result-cases, String, [], ap, arith, false, inl, inr, none, ok,
  refl, some, subst, true, ◌++◌, ◌+◌, ◌∙◌, ◌∷◌, ◌≡◌,
}
use example_liquidity_layer.Buffer.{Bytes}
use example_liquidity_layer.Auction.{PublicKey}
use example_liquidity_layer.Vaa.{ParsedVaa}
use example_liquidity_layer.Solver.Config.{ComputeUnitsConfig}
use example_liquidity_layer.Solver.Transactions.{PreparedTransaction}
use example_liquidity_layer.Solver.Wormscan.{VaaResponse}
use example_liquidity_layer.Solver.Evm.{CctpArgs}
use example_liquidity_layer.Solver.Settle.Won.{Won, fetch_our_auction-Won}
use example_liquidity_layer.Solver.Settle.{
  AuctionAccount, SettleAuctionAccounts, Settling, create_settle_tx, fetch_cctp_args,
  fetch_our_auction, handle_settle_auction, has_completed, has_settled, post_unless,
  settle_completed, settle_places, settle_response, settle_with,
}

module _ {W : Type 0} (net : Settling W) (units : ComputeUnitsConfig) (commitment : String)
    (payer : PublicKey) where
  -- What Wormholescan has for the sequence behind the finalized VAA's is a fast order.
  pub record FastVaa (parsed : ParsedVaa) (w : W) : Type 0 where
    pub response : VaaResponse
    pub seen : W
    pub vaa : Bytes
    pub fast : ParsedVaa
    pub fetched : net.fetch_vaa (parsed.sequence + 1) w ≡ (ok response, seen)
    pub vaa_is : response.vaa ≡ some vaa
    pub parses : net.sdk.deserialize vaa ≡ ok fast
    pub is_order : net.is_fast_order fast.payload ≡ true

  -- The transactions that post the finalized VAA, none if it is posted, and the one that settles, with the
  -- instructions for its places, its best offer's token account and the attested message.
  pub record SettlesAt (places : SettleAuctionAccounts) (best : PublicKey)
      (txs : List PreparedTransaction) : Type 0 where
    pub is_posted : Bool
    pub asked : W
    pub answered : W
    pub posted_at : net.account_exists places.finalized_vaa_account asked ≡ (ok is_posted, answered)
    pub posts : List PreparedTransaction
    pub settle : PreparedTransaction
    pub in_order : txs ≡ posts ++ settle ∷ []
    pub none_if_posted : is_posted ≡ true → posts ≡ []
    pub posted : W
    pub posts_otherwise : is_posted ≡ false → net.post_vaa_txs answered ≡ (ok posts, posted)
    pub args : CctpArgs
    pub before : W
    pub after : W
    pub made : net.settle_ixs places best args before ≡ (ok settle.ixs, after)

  -- The places are those of the fast VAA and of the finalized VAA.
  pub record Settles (raw : Bytes) (fast : ParsedVaa) (best : PublicKey)
      (txs : List PreparedTransaction) : Type 0 where
    pub finalized : ParsedVaa
    pub reads : net.sdk.deserialize raw ≡ ok finalized
    pub settles : SettlesAt (settle_places net units commitment payer fast finalized) best txs

  create_settle_tx-made :
      (places : SettleAuctionAccounts) (best : PublicKey) (args : CctpArgs)
      (tx : PreparedTransaction) (w w' : W)
      → create_settle_tx net units commitment payer places best args w ≡ (ok tx, w')
      → (before after : W) × (net.settle_ixs places best args before ≡ (ok tx.ixs, after))
  unfolding create_settle_tx
  create_settle_tx-made places best args tx w w' h =
      let (table, w1, _, h1) = continue-eq-ok (net.lookup_table w) _ h in
      let (ixs, w2, made, h2) = continue-eq-ok (net.settle_ixs places best args w1) _ h1 in
      (w1, w2, ground arith)

  post_unless-posted :
      (is_posted : Bool) (posts : List PreparedTransaction) (w w' : W)
      → post_unless net units commitment payer is_posted w ≡ (ok posts, w')
      → is_posted ≡ true
      → posts ≡ []
  post_unless-posted true posts w w' h e = cc
  post_unless-posted false posts w w' h e = cc

  post_unless-otherwise :
      (is_posted : Bool) (posts : List PreparedTransaction) (w w' : W)
      → post_unless net units commitment payer is_posted w ≡ (ok posts, w')
      → is_posted ≡ false
      → net.post_vaa_txs w ≡ (ok posts, w')
  post_unless-otherwise true posts w w' h e = cc
  post_unless-otherwise false posts w w' h e = h

  settle_with-Settles :
      (places : SettleAuctionAccounts) (best : PublicKey) (args : Option CctpArgs) (w w' : W)
      (tx : PreparedTransaction) (txs : List PreparedTransaction)
      → settle_with net units commitment payer places best args w ≡ (ok (tx ∷ txs), w')
      → SettlesAt places best (tx ∷ txs)
  unfolding settle_with
  settle_with-Settles places best none w w' tx txs h = absurd cc
  settle_with-Settles places best (some args) w w' tx txs h =
      let (is_posted, w1, e1, h1) =
        continue-eq-ok (net.account_exists places.finalized_vaa_account w) _ h in
      let (posts, w2, e2, h2) =
        continue-eq-ok (post_unless net units commitment payer is_posted w1) _ h1 in
      let (settle, w3, e3, h3) =
        continue-eq-ok (create_settle_tx net units commitment payer places best args w2) _ h2 in
      let (before, after, made) = create_settle_tx-made places best args settle w2 w3 e3 in
      let same : (ok (posts ++ settle ∷ []), w3) ≡ (ok (tx ∷ txs), w') = h3 in
      record {
        is_posted = is_posted;
        asked = w;
        answered = w1;
        posted_at = e1;
        posts = posts;
        settle = settle;
        in_order = cc same;
        none_if_posted = post_unless-posted is_posted posts w1 w2 e2;
        posted = w2;
        posts_otherwise = post_unless-otherwise is_posted posts w1 w2 e2;
        args = args;
        before = before;
        after = after;
        made = made;
      }

  settle_completed-Settles :
      (places : SettleAuctionAccounts) (is_evm : Bool) (tx_hash : String) (auction : AuctionAccount)
      (best : PublicKey) (w w' : W) (tx : PreparedTransaction) (txs : List PreparedTransaction)
      → settle_completed net units commitment payer places is_evm tx_hash (some (auction, best)) w
        ≡ (ok (tx ∷ txs), w')
      → (has_completed auction.status ≡ true)
        × (has_settled auction.status ≡ false)
        × SettlesAt places best (tx ∷ txs)
  unfolding settle_completed
  settle_completed-Settles places is_evm tx_hash auction best w w' tx txs h =
      elim (Bool-cases (has_completed auction.status)) [
        | inr n ↦ absurd (cc (rw n at h))
        | inl c ↦ elim (Bool-cases (has_settled auction.status)) [
          | inl s ↦ absurd (cc (rw (c, s) at h))
          | inr s ↦
              let (args, w1, e, h1) =
                continue-eq-ok (fetch_cctp_args net units commitment payer is_evm tx_hash w) _
                  (rw (c, s) at h) in
              (c, s, settle_with-Settles places best args w1 w' tx txs h1)
        ]
      ]

  settle_completed-some :
      (places : SettleAuctionAccounts) (is_evm : Bool) (tx_hash : String)
      (ours : Option (AuctionAccount × PublicKey)) (w w' : W) (tx : PreparedTransaction)
      (txs : List PreparedTransaction)
      → settle_completed net units commitment payer places is_evm tx_hash ours w
        ≡ (ok (tx ∷ txs), w')
      → (auction : AuctionAccount) × (best : PublicKey) × (ours ≡ some (auction, best))
  unfolding settle_completed
  settle_completed-some places is_evm tx_hash none w w' tx txs h = absurd cc
  settle_completed-some places is_evm tx_hash (some (auction, best)) w w' tx txs h =
      (auction, best, refl)

  -- The auction of a fast VAA that can be settled: won by one of our accounts, completed, not settled.
  pub record Settleable (fast : ParsedVaa) : Type 0 where
    pub auction : AuctionAccount
    pub best : PublicKey
    pub won :
        Won net units commitment payer
          (net.auction_address (net.sdk.keccak256 fast.hash))
          auction
          best
    pub completed : has_completed auction.status ≡ true
    pub not_settled : has_settled auction.status ≡ false

  settle_response-Settles :
      (is_evm : Bool) (raw : Bytes) (vaa : Option Bytes) (tx_hash : Option String) (w w' : W)
      (tx : PreparedTransaction) (txs : List PreparedTransaction)
      → settle_response net units commitment payer is_evm raw vaa tx_hash w ≡ (ok (tx ∷ txs), w')
      → (bytes : Bytes) × (fast : ParsedVaa) × (vaa ≡ some bytes)
        × (net.sdk.deserialize bytes ≡ ok fast)
        × (net.is_fast_order fast.payload ≡ true)
        × (settleable : Settleable fast) × Settles raw fast settleable.best (tx ∷ txs)
  unfolding settle_response
  settle_response-Settles is_evm raw none tx_hash w w' tx txs h = absurd cc
  settle_response-Settles is_evm raw (some bytes) none w w' tx txs h = absurd cc
  settle_response-Settles is_evm raw (some bytes) (some tx_hash) w w' tx txs h =
      elim (Result-cases (net.sdk.deserialize bytes)) [
        | inr (e, thrown) ↦ absurd (cc (rw thrown at h))
        | inl (fast, parses) ↦ elim (Bool-cases (net.is_fast_order fast.payload)) [
          | inr n ↦ absurd (cc (rw (parses, n) at h))
          | inl order ↦
              let (finalized, reads, h1) =
                lift-eq-ok (net.sdk.deserialize raw) w _ (rw (parses, order) at h) in
              let places = settle_places net units commitment payer fast finalized in
              let (ours, w2, e2, h2) =
                continue-eq-ok (fetch_our_auction net units commitment payer places.auction w) _
                  h1 in
              let (auction, best, is) =
                settle_completed-some places is_evm tx_hash ours w2 w' tx txs h2 in
              let (completed, unsettled, settles) =
                settle_completed-Settles places is_evm tx_hash auction best w2 w' tx txs (
                  subst
                    (λ o.
                      settle_completed net units commitment payer places is_evm tx_hash o w2
                      ≡ (ok (tx ∷ txs), w'))
                    is h2) in
              (
                bytes,
                fast,
                refl,
                parses,
                order,
                record {
                  auction = auction;
                  best = best;
                  won =
                      fetch_our_auction-Won net units commitment payer places.auction auction best w
                        w2 (e2 ∙ ap (λ o. (ok o, w2)) is);
                  completed = completed;
                  not_settled = unsettled;
                },
                record { finalized = finalized; reads = reads; settles = settles },
              )
        ]
      ]

  -- Where the solver does something about a finalized VAA, Wormholescan has a fast order for the sequence
  -- behind it, the auction of that order was won by one of our accounts and is completed and not settled,
  -- and the transactions are those that post the finalized VAA, none if its account is there, and one that settles.
  pub handle_settle_auction_lem :
      (parsed : ParsedVaa) (raw : Bytes) (w w' : W) (tx : PreparedTransaction)
      (txs : List PreparedTransaction)
      → handle_settle_auction net units commitment payer parsed raw w ≡ (ok (tx ∷ txs), w')
      → (fast_vaa : FastVaa parsed w) × (settleable : Settleable fast_vaa.fast) × Settles raw
          fast_vaa.fast settleable.best
          (tx ∷ txs)
  unfolding handle_settle_auction
  handle_settle_auction_lem parsed raw w w' tx txs h =
      elim (Result-cases (net.chain_cfg parsed.emitter_chain)) [
        | inr (e, thrown) ↦ absurd (cc (rw thrown at h))
        | inl (is_evm, known) ↦
            let (response, w1, e1, h1) =
              continue-eq-ok (net.fetch_vaa (parsed.sequence + 1) w) _ (rw known at h) in
            let (bytes, fast, is, parses, order, settleable, settles) =
              settle_response-Settles is_evm raw response.vaa response.tx_hash w1 w' tx txs h1 in
            (
              record {
                response = response;
                seen = w1;
                vaa = bytes;
                fast = fast;
                fetched = e1;
                vaa_is = is;
                parses = parses;
                is_order = order;
              },
              settleable,
              settles,
            )
      ]
