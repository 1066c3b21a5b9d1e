-- ===== src/Solver/Settle/Accepted.antt =====
-- The solver's settlement on chain: the handler with the client of the matching engine, against the Rust
-- program.
mod Tests
use example_liquidity_layer.Prelude.{
  Bool, List, Option, String, [], ap, none, ok, or_throw, refl, some, sym, true, map, type_error, ℕ,
  >>=-eq-ok, ◌++◌, ◌+◌, ◌∙◌, ◌∷◌, ◌≡◌, ◌↔◌,
}
use example_liquidity_layer.Prelude.Int.{ℤ}
use example_liquidity_layer.Buffer.{Bytes}
use example_liquidity_layer.Auction.{AuctionInfo, PublicKey}
use example_liquidity_layer.Vaa.{ParsedVaa}
use example_liquidity_layer.Cctp.Programs.{CctpPrograms}
use example_liquidity_layer.Messages.{Layouts}
use example_liquidity_layer.MatchingEngine.Addresses.{Program, auction_address}
use example_liquidity_layer.MatchingEngine.State.{
  Auction, AuctionStatus, Ledger, PreparedOrderResponse, active, completed, not_started, settled,
}
use example_liquidity_layer.MatchingEngine.Instructions.{
  CctpMessageArgs, PrepareOrderResponseCctp, SettleAuctionComplete, prepare_order_response_cctp,
  settle_auction_complete,
}
use example_liquidity_layer.MatchingEngine.Onchain.{SettleAuctionCompleteAccepted, auction_pda}
use example_liquidity_layer.MatchingEngine.Known.{auction_address-pda}
use example_liquidity_layer.MatchingEngine.Known
use example_liquidity_layer.MatchingEngine.Settle.{settle_auction_complete_ixs}
use example_liquidity_layer.MatchingEngine.SettledBy.{
  CompletedAt, StoresResponse, named, settle_auction_complete_ixs-Attested,
  settle_auction_complete_ixs_lem,
}
use example_liquidity_layer.Solver.Config.{ComputeUnitsConfig}
use example_liquidity_layer.Solver.Io.{lift}
use example_liquidity_layer.Solver.Transactions.{Instruction, PreparedTransaction}
use example_liquidity_layer.Solver.Evm.{CctpArgs}
use example_liquidity_layer.Solver.Wormscan.{VaaResponse}
use example_liquidity_layer.Solver.Settle.{
  AuctionAccount, SettleAuctionAccounts, handle_settle_auction, has_completed, settle_places,
}
use example_liquidity_layer.Solver.Settle.Client.{
  Network, account_of, client_settle_ixs, client_settling, fetch_account, status_of,
}
use example_liquidity_layer.Solver.Settle.Txs.{FastVaa, handle_settle_auction_lem}
use example_liquidity_layer.Solver.Settle.Won.{Won}
use example_liquidity_layer.Uint64.{uint8_array}

-- Only a completed auction has the member that the solver asks for.
has_completed-completed :
    (s : AuctionStatus)
    → has_completed (status_of s) ≡ true
    → (slot : ℤ) × (penalty : Option ℤ) × (s ≡ completed slot penalty)
has_completed-completed not_started h = absurd cc
has_completed-completed active h = absurd cc
has_completed-completed (completed slot penalty) h = (slot, penalty, refl)
has_completed-completed (settled fee penalty) h = absurd cc

module _ (p : Program) (c : CctpPrograms) (l : Ledger) (layouts : Layouts)
    (core_bridge payer : PublicKey) {W : Type 0} (net : Network W) where
  -- What there is for a finalized VAA: Wormholescan's answer for the fast VAA, whose account has its digest
  -- and whose order can be served, the auction, and the owner of the best offer's token account.
  pub record Answered (parsed : ParsedVaa) (w : W) : Type 0 where
    pub response : VaaResponse
    pub seen : W
    pub fetched : net.fetch_vaa (parsed.sequence + 1) w ≡ (ok response, seen)
    pub bytes : Bytes
    pub vaa_is : response.vaa ≡ some bytes
    pub fast : ParsedVaa
    pub parses : l.sdk.deserialize bytes ≡ ok fast
    pub posted : Known.FastVaa p l (net.posted_vaa_key fast.hash)
    pub same_digest : l.sdk.keccak256 fast.hash ≡ posted.digest
    pub auction : Auction
    pub stored : l.fetch_auction (auction_pda p l posted.digest) ≡ ok auction
    pub info : AuctionInfo
    pub has_info : auction.info ≡ some info
    pub owner : PublicKey
    pub owned : l.fetch_token_owner info.best_offer_token ≡ ok owner

  module _ {parsed : ParsedVaa} {w : W} (a : Answered parsed w) where
    abbrev best : PublicKey
    best = a.info.best_offer_token

    abbrev places : (finalized_key : PublicKey) → SettleAuctionAccounts
    places finalized_key = record {
      finalized_vaa_account = finalized_key;
      fast_vaa_account = net.posted_vaa_key a.fast.hash;
      auction = auction_pda p l a.posted.digest;
    }

    -- What the client makes of an attested message.
    record Makes (penalty : Option ℤ) (response : PreparedOrderResponse) (ixs : List Instruction)
        : Type 0 where
      args : CctpMessageArgs
      prepare : PrepareOrderResponseCctp
      settle : SettleAuctionComplete
      instructions :
          ixs
          ≡ net.encode (prepare_order_response_cctp args prepare)
            ∷ net.encode (settle_auction_complete settle)
            ∷ []
      prepared_by : prepare.payer ≡ payer
      fee_token : prepare.base_fee_token ≡ best
      accepted :
          SettleAuctionCompleteAccepted p l response settle ↔ (named payer penalty a.owner ≡ payer)

    client_settle_ixs-Makes :
        (finalized_key : PublicKey) (cctp : CctpArgs) (slot : ℤ) (penalty : Option ℤ)
        (response : PreparedOrderResponse) (ixs : List Instruction)
        → client_settle_ixs p c l layouts core_bridge payer net (places finalized_key) best cctp
          ≡ ok ixs
        → a.auction.status ≡ completed slot penalty
        → StoresResponse payer best a.posted.digest response
        → Makes penalty response ixs
    unfolding client_settle_ixs
    client_settle_ixs-Makes finalized_key cctp slot penalty response ixs h done r =
        let (attestation, _, h1) = >>=-eq-ok (or_throw cctp.cctp_attestation type_error) _ h in
        let args : CctpMessageArgs = record {
          encoded_cctp_message = cctp.encoded_cctp_message;
          cctp_attestation = attestation;
        } in
        let (made, is, h2) =
          >>=-eq-ok
            (settle_auction_complete_ixs p c l core_bridge payer (net.posted_vaa_key a.fast.hash)
              finalized_key best (auction_pda p l a.posted.digest) args)
            _ h1 in
        let attested =
          settle_auction_complete_ixs-Attested p c l core_bridge payer
            (net.posted_vaa_key a.fast.hash) finalized_key a.posted best
            (auction_pda p l a.posted.digest) args is in
        let (prepare, settle, same, _, prepared_by, fee_token, accepted) =
          settle_auction_complete_ixs_lem p c l core_bridge payer (net.posted_vaa_key a.fast.hash)
            finalized_key a.posted penalty a.owner args attested
            (record {
              auction = a.auction;
              stored = a.stored;
              info = a.info;
              has_info = a.has_info;
              slot = slot;
              completed = done;
            })
            response a.owned r in
        let list : made
            ≡ prepare_order_response_cctp args prepare ∷ settle_auction_complete settle ∷ [] =
          cc (is, same) in
        let mapped : ok (map net.encode made) ≡ ok ixs = h2 in
        let is_mapped : ixs ≡ map net.encode made = cc (mapped) in
        record {
          args = args;
          prepare = prepare;
          settle = settle;
          instructions = is_mapped ∙ ap (map net.encode) list;
          prepared_by = prepared_by;
          fee_token = fee_token;
          accepted = accepted;
        }

    module _ (units : ComputeUnitsConfig) (commitment : String) where
      same_fast :
          (f : FastVaa
            (client_settling p c l layouts core_bridge payer net)
            units
            commitment
            payer
            parsed
            w)
          → f.fast ≡ a.fast
      same_fast f = cc (f.fetched, a.fetched, f.vaa_is, a.vaa_is, f.parses, a.parses)

      auction_known :
          (fast : ParsedVaa)
          → fast ≡ a.fast
          → auction_address p (uint8_array (l.sdk.keccak256 fast.hash))
            ≡ auction_pda p l a.posted.digest
      auction_known fast e =
          rw (e, a.same_digest) (auction_address-pda p l a.posted.digest a.posted.bytes)

      places_known :
          (fast finalized : ParsedVaa)
          → fast ≡ a.fast
          → settle_places
              (client_settling p c l layouts core_bridge payer net)
              units
              commitment
              payer
              fast
              finalized
            ≡ places (net.posted_vaa_key finalized.hash)
      places_known fast finalized e =
          rw (e, a.same_digest, auction_address-pda p l a.posted.digest a.posted.bytes) refl

      same_auction :
          (place : PublicKey) (account : AuctionAccount) (found : PublicKey)
          → place ≡ auction_pda p l a.posted.digest
          → Won
              (client_settling p c l layouts core_bridge payer net)
              units
              commitment
              payer
              place
              account
              found
          → (account ≡ account_of a.auction) × (found ≡ best)
      same_auction place account found e x =
          let known : fetch_account p c l layouts core_bridge payer net place
              ≡ ok (account_of a.auction) =
            rw (e, a.stored) refl in
          let read : lift (fetch_account p c l layouts core_bridge payer net place) x.earlier
              ≡ (ok account, x.later) =
            x.fetched in
          let account_is : account ≡ account_of a.auction = cc (known, read) in
          let info_is : account.info ≡ a.auction.info =
            ap (λ (y : AuctionAccount). y.info) account_is in
          (account_is, cc (x.best_is, x.info_is, info_is, a.has_info))

      made_ok :
          (found : SettleAuctionAccounts) (token key : PublicKey) (args : CctpArgs)
          (before after : W) (ixs : List Instruction)
          → found ≡ places key
          → token ≡ best
          → lift (client_settle_ixs p c l layouts core_bridge payer net found token args) before
            ≡ (ok ixs, after)
          → client_settle_ixs p c l layouts core_bridge payer net (places key) best args ≡ ok ixs
      made_ok found token key args before after ixs e e' h = cc (rw (e, e') at h)

    -- The last of the transactions is the settlement of the completed auction.
    pub record SettlesOnChain (txs : List PreparedTransaction) : Type 0 where
      pub posts : List PreparedTransaction
      pub tx : PreparedTransaction
      pub in_order : txs ≡ posts ++ tx ∷ []
      pub slot : ℤ
      pub penalty : Option ℤ
      pub completed_at : a.auction.status ≡ completed slot penalty
      pub args : CctpMessageArgs
      pub prepare : PrepareOrderResponseCctp
      pub settle : SettleAuctionComplete
      pub instructions :
          tx.ixs
          ≡ net.encode (prepare_order_response_cctp args prepare)
            ∷ net.encode (settle_auction_complete settle)
            ∷ []
      pub prepared_by : prepare.payer ≡ payer
      pub fee_token : prepare.base_fee_token ≡ a.info.best_offer_token

    -- Where the solver, with the client in it, does something about a finalized VAA, the auction of its fast
    -- VAA is completed and the last transaction prepares the response and settles the auction. If `response`
    -- is what the first instruction stores where there was no response, the Rust program accepts the accounts of
    -- the second exactly if there was a penalty or the payer owns the best offer's token account.
    pub handle_settle_auction-accepted :
        (units : ComputeUnitsConfig) (commitment : String) (raw : Bytes) (w' : W)
        (tx : PreparedTransaction) (txs : List PreparedTransaction)
        (response : PreparedOrderResponse)
        → handle_settle_auction
            (client_settling p c l layouts core_bridge payer net)
            units
            commitment
            payer
            parsed
            raw
            w
          ≡ (ok (tx ∷ txs), w')
        → StoresResponse payer a.info.best_offer_token a.posted.digest response
        → (on_chain : SettlesOnChain (tx ∷ txs)) × (SettleAuctionCompleteAccepted p l response
              on_chain.settle
            ↔ (named payer on_chain.penalty a.owner ≡ payer))
    handle_settle_auction-accepted units commitment raw w' tx txs response h r =
        let (found, settleable, settles) =
          handle_settle_auction_lem (client_settling p c l layouts core_bridge payer net) units
            commitment payer parsed raw w w' tx txs h in
        let fast_is = same_fast units commitment found in
        let auction_is = auction_known units commitment found.fast fast_is in
        let (account_is, best_is) =
          same_auction units commitment _ settleable.auction settleable.best auction_is
            settleable.won in
        let (slot, penalty, done) = has_completed-completed a.auction.status (
          sym (ap (λ (x : AuctionAccount). has_completed x.status) account_is)
          ∙ settleable.completed) in
        let key = net.posted_vaa_key settles.finalized.hash in
        let s = settles.settles in
        let made =
          made_ok units commitment _ settleable.best key s.args s.before s.after s.settle.ixs
            (places_known units commitment found.fast settles.finalized fast_is) best_is s.made in
        let m = client_settle_ixs-Makes key s.args slot penalty response s.settle.ixs made done r in
        (
          record {
            posts = s.posts;
            tx = s.settle;
            in_order = s.in_order;
            slot = slot;
            penalty = penalty;
            completed_at = done;
            args = m.args;
            prepare = m.prepare;
            settle = m.settle;
            instructions = m.instructions;
            prepared_by = m.prepared_by;
            fee_token = m.fee_token;
          },
          m.accepted,
        )
