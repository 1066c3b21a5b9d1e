-- ===== src/MatchingEngine/SettledBy.antt =====
-- Who a completed auction is settled for, and when the Rust program accepts it.

use example_liquidity_layer.Prelude.Int.{ℤ}
use example_liquidity_layer.MatchingEngine.Composites.{
  checked_custodian_composite, fast_order_path_composite,
}
use example_liquidity_layer.MatchingEngine.Offers.{digest_address, event_cpi}
use example_liquidity_layer.Prelude.{
  List, Option, >>=-eq-ok, [], ap, none, ok, refl, some, sym, ◌↔◌, ◌∙◌, ◌∷◌, ◌≡◌,
}
use example_liquidity_layer.Buffer.{Bytes}
use example_liquidity_layer.Auction.{AuctionInfo, PublicKey}
use example_liquidity_layer.Cctp.{CctpTokenBurnMessage, burn_from, decode_burn, encoded}
use example_liquidity_layer.Cctp.Programs.{
  receive_accounts, CctpPrograms, receive_token_messenger_minter_message_accounts,
}
use example_liquidity_layer.MatchingEngine.Addresses.{
  Program, cctp_mint_recipient_address, prepared_custody_token_address,
  prepared_order_response_address,
}
use example_liquidity_layer.MatchingEngine.State.{Auction, Ledger, PreparedOrderResponse, completed}
use example_liquidity_layer.MatchingEngine.Instructions.{
  receive_message, CctpMessageArgs, Ix, PrepareOrderResponseCctp, SettleAuctionComplete,
  prepare_order_response_cctp, settle_auction_complete,
}
use example_liquidity_layer.MatchingEngine.Settle.{
  beneficiary_of, prepare_order_response_cctp_ix, settle_auction_complete_ix,
  settle_auction_complete_ixs,
}
use example_liquidity_layer.MatchingEngine.Onchain.{
  FastOrderPathAccepted, SettleAuctionCompleteAccepted, auction_pda, endpoint_pda,
  order_response_pda,
}
use example_liquidity_layer.MatchingEngine.Known.{
  FastVaa, FastVaa-accepted, prepared_order_response_address-pda, router_endpoint_address-pda,
}

-- The response that prepare_order_response_cctp stores where there was none: for its payer and its base fee
-- token, under the digest of the fast VAA.
pub record StoresResponse (payer base_fee_token : PublicKey) (digest : Bytes)
    (r : PreparedOrderResponse) : Type 0 where
  pub fast_vaa_hash : r.fast_vaa_hash ≡ digest
  pub prepared_by : r.info.prepared_by ≡ payer
  pub fee_token : r.info.base_fee_token ≡ base_fee_token

-- Who the client names as the beneficiary.
abbrev pub named : (executor : PublicKey) → Option ℤ → (owner : PublicKey) → PublicKey
named executor none owner = owner
named executor (some penalty) owner = executor

module _ (p : Program) (c : CctpPrograms) (l : Ledger) (core_bridge executor fast_vaa : PublicKey)
    (finalized_vaa : PublicKey) (v : FastVaa p l fast_vaa) where
  -- The CCTP message is one that burns tokens, and the custodian has a token account.
  pub record Attested (args : CctpMessageArgs) : Type 0 where
    pub message : CctpTokenBurnMessage
    pub decoded : decode_burn args.encoded_cctp_message ≡ ok message
    pub mint_recipient : PublicKey
    pub has_recipient : cctp_mint_recipient_address p ≡ ok mint_recipient

  abbrev the_preparation : PublicKey → CctpTokenBurnMessage → PublicKey → PrepareOrderResponseCctp
  the_preparation fee_token m recipient =
      let response = order_response_pda p l v.digest in
      record {
        payer = executor;
        custodian = checked_custodian_composite p none;
        fast_order_path =
            fast_order_path_composite p fast_vaa (endpoint_pda p l v.emitter.chain)
              (endpoint_pda p l (l.sdk.to_chain_id v.order.target_chain));
        finalized_vaa = finalized_vaa;
        prepared_order_response = response;
        prepared_custody_token = prepared_custody_token_address p response;
        base_fee_token = fee_token;
        usdc = p.mint;
        cctp = receive_message recipient (receive_accounts c p.mint m);
        token_program = p.web3.token_program_id;
        system_program = p.web3.system_program_id;
      }

  pub prepare_order_response_cctp_ix_lem :
      (fee_token : PublicKey) (args : CctpMessageArgs)
      → Attested args
      → (a : PrepareOrderResponseCctp) × (prepare_order_response_cctp_ix p c l core_bridge executor
            fast_vaa finalized_vaa
            (some fee_token)
            args
          ≡ ok (prepare_order_response_cctp args a))
        × (a.payer ≡ executor)
        × (a.base_fee_token ≡ fee_token)
        × (a.prepared_order_response ≡ order_response_pda p l v.digest)
        × FastOrderPathAccepted p l a.fast_order_path
  unfolding prepare_order_response_cctp_ix receive_token_messenger_minter_message_accounts burn_from
  prepare_order_response_cctp_ix_lem fee_token args t = (
    the_preparation fee_token t.message t.mint_recipient,
    rw
        (
          v.fetched,
          v.emitted,
          router_endpoint_address-pda p l v.emitter.chain v.source.small,
          v.ordered,
          router_endpoint_address-pda p l (l.sdk.to_chain_id v.order.target_chain) v.target.small,
          t.decoded,
          v.digested,
          prepared_order_response_address-pda p l v.digest v.bytes,
          t.has_recipient,
        )
        refl,
    refl,
    refl,
    refl,
    FastVaa-accepted p l v,
  )

  prepare_order_response_cctp_ix-Attested :
      (fee_token : PublicKey) (args : CctpMessageArgs) {ix : Ix}
      → prepare_order_response_cctp_ix p c l core_bridge executor fast_vaa finalized_vaa
          (some fee_token)
          args
        ≡ ok ix
      → Attested args
  unfolding prepare_order_response_cctp_ix receive_token_messenger_minter_message_accounts burn_from
  prepare_order_response_cctp_ix-Attested fee_token args h =
      let (_, received, rest) =
        >>=-eq-ok
          (receive_token_messenger_minter_message_accounts c p.mint
            (encoded args.encoded_cctp_message))
          _
          (rw
            (
              v.fetched,
              v.emitted,
              router_endpoint_address-pda p l v.emitter.chain v.source.small,
              v.ordered,
              router_endpoint_address-pda p l (l.sdk.to_chain_id v.order.target_chain)
                  v.target.small,
            )
            at h) in
      let (message, decoded, _) = >>=-eq-ok (decode_burn args.encoded_cctp_message) _ received in
      let (_, _, last) =
        >>=-eq-ok (digest_address p l (prepared_order_response_address p) v.vaa) _ rest in
      let (recipient, has_recipient, _) = >>=-eq-ok (cctp_mint_recipient_address p) _ last in
      record {
        message = message;
        decoded = decoded;
        mint_recipient = recipient;
        has_recipient = has_recipient;
      }

  -- Instructions are made only of a message that is attested.
  pub settle_auction_complete_ixs-Attested :
      (best auction : PublicKey) (args : CctpMessageArgs) {ixs : List Ix}
      → settle_auction_complete_ixs p c l core_bridge executor fast_vaa finalized_vaa best auction
          args
        ≡ ok ixs
      → Attested args
  unfolding settle_auction_complete_ixs
  settle_auction_complete_ixs-Attested best auction args h =
      let (ix, prepared, _) =
        >>=-eq-ok
          (prepare_order_response_cctp_ix p c l core_bridge executor fast_vaa finalized_vaa
            (some best) args)
          _ h in
      prepare_order_response_cctp_ix-Attested best args prepared

  -- The auction of the VAA, completed.
  pub record CompletedAt (penalty : Option ℤ) : Type 0 where
    pub auction : Auction
    pub stored : l.fetch_auction (auction_pda p l v.digest) ≡ ok auction
    pub info : AuctionInfo
    pub has_info : auction.info ≡ some info
    pub slot : ℤ
    pub completed : auction.status ≡ completed slot penalty

  beneficiary_of_lem :
      (penalty : Option ℤ) (slot : ℤ) (best owner : PublicKey)
      → l.fetch_token_owner best ≡ ok owner
      → beneficiary_of p c l core_bridge (completed slot penalty) executor best
        ≡ ok (named executor penalty owner)
  beneficiary_of_lem none slot best owner h = h
  beneficiary_of_lem (some penalty) slot best owner h = refl

  -- For an order that can be served, with an attested message and a completed auction, settling succeeds with
  -- two instructions: one prepares the response for the executor, and one settles. If `response` is
  -- what the first stores where there was no response, the Rust program accepts the accounts of the second
  -- exactly if the beneficiary that the client names, the executor where there was a penalty and the owner
  -- of the best offer token where there was none, is the executor.
  pub settle_auction_complete_ixs_lem :
      (penalty : Option ℤ) (owner : PublicKey) (args : CctpMessageArgs) (t : Attested args)
      (done : CompletedAt penalty) (response : PreparedOrderResponse)
      → l.fetch_token_owner done.info.best_offer_token ≡ ok owner
      → StoresResponse executor done.info.best_offer_token v.digest response
      → (prepare : PrepareOrderResponseCctp) × (settle : SettleAuctionComplete)
        × (settle_auction_complete_ixs p c l core_bridge executor fast_vaa finalized_vaa
              done.info.best_offer_token
              (auction_pda p l v.digest)
              args
            ≡ ok (prepare_order_response_cctp args prepare ∷ settle_auction_complete settle ∷ []))
        × (settle.beneficiary ≡ named executor penalty owner)
        × (prepare.payer ≡ executor)
        × (prepare.base_fee_token ≡ done.info.best_offer_token)
        × (SettleAuctionCompleteAccepted p l response settle
            ↔ (named executor penalty owner ≡ executor))
  unfolding settle_auction_complete_ixs settle_auction_complete_ix
  settle_auction_complete_ixs_lem penalty owner args t done r h s =
      let best = done.info.best_offer_token in
      let response_key = order_response_pda p l v.digest in
      let (a, prepared, payer, fee, _, _) = prepare_order_response_cctp_ix_lem best args t in
      let settle : SettleAuctionComplete = record {
        beneficiary = named executor penalty owner;
        base_fee_token = best;
        prepared_order_response = response_key;
        prepared_custody_token = prepared_custody_token_address p response_key;
        auction = auction_pda p l v.digest;
        best_offer_token = best;
        token_program = p.web3.token_program_id;
        event_cpi = event_cpi p;
      } in
      (
        a,
        settle,
        rw
            (
              prepared,
              v.fetched,
              v.digested,
              prepared_order_response_address-pda p l v.digest v.bytes,
              done.stored,
              done.completed,
              beneficiary_of_lem penalty done.slot best owner h,
            )
            refl,
        refl,
        payer,
        fee,
        (
          λ (x : SettleAuctionCompleteAccepted p l r settle). x.beneficiary ∙ s.prepared_by,
          λ (e : named executor penalty owner ≡ executor). record {
            beneficiary = e ∙ sym s.prepared_by;
            base_fee_token = sym s.fee_token;
            auction = done.auction;
            stored = done.stored;
            info = done.info;
            has_info = done.has_info;
            best_offer_token = refl;
            response_seeds = ap (order_response_pda p l) (sym s.fast_vaa_hash);
            custody_token = refl;
            auction_seeds = ap (auction_pda p l) (sym s.fast_vaa_hash);
            event_cpi = record { authority = refl; program_is_self = refl };
          },
        ),
      )
