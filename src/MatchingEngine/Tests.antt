-- ===== src/MatchingEngine/Tests.antt =====
-- The clients' instructions on one small state of the chain.
use example_liquidity_layer.Cctp.{CctpTokenBurnMessage, decode_burn, decode_message}
use example_liquidity_layer.MatchingEngine.Settle.{settle_auction_complete_ixs}
use example_liquidity_layer.MatchingEngine.Improved.{Opened, improve_offer_ix_lem}
use example_liquidity_layer.MatchingEngine.SettledBy.{Attested, settle_auction_complete_ixs_lem}
use example_liquidity_layer.Prelude.{[], arith, none, ok, refl, replicate, some, ◌↔◌, ◌∷◌, ◌≡◌}
use example_liquidity_layer.Prelude.Int.{pos, ◌+ℤ◌}
use example_liquidity_layer.Buffer.{be_value, read_uint_be, subarray}
use example_liquidity_layer.Auction.{PublicKey}
use example_liquidity_layer.Uint64.{bigint, uint64_to_bigint}
use example_liquidity_layer.MatchingEngine.State.{PreparedOrderResponse}
use example_liquidity_layer.MatchingEngine.Instructions.{
  CctpMessageArgs, ImproveOffer, PrepareOrderResponseCctp, SettleAuctionComplete, approve,
  improve_offer, prepare_order_response_cctp, settle_auction_complete,
}
use example_liquidity_layer.MatchingEngine.Offers.{OfferAccounts, improve_offer_ix}
use example_liquidity_layer.MatchingEngine.Onchain.{
  ImproveOfferAccepted, SettleAuctionCompleteAccepted, auction_pda,
}
use example_liquidity_layer.MatchingEngine.Fixture.Served.{
  config_in, fast_vaa, fast_vaa_in, running,
}
use example_liquidity_layer.MatchingEngine.Fixture.{
  active_data, auction_data, during_auction, endpoint, info, ledger, program, programs,
}

abbrev accounts : OfferAccounts
accounts = record {
  payer = 31 ∷ [];
  fee_payer = none;
  fast_vaa = 30 ∷ [];
  offer_token = none;
  auction = none;
  auction_config = none;
  from_router_endpoint = none;
  to_router_endpoint = none;
}

abbrev auction_key : PublicKey
auction_key = auction_pda program during_auction (42 ∷ 40 ∷ 41 ∷ [])

opened : Opened program during_auction auction_key
opened = record {
  auction = active_data;
  fetched = refl;
  info = info;
  has_info = refl;
  config = config_in running;
}

improve_offer_ix_lem_example :
    (ix : ImproveOffer) × (improve_offer_ix program during_auction
        (31 ∷ [])
        auction_key
        none
        (some (60 ∷ []))
        (bigint (pos 44))
        none
      ≡ ok (
          approve (record {
            account = 31 ∷ 2 ∷ [];
            delegate = ix.transfer_authority;
            owner = 31 ∷ [];
            amount = pos 1095;
          })
          ∷ improve_offer (pos 44) ix
          ∷ []))
    × ImproveOfferAccepted program during_auction 44 ix
    × (ix.offer_token ≡ 31 ∷ 2 ∷ [])
unfolding opened uint64_to_bigint ◌+ℤ◌
improve_offer_ix_lem_example =
    improve_offer_ix_lem program during_auction auction_key opened (31 ∷ []) none (some (60 ∷ []))
      (bigint (pos 44)) 44 1095 none (31 ∷ 2 ∷ []) (record { seeds = refl; is_active = refl })
      (λ e. cc) tt refl refl (omega arith) refl refl

abbrev args : CctpMessageArgs
args = record { encoded_cctp_message = replicate 248 0; cctp_attestation = 1 ∷ [] }

abbrev burn : CctpTokenBurnMessage
burn = record {
  cctp = record {
    version = 0;
    source_domain = 0;
    destination_domain = 0;
    nonce = pos 0;
    sender = replicate 32 0;
    recipient = replicate 32 0;
    target_caller = replicate 32 0;
  };
  version = 0;
  burn_token_address = replicate 32 0;
  mint_recipient = replicate 32 0;
  amount = pos 0;
  sender = replicate 32 0;
}

attested : Attested program programs ledger (5 ∷ []) (32 ∷ []) (30 ∷ []) (33 ∷ []) fast_vaa args
unfolding decode_burn decode_message read_uint_be subarray be_value fast_vaa_in
attested = record {
  message = burn;
  decoded = refl;
  mint_recipient = 101 ∷ 109 ∷ 105 ∷ 116 ∷ 116 ∷ 101 ∷ 114 ∷ 1 ∷ 2 ∷ [];
  has_recipient = refl;
}

abbrev stored : PreparedOrderResponse
stored = record {
  fast_vaa_hash = 42 ∷ 40 ∷ 41 ∷ [];
  bump = 255;
  info = record {
    prepared_by = 32 ∷ [];
    base_fee_token = 60 ∷ [];
    fast_vaa_timestamp = 1000;
    source_chain = 5;
    base_fee = pos 2;
    init_auction_fee = pos 1;
    sender = [];
    redeemer = [];
    amount_in = pos 1000;
  };
  to_endpoint = endpoint.info;
  redeemer_message = [];
}

-- An executor that owns no tokens settles an auction without penalty: the accounts are refused.
settle_auction_complete_ixs_lem_example :
    (prepare : PrepareOrderResponseCctp) × (settle : SettleAuctionComplete)
    × (settle_auction_complete_ixs program programs ledger
          (5 ∷ [])
          (32 ∷ [])
          (30 ∷ [])
          (33 ∷ [])
          (60 ∷ [])
          (auction_pda program ledger (42 ∷ 40 ∷ 41 ∷ []))
          args
        ≡ ok (prepare_order_response_cctp args prepare ∷ settle_auction_complete settle ∷ []))
    × (settle.beneficiary ≡ 63 ∷ [])
    × (prepare.payer ≡ 32 ∷ [])
    × (prepare.base_fee_token ≡ 60 ∷ [])
    × (SettleAuctionCompleteAccepted program ledger stored settle
        ↔ (◌≡◌ {A = PublicKey} (63 ∷ []) (32 ∷ [])))
unfolding fast_vaa_in
settle_auction_complete_ixs_lem_example =
    settle_auction_complete_ixs_lem program programs ledger (5 ∷ []) (32 ∷ []) (30 ∷ []) (33 ∷ [])
      fast_vaa none (63 ∷ []) args attested
      (record {
        auction = auction_data;
        stored = refl;
        info = info;
        has_info = refl;
        slot = pos 110;
        completed = refl;
      })
      stored refl (record { fast_vaa_hash = refl; prepared_by = refl; fee_token = refl })
