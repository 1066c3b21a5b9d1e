-- ===== src/MatchingEngine/Fixture.antt =====
-- One small state of the chain, on which the theorems are applied.
pub mod Served
use text.Mathlib.Text.{◌==◌ as text_eq}
use example_liquidity_layer.Prelude.{
  Option, Result, ℕ, get_elem?, ◌==◌, [], error, false, if◌then◌else◌, none, ok, replicate, some,
  throw, true, ◌++◌, ◌∷◌,
}
use example_liquidity_layer.Prelude.Int.{pos}
use example_liquidity_layer.Buffer.{Bytes}
use example_liquidity_layer.Buffer.Chunks.{concat}
use example_liquidity_layer.Auction.{AuctionInfo, PublicKey}
use example_liquidity_layer.Penalty.{AuctionConfig}
use example_liquidity_layer.Vaa.{Sdk, encoded_discriminator}
use example_liquidity_layer.Cctp.Programs.{CctpPrograms}
use example_liquidity_layer.Solana.{Web3}
use example_liquidity_layer.MatchingEngine.Addresses.{Program}
use example_liquidity_layer.MatchingEngine.State.{
  Auction, FastFill, active, Custodian, FastMarketOrder, Ledger, Proposal, RouterEndpoint, cctp,
  completed, update_auction_parameters,
}

abbrev pub web3 : Web3
web3 = record {
  find_program_address = λ seeds id. concat seeds ++ id;
  get_associated_token_address = λ mint owner off_curve. ok (owner ++ mint);
  token_program_id = 71 ∷ [];
  associated_token_program_id = 72 ∷ [];
  system_program_id = 73 ∷ [];
  bpf_loader_upgradeable_program_id = 74 ∷ [];
  sysvar_rent = 75 ∷ [];
  sysvar_clock = 76 ∷ [];
  sysvar_epoch_schedule = 77 ∷ [];
}

abbrev pub program : Program
program = record { web3 = web3; id = 1 ∷ []; mint = 2 ∷ [] }

abbrev pub programs : CctpPrograms
programs = record {
  web3 = web3;
  message_transmitter_id = 3 ∷ [];
  token_messenger_minter_id = 4 ∷ [];
}

abbrev pub sdk : Sdk
sdk = record {
  is_chain_id = λ n. true;
  to_chain_id =
      λ chain. if text_eq chain "Solana" then 1 else if text_eq chain "Ethereum" then 2 else 5;
  deserialize = λ bytes. ok (record {
    emitter_chain = "Ethereum";
    emitter_address = 9 ∷ [];
    sequence = 3;
    timestamp = 1000;
    payload = 11 ∷ [];
    hash = 40 ∷ 41 ∷ [];
  });
  keccak256 = λ bytes. 42 ∷ bytes;
}

abbrev pub order : FastMarketOrder
order = record { amount_in = pos 1000; max_fee = pos 50; target_chain = "Polygon"; sender = 8 ∷ [] }

abbrev pub custodian : Custodian
custodian = record {
  owner = 20 ∷ [];
  pending_owner = none;
  paused = false;
  paused_set_by = none;
  owner_assistant = 21 ∷ [];
  fee_recipient_token = 22 ∷ [];
  auction_config_id = 7;
  next_proposal_id = pos 1;
}

abbrev pub config : AuctionConfig
config = record {
  id = 7;
  parameters = record {
    user_penalty_reward_bps = 250000;
    initial_penalty_bps = 100000;
    duration = 2;
    grace_period = 5;
    penalty_period = 10;
    min_offer_delta_bps = 20000;
    security_deposit_base = 40;
    security_deposit_bps = 5000;
  };
}

abbrev pub endpoint : RouterEndpoint
endpoint = record {
  bump = 255;
  info = record { chain = 5; address = 9 ∷ []; mint_recipient = []; protocol = cctp 0 };
}

-- Ethereum's.
abbrev pub source_endpoint : RouterEndpoint
source_endpoint = record {
  bump = 255;
  info = record { chain = 2; address = 9 ∷ []; mint_recipient = []; protocol = cctp 0 };
}

-- The chain is the tenth byte of the key: it comes after the eight letters of the first seed and a zero.
abbrev pub endpoint_at : Option ℕ → RouterEndpoint
endpoint_at none = endpoint
endpoint_at (some chain) = if chain == 2 then source_endpoint else endpoint

abbrev pub info : AuctionInfo
info = record {
  config_id = 7;
  custody_token_bump = 255;
  vaa_sequence = pos 3;
  source_chain = 5;
  best_offer_token = 60 ∷ [];
  initial_offer_token = 61 ∷ [];
  start_slot = pos 100;
  amount_in = pos 1000;
  security_deposit = pos 95;
  offer_price = pos 50;
  redeemer_message_len = 0;
  destination_asset_info = none;
}

abbrev pub auction_data : Auction
auction_data = record {
  bump = 255;
  vaa_hash = 42 ∷ 40 ∷ 41 ∷ [];
  vaa_timestamp = 1000;
  target_protocol = cctp 0;
  status = completed (pos 110) none;
  prepared_by = 62 ∷ [];
  info = some info;
}

-- An encoded VAA of no bytes; the SDK makes of it what it always makes.
abbrev pub vaa_data : Bytes
vaa_data = encoded_discriminator ++ replicate 38 0

-- The proposal that is pending.
abbrev pub proposal : Proposal
proposal = record {
  id = pos 1;
  bump = 255;
  action = update_auction_parameters 8 config.parameters;
  by = 21 ∷ [];
  owner = 20 ∷ [];
  slot_proposed_at = pos 10;
  slot_enact_delay = pos 20;
  slot_enacted_at = none;
}

abbrev pub fill : FastFill
fill = record {
  seeds = record { source_chain = 5; order_sender = 8 ∷ []; sequence = pos 3; bump = 255 };
  redeemed = false;
  info = record {
    prepared_by = 62 ∷ [];
    amount = pos 950;
    redeemer = 9 ∷ [];
    timestamp = pos 1000;
  };
  redeemer_message = [];
}

-- The ledger, by what is stored for auctions.
abbrev pub ledger_with : (PublicKey → Result Auction) → Ledger
ledger_with auctions = record {
  sdk = sdk;
  decode = λ payload. ok (some order);
  account_data = λ key. some vaa_data;
  fetch_custodian = λ key. ok custodian;
  fetch_auction_config = λ key. ok config;
  fetch_router_endpoint = λ key. ok (endpoint_at (get_elem? key 9));
  fetch_auction = auctions;
  fetch_prepared_order_response = λ key. throw (error "Account does not exist");
  fetch_reserved_fast_fill_sequence = λ key. throw (error "Account does not exist");
  fetch_fast_fill = λ key. ok fill;
  fetch_proposal = λ key. ok proposal;
  fetch_token_owner = λ key. ok (63 ∷ []);
}

-- The auction is over; it is running; it is not there.
abbrev pub ledger : Ledger
ledger = ledger_with (λ key. ok auction_data)

abbrev pub active_data : Auction
active_data = record auction_data { status = active }

abbrev pub during_auction : Ledger
during_auction = ledger_with (λ key. ok active_data)

abbrev pub before_auction : Ledger
before_auction = ledger_with (λ key. throw (error "Account does not exist"))
