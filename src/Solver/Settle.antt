-- ===== src/Solver/Settle.antt =====
-- Settling an auction (solver/src/utils/settleAuction.ts). The network, the SDK, the configuration's answers
-- and the instruction builder are the fields of `Settling`; the ten seconds of waiting and the log lines
-- are left out. Each step from a check on is a definition.
pub mod Won
pub mod Txs
pub mod Client
pub mod Accepted
mod Tests
use example_liquidity_layer.Solver.Io.{Io, catch, fail, lift, return, ◌>>=◌, ◌>>◌}
use example_liquidity_layer.Prelude.{
  Bool, List, Option, Result, String, [], false, if◌then◌else◌, none, not, some, true, type_error,
  ℕ, ◌++◌, ◌+◌, ◌∷◌,
}
use example_liquidity_layer.Prelude.Int.{ℤ}
use example_liquidity_layer.Buffer.{Bytes}
use example_liquidity_layer.Auction.{AuctionInfo, PublicKey}
use example_liquidity_layer.Vaa.{ParsedVaa, Sdk}
use example_liquidity_layer.Solver.Config.{ComputeUnitsConfig}
use example_liquidity_layer.Solver.Transactions.{Instruction, PreparedTransaction}
use example_liquidity_layer.Solver.Wormscan.{VaaResponse}
use example_liquidity_layer.Solver.Evm.{CctpArgs}

-- The status and the info of an auction account, as far as the solver reads it.
pub record AuctionStatus : Type 0 where
  pub not_started : Bool
  pub active : Bool
  pub completed : Option ℤ
  pub settled : Option ℤ

pub record AuctionAccount : Type 0 where
  pub status : AuctionStatus
  pub info : Option AuctionInfo

pub record SettleAuctionAccounts : Type 0 where
  pub finalized_vaa_account : PublicKey
  pub fast_vaa_account : PublicKey
  pub auction : PublicKey

pub record Settling (W : Type 0) : Type 1 where
  pub sdk : Sdk
  pub posted_vaa_key : Bytes → PublicKey
  pub auction_address : Bytes → PublicKey
  -- Whether the chain is configured, and whether it is an EVM chain.
  pub chain_cfg : String → Result Bool
  -- Wormholescan's answer for a sequence of the emitter.
  pub fetch_vaa : ℕ → Io W VaaResponse
  pub is_fast_order : Bytes → Bool
  pub fetch_auction : PublicKey → Io W AuctionAccount
  pub is_recognized_token_account : PublicKey → Bool
  pub fetch_evm_args : String → Io W CctpArgs
  pub account_exists : PublicKey → Io W Bool
  pub post_vaa_txs : Io W (List PreparedTransaction)
  pub lookup_table : Io W PublicKey
  pub settle_ixs : SettleAuctionAccounts → PublicKey → CctpArgs → Io W (List Instruction)

abbrev pub is_there {ℓ} : {A : Type ℓ} → Option A → Bool
is_there none = false
is_there (some _) = true

abbrev pub has_completed : AuctionStatus → Bool
has_completed s = is_there s.completed

abbrev pub has_settled : AuctionStatus → Bool
has_settled s = is_there s.settled

module _ {W : Type 0} (net : Settling W) (units : ComputeUnitsConfig) (commitment : String)
    (payer : PublicKey) where
  abbrev pub settle_places : ParsedVaa → ParsedVaa → SettleAuctionAccounts
  settle_places fast finalized = record {
    finalized_vaa_account = net.posted_vaa_key finalized.hash;
    fast_vaa_account = net.posted_vaa_key fast.hash;
    auction = net.auction_address (net.sdk.keccak256 fast.hash);
  }

  -- `auctionData.info!.bestOfferToken` of an auction without info is a TypeError.
  abbrev pub best_offer_of : Option AuctionInfo → Io W PublicKey
  best_offer_of none = fail type_error
  best_offer_of (some info) = return info.best_offer_token

  unfoldable pub recognize : AuctionAccount → Io W (Option (AuctionAccount × PublicKey))
  recognize fetched = do
    best ← best_offer_of fetched.info
    return (if net.is_recognized_token_account best then some (fetched, best) else none)

  -- The auction, where its winner is one of our accounts; what throws counts as no auction.
  unfoldable pub fetch_our_auction : PublicKey → Io W (Option (AuctionAccount × PublicKey))
  unfolding recognize
  fetch_our_auction auction =
      catch (do fetched ← net.fetch_auction auction; recognize fetched) (λ e. return none)

  unfoldable pub create_settle_tx :
      SettleAuctionAccounts → PublicKey → CctpArgs → Io W PreparedTransaction
  create_settle_tx places best args = do
    table ← net.lookup_table
    ixs ← net.settle_ixs places best args
    return (record {
      ixs = ixs;
      signers = payer ∷ [];
      compute_units = units.settle_auction_complete;
      fee_micro_lamports = 10;
      nonce_account = none;
      address_lookup_table_accounts = some (table ∷ []);
      tx_name = some "settleAuctionComplete";
      confirm_options = some (record { commitment = some commitment; skip_preflight = some false });
    })

  abbrev pub fetch_cctp_args : Bool → String → Io W (Option CctpArgs)
  fetch_cctp_args false tx_hash = return none
  fetch_cctp_args true tx_hash = do args ← net.fetch_evm_args tx_hash; return (some args)

  abbrev pub post_unless : Bool → Io W (List PreparedTransaction)
  post_unless true = return []
  post_unless false = net.post_vaa_txs

  -- From the CCTP arguments on.
  unfoldable pub settle_with :
      SettleAuctionAccounts → PublicKey → Option CctpArgs → Io W (List PreparedTransaction)
  unfolding create_settle_tx
  settle_with places best none = return []
  settle_with places best (some args) = do
    is_posted ← net.account_exists places.finalized_vaa_account
    posts ← post_unless is_posted
    tx ← create_settle_tx places best args
    return (posts ++ tx ∷ [])

  -- From the status of the auction on.
  unfoldable pub settle_completed :
      SettleAuctionAccounts
      → Bool
      → String
      → Option (AuctionAccount × PublicKey)
      → Io W (List PreparedTransaction)
  unfolding settle_with
  settle_completed places is_evm tx_hash none = return []
  settle_completed places is_evm tx_hash (some (auction, best)) =
      let settle = (do args ← fetch_cctp_args is_evm tx_hash; settle_with places best args) in
      if not (has_completed auction.status)
      then return []
      else if has_settled auction.status
      then return []
      else settle

  -- From Wormholescan's answer on.
  unfoldable pub settle_response :
      Bool → Bytes → Option Bytes → Option String → Io W (List PreparedTransaction)
  unfolding settle_completed fetch_our_auction
  settle_response is_evm raw none tx_hash = return []
  settle_response is_evm raw (some vaa) none = return []
  settle_response is_evm raw (some vaa) (some tx_hash) = do
    fast ← lift (net.sdk.deserialize vaa)
    let settle = (do
      finalized ← lift (net.sdk.deserialize raw)
      let places = settle_places fast finalized
      auction ← fetch_our_auction places.auction
      settle_completed places is_evm tx_hash auction)
    if not (net.is_fast_order fast.payload) then return [] else settle

  unfoldable pub handle_settle_auction : ParsedVaa → Bytes → Io W (List PreparedTransaction)
  unfolding settle_response
  handle_settle_auction parsed raw = do
    is_evm ← lift (net.chain_cfg parsed.emitter_chain)
    response ← net.fetch_vaa (parsed.sequence + 1)
    settle_response is_evm raw response.vaa response.tx_hash
