-- ===== src/Cctp/Programs.antt =====
-- The addresses of Circle's two programs (solana/ts/src/cctp/messageTransmitter/ and
-- tokenMessengerMinter/), and the accounts that receiving and burning need.
mod Nonces
use example_liquidity_layer.Prelude.{List, Result, [], ok, ℕ, ◌∷◌, ◌>>=◌, ◌>>◌}
use example_liquidity_layer.Prelude.Int.{pos, ℤ, ◌*ℤ◌, ◌+ℤ◌, ◌-ℤ◌, ◌/ℤ◌}
use example_liquidity_layer.Buffer.{Bytes}
use example_liquidity_layer.Auction.{PublicKey}
use example_liquidity_layer.Uint64.{low_bytes}
use example_liquidity_layer.SlotAuctions.{slot_text}
use example_liquidity_layer.Solana.{Web3, buffer_from}
use example_liquidity_layer.Cctp.{CctpTokenBurnMessage, Source, burn_from}

abbrev pub max_nonces : ℤ
max_nonces = pos 6400

-- The first nonce of the block in which a nonce is marked as used.
unfoldable pub first_nonce : ℤ → ℤ
first_nonce nonce = (nonce -ℤ pos 1) /ℤ max_nonces *ℤ max_nonces +ℤ pos 1

pub record CctpPrograms : Type 0 where
  pub web3 : Web3
  pub message_transmitter_id : PublicKey
  pub token_messenger_minter_id : PublicKey

pub record ReceiveAccounts : Type 0 where
  pub authority : PublicKey
  pub message_transmitter_config : PublicKey
  pub used_nonces : PublicKey
  pub token_messenger_minter_program : PublicKey
  pub message_transmitter_event_authority : PublicKey
  pub message_transmitter_program : PublicKey
  pub token_messenger : PublicKey
  pub remote_token_messenger : PublicKey
  pub token_minter : PublicKey
  pub local_token : PublicKey
  pub token_pair : PublicKey
  pub custody_token : PublicKey
  pub token_messenger_minter_event_authority : PublicKey

pub record DepositForBurnWithCallerAccounts : Type 0 where
  pub sender_authority : PublicKey
  pub message_transmitter_config : PublicKey
  pub token_messenger : PublicKey
  pub remote_token_messenger : PublicKey
  pub token_minter : PublicKey
  pub local_token : PublicKey
  pub token_messenger_minter_event_authority : PublicKey
  pub message_transmitter_program : PublicKey
  pub token_messenger_minter_program : PublicKey

-- `Buffer.from(value.toString())`
abbrev pub digits : ℤ → Bytes
digits value = slot_text value

module _ (c : CctpPrograms) where
  abbrev pub transmitter_address : List Bytes → PublicKey
  transmitter_address seeds = c.web3.find_program_address seeds c.message_transmitter_id

  abbrev pub minter_address : List Bytes → PublicKey
  minter_address seeds = c.web3.find_program_address seeds c.token_messenger_minter_id

  abbrev pub message_transmitter_config_address : PublicKey
  message_transmitter_config_address = transmitter_address (buffer_from "message_transmitter" ∷ [])

  unfoldable pub used_nonces_address : ℕ → ℤ → PublicKey
  unfolding first_nonce
  used_nonces_address remote_domain nonce =
      transmitter_address
        (buffer_from "used_nonces" ∷ digits (pos remote_domain) ∷ digits (first_nonce nonce) ∷ [])

  abbrev pub authority_address : PublicKey → PublicKey
  authority_address cpi_program_id =
      transmitter_address (buffer_from "message_transmitter_authority" ∷ cpi_program_id ∷ [])

  abbrev pub transmitter_event_authority_address : PublicKey
  transmitter_event_authority_address = transmitter_address (buffer_from "__event_authority" ∷ [])

  abbrev pub token_messenger_address : PublicKey
  token_messenger_address = minter_address (buffer_from "token_messenger" ∷ [])

  abbrev pub token_minter_address : PublicKey
  token_minter_address = minter_address (buffer_from "token_minter" ∷ [])

  abbrev pub custody_token_address : PublicKey → PublicKey
  custody_token_address mint = minter_address (buffer_from "custody" ∷ mint ∷ [])

  unfoldable pub token_pair_address : ℕ → List ℕ → PublicKey
  token_pair_address remote_domain remote_token_address =
      minter_address (
        buffer_from "token_pair" ∷ digits (pos remote_domain) ∷ low_bytes remote_token_address ∷ [])

  unfoldable pub remote_token_messenger_address : ℕ → PublicKey
  remote_token_messenger_address remote_domain =
      minter_address (buffer_from "remote_token_messenger" ∷ digits (pos remote_domain) ∷ [])

  abbrev pub local_token_address : PublicKey → PublicKey
  local_token_address mint = minter_address (buffer_from "local_token" ∷ mint ∷ [])

  abbrev pub sender_authority_address : PublicKey
  sender_authority_address = minter_address (buffer_from "sender_authority" ∷ [])

  abbrev pub minter_event_authority_address : PublicKey
  minter_event_authority_address = minter_address (buffer_from "__event_authority" ∷ [])

  -- The accounts for a decoded message.
  abbrev pub receive_accounts : PublicKey → CctpTokenBurnMessage → ReceiveAccounts
  receive_accounts mint m = record {
    authority = authority_address c.token_messenger_minter_id;
    message_transmitter_config = message_transmitter_config_address;
    used_nonces = used_nonces_address m.cctp.source_domain m.cctp.nonce;
    token_messenger_minter_program = c.token_messenger_minter_id;
    message_transmitter_event_authority = transmitter_event_authority_address;
    message_transmitter_program = c.message_transmitter_id;
    token_messenger = token_messenger_address;
    remote_token_messenger = remote_token_messenger_address m.cctp.source_domain;
    token_minter = token_minter_address;
    local_token = local_token_address mint;
    token_pair = token_pair_address m.cctp.source_domain m.burn_token_address;
    custody_token = custody_token_address mint;
    token_messenger_minter_event_authority = minter_event_authority_address;
  }

  unfoldable pub receive_token_messenger_minter_message_accounts :
      PublicKey → Source CctpTokenBurnMessage → Result ReceiveAccounts
  unfolding used_nonces_address token_pair_address remote_token_messenger_address burn_from
  receive_token_messenger_minter_message_accounts mint circle_message = do
    m ← burn_from circle_message
    ok (receive_accounts mint m)

  unfoldable pub deposit_for_burn_with_caller_accounts :
      PublicKey → ℕ → DepositForBurnWithCallerAccounts
  unfolding remote_token_messenger_address
  deposit_for_burn_with_caller_accounts mint remote_domain = record {
    sender_authority = sender_authority_address;
    message_transmitter_config = message_transmitter_config_address;
    token_messenger = token_messenger_address;
    remote_token_messenger = remote_token_messenger_address remote_domain;
    token_minter = token_minter_address;
    local_token = local_token_address mint;
    token_messenger_minter_event_authority = minter_event_authority_address;
    message_transmitter_program = c.message_transmitter_id;
    token_messenger_minter_program = c.token_messenger_minter_id;
  }
