-- ===== src/Solana.antt =====
-- What the Solana clients use of web3.js, spl-token and Anchor. An address is its 32 bytes; the functions
-- that derive addresses, the well-known addresses, and what the network answers are fields.
use example_liquidity_layer.Prelude.{Bool, List, Option, Result, String, [], none, ok, some, ◌∷◌}
use example_liquidity_layer.Buffer.{Bytes}
use example_liquidity_layer.Auction.{PublicKey}
use example_liquidity_layer.Prelude.Int.{ℤ}
use Prim.Native.Char.{code}

-- `Buffer.from(text)` of an ASCII text.
abbrev pub buffer_from : String → Bytes
buffer_from String.[] = []
buffer_from (String.◌∷◌ c s) = code c ∷ buffer_from s

-- The seeds of the clients have 32 bytes at most, so the search for an address never fails.
pub record Web3 : Type 0 where
  pub find_program_address : List Bytes → PublicKey → PublicKey
  -- `getAssociatedTokenAddressSync(mint, owner, allowOwnerOffCurve)`
  pub get_associated_token_address : PublicKey → PublicKey → Bool → Result PublicKey
  pub token_program_id : PublicKey
  pub associated_token_program_id : PublicKey
  pub system_program_id : PublicKey
  pub bpf_loader_upgradeable_program_id : PublicKey
  pub sysvar_rent : PublicKey
  pub sysvar_clock : PublicKey
  pub sysvar_epoch_schedule : PublicKey

-- `given ?? derive()`
abbrev pub given_or {ℓ} : {A : Type ℓ} → Option A → Result A → Result A
given_or none derived = derived
given_or (some a) derived = ok a

-- `createApproveInstruction`
pub record Approve : Type 0 where
  pub account : PublicKey
  pub delegate : PublicKey
  pub owner : PublicKey
  pub amount : ℤ
