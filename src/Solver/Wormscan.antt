-- ===== src/Solver/Wormscan.antt =====
-- Fetching a VAA and its source transaction from Wormholescan (solver/src/utils/wormscan.ts). The request
-- is an argument; the pauses and log lines are left out.
pub mod Once
mod Tests
use Prim.Native.String.{◌++◌ as string_append}
use example_liquidity_layer.Solver.Io.{Io, lift, return, ◌>>=◌, ◌>>◌}
use example_liquidity_layer.Prelude.{
  Bool, Option, Result, String, false, if◌then◌else◌, none, ok, or_else, some, suc, throw, true,
  type_error, zero, ℕ, ◌&&◌,
}
use example_liquidity_layer.Buffer.{Bytes}

pub record VaaResponse : Type 0 where
  pub vaa : Option Bytes
  pub tx_hash : Option String

-- The JSON answer: its `data` with the two members, of which the VAA is decoded from base64.
pub record WormscanAnswer : Type 0 where
  pub content : Option (Option String × Option Bytes)

abbrev pub no_response : VaaResponse
no_response = record { vaa = none; tx_hash = none }

-- A string and `undefined` make a string; `Buffer.from(undefined)` is a TypeError.
abbrev pub response_of : Option String → Option Bytes → Result VaaResponse
response_of tx_hash none = throw type_error
response_of tx_hash (some vaa) =
    ok
      (record { vaa = some vaa; tx_hash = some (string_append "0x" (or_else tx_hash "undefined")) })

abbrev pub read_content : Option (Option String × Option Bytes) → Result VaaResponse
read_content none = throw type_error
read_content (some (tx_hash, vaa)) = response_of tx_hash vaa

abbrev pub is_none {ℓ} : {A : Type ℓ} → Option A → Bool
is_none none = true
is_none (some a) = false

module _ {W : Type 0} (request : Io W WormscanAnswer) where
  -- `left` is how many retries are left.
  unfoldable pub fetch_loop : (left : ℕ) → VaaResponse → Io W VaaResponse
  fetch_loop zero response = return response
  fetch_loop (suc left) response =
      let again = (do
        answer ← request
        next ← lift (read_content answer.content)
        fetch_loop left next) in
      if is_none response.tx_hash && is_none response.vaa then again else return response

  unfoldable pub fetch_vaa_from_wormscan : (max_retries : ℕ) → Io W VaaResponse
  unfolding fetch_loop
  fetch_vaa_from_wormscan max_retries = fetch_loop max_retries no_response
