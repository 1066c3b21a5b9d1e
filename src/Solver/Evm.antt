-- ===== src/Solver/Evm.antt =====
-- The CCTP message of an EVM transaction and its attestation (solver/src/utils/evm/wormholeCctp.ts). What
-- ethers parses of a log and what the services answer are arguments; log lines and pauses are left out.
pub mod Index
pub mod Attestation
mod Tests
use example_liquidity_layer.Solver.Io.{Io, lift, return, ◌>>=◌, ◌>>◌}
use example_liquidity_layer.Prelude.{
  Bool, List, Option, Result, [], get_elem?, if◌then◌else◌, ltb, none, not, ok, some, suc, throw,
  type_error, zero, ℕ, ◌+◌, ◌-◌, ◌==◌, ◌∷◌,
}
use example_liquidity_layer.Buffer.{Bytes}

-- A log: its address, and the arguments of the two events if it parses as one of them.
pub record Log : Type 0 where
  pub address : ℕ
  pub sequence : Result ℕ
  pub message : Result Bytes

-- The outcome of comparing a parsed sequence, and what the rest of the loop gives.
abbrev pub matched : Result ℕ → ℕ → ℕ → Result (Option ℕ) → Result (Option ℕ)
matched (throw e) sequence i rest = throw e
matched (ok s) sequence i rest = if s == sequence then ok (some i) else rest

-- The loop from index `i` on.
unfoldable pub find_from : ℕ → List Log → ℕ → ℕ → Result (Option ℕ)
find_from i [] core sequence = ok none
find_from i (log ∷ logs) core sequence =
    let rest = find_from (i + 1) logs core sequence in
    if not (log.address == core) then rest else matched log.sequence sequence i rest

unfoldable pub find_wormhole_message_index : List Log → ℕ → ℕ → Result (Option ℕ)
unfolding find_from
find_wormhole_message_index logs core sequence = find_from 0 logs core sequence

-- `logs[index - 2]`; parsing what is not there is a TypeError.
abbrev pub message_before : List Log → Option ℕ → Result Bytes
message_before logs none = throw type_error
message_before logs (some i) =
    if ltb i 2
    then throw type_error
    else elim (get_elem? logs (i - 2)) [ none ↦ throw type_error | some log ↦ log.message ]

pub record AttestationResponse : Type 0 where
  pub complete : Bool
  pub attestation : Option Bytes

abbrev pub attested : AttestationResponse → Option Bytes
attested r = if r.complete then r.attestation else none

module _ {W : Type 0} where
  abbrev pub or_again : Option Bytes → Io W (Option Bytes) → Io W (Option Bytes)
  or_again none again = again
  or_again (some a) again = return (some a)

  -- The loop has no bound in the code; here it makes at most `fuel` requests, and none is that it goes on.
  unfoldable pub fetch_attestation : (fuel : ℕ) → Io W AttestationResponse → Io W (Option Bytes)
  fetch_attestation zero request = return none
  fetch_attestation (suc fuel) request = do
    response ← request
    or_again (attested response) (fetch_attestation fuel request)

pub record CctpArgs : Type 0 where
  pub encoded_cctp_message : Bytes
  pub cctp_attestation : Option Bytes

module _ {W : Type 0} (receipt_logs : Io W (List Log))
    (attestation_of : Bytes → Io W AttestationResponse) where
  unfoldable pub unsafe_find_associated_cctp_message : (fuel core sequence : ℕ) → Io W CctpArgs
  unfolding find_wormhole_message_index fetch_attestation
  unsafe_find_associated_cctp_message fuel core sequence = do
    logs ← receipt_logs
    index ← lift (find_wormhole_message_index logs core sequence)
    message ← lift (message_before logs index)
    attestation ← fetch_attestation fuel (attestation_of message)
    return (record { encoded_cctp_message = message; cctp_attestation = attestation })
