-- ===== src/Solver/Evm/Tests.antt =====
-- A receipt and a service on which the theorems are applied.

use example_liquidity_layer.Solver.Io.{Io}
use example_liquidity_layer.Prelude.{
  inl, List, [], arith, false, if◌then◌else◌, ltb, none, ok, refl, some, true, ℕ, ◌+◌, ◌∷◌, ◌≡◌,
}
use example_liquidity_layer.Solver.Evm.{
  AttestationResponse, Log, fetch_attestation, find_from, find_wormhole_message_index,
  unsafe_find_associated_cctp_message,
}
use example_liquidity_layer.Solver.Evm.Attestation.{fetch_attestation_lem, later, now}

abbrev log : ℕ → ℕ → Log
log address sequence = record {
  address = address;
  sequence = ok sequence;
  message = ok (sequence ∷ []);
}

abbrev receipt : List Log
receipt = log 1 0 ∷ log 1 1 ∷ log 7 4 ∷ log 7 5 ∷ []

-- The service counts the requests and has the attestation at the third.
abbrev answer : ℕ → AttestationResponse
answer n =
    if ltb n 2
    then record { complete = false; attestation = none }
    else record { complete = true; attestation = some (9 ∷ 9 ∷ []) }

abbrev service : Io ℕ AttestationResponse
service w = (ok (answer w), w + 1)

fetch_attestation_lem_example : fetch_attestation 6 service 0 ≡ (ok (some (9 ∷ 9 ∷ [])), 3)
fetch_attestation_lem_example =
    fetch_attestation_lem service (9 ∷ 9 ∷ []) 2 5 0 3
      (later (answer 0) refl (inl refl)
        (later (answer 1) refl (inl refl) (now (answer 2) refl refl refl)))
      (omega arith)

whole_search :
    unsafe_find_associated_cctp_message (λ w. (ok receipt, w)) (λ message. service) 6 7 5 0
    ≡ (ok (record { encoded_cctp_message = 1 ∷ []; cctp_attestation = some (9 ∷ 9 ∷ []) }), 3)
unfolding unsafe_find_associated_cctp_message find_wormhole_message_index find_from
    fetch_attestation
whole_search = refl
