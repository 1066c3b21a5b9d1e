-- ===== src/Solver/Evm/Attestation.antt =====
-- The attestation is found once the service has it.
use example_liquidity_layer.Solver.Io.{Io}
use example_liquidity_layer.Prelude.{
  Bool-cases, arith, false, inl, inr, true, none, ok, refl, some, suc, zero, ℕ, ◌≡◌, ◌≤◌, ◌⊎◌,
}
use example_liquidity_layer.Buffer.{Bytes}
use example_liquidity_layer.Solver.Evm.{AttestationResponse, attested, fetch_attestation}

module _ {W : Type 0} (request : Io W AttestationResponse) where
  -- After `k` answers that are not complete or have no attestation comes one that is complete and has it.
  pub data Attested (a : Bytes) : ℕ → W → W → Type 0 where
    now :
        {w w' : W} (response : AttestationResponse)
        → request w ≡ (ok response, w')
        → response.complete ≡ true
        → response.attestation ≡ some a
        → Attested a 0 w w'
    later :
        {k : ℕ} {w w' w'' : W} (response : AttestationResponse)
        → request w ≡ (ok response, w')
        → ((response.complete ≡ false) ⊎ (response.attestation ≡ none))
        → Attested a k w' w''
        → Attested a (suc k) w w''

  attested-none :
      (response : AttestationResponse)
      → ((response.complete ≡ false) ⊎ (response.attestation ≡ none))
      → attested response ≡ none
  attested-none response (inl e) = rw e refl
  attested-none response (inr e) = elim (Bool-cases response.complete) [
    | inl c ↦ rw (c, e) refl
    | inr c ↦ rw c refl
  ]

  -- Where the service says that it is complete and has an attestation after `k` answers that are not complete or
  -- have none, any bound above `k` gives that attestation, after `k + 1` requests.
  pub fetch_attestation_lem :
      (a : Bytes) (k fuel : ℕ) (w w' : W)
      → Attested a k w w'
      → k ≤ fuel
      → fetch_attestation (suc fuel) request w ≡ (ok (some a), w')
  unfolding fetch_attestation
  fetch_attestation_lem a _ fuel w w' (now response e complete found) h =
      rw (e, complete, found) refl
  fetch_attestation_lem a _ zero w w' (later response e missing rest) h = absurd (omega arith)
  fetch_attestation_lem a _ (suc fuel) w w' (later {k} response e missing rest) h =
      rw (e, attested-none response missing)
        (fetch_attestation_lem a k fuel _ w' rest (omega arith))
