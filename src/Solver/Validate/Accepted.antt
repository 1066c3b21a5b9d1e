-- ===== src/Solver/Validate/Accepted.antt =====
-- validateEnvironmentConfig as a whole.
use example_liquidity_layer.Prelude.{
  >>=-elim, >>=-eq-ok, All, Bool-cases, List, String, [], guard, inl, inr, length, ltb, ltb→lt, ok,
  or_throw, refl, subst, sym, ◌<◌, ◌∙◌, ◌∷◌, ◌≡◌, ◌⊎◌,
}
use text.Mathlib.Text.{◌==◌ as text_eq}
use text.Mathlib.TextEquality.{eq_iff}
use example_liquidity_layer.Solver.Json.{
  Value, array, as_array, bool, entries, null, number, object, property, string, undefined,
}
use example_liquidity_layer.Solver.Validate.{
  Checks, EnvironmentConfig, check_endpoint, check_keys, check_nonce_account, check_not_empty,
  check_pricing, check_public_key, checked_compute_units, checked_connection, checked_logging,
  checked_source_tx_hash, compute_unit_keys, environment_of, for_each, properties, root_keys,
  valid_endpoints, valid_owners, valid_pricing, validate_environment_config,
}
use example_liquidity_layer.Solver.Validate.Sound.{
  EndpointIsValid, PricingIsValid, check_endpoint-valid, check_pricing-valid, for_each-All,
  guard-eq-ok,
}

ok_inj {ℓ} : {A : Type ℓ} {x y : A} → (ok x) ≡ (ok y) → x ≡ y
ok_inj h = cc

module _ (c : Checks) where
  -- A configuration of one of the two networks, whose pricing and endpoints are valid, and whose keys are keys.
  pub record ConfigIsValid (cfg : Value) (env : EnvironmentConfig) : Type 0 where
    pub environment : (env.environment ≡ "Mainnet") ⊎ (env.environment ≡ "Testnet")
    pub pricing : All (PricingIsValid c) env.pricing
    pub owners : All (λ v. c.public_key v ≡ ok tt) env.known_ata_owners
    pub endpoints : All (EndpointIsValid c) env.endpoint_config
    pub has_endpoint : 0 < length env.endpoint_config
    pub table : c.public_key env.connection.address_lookup_table ≡ ok tt
    pub no_websocket : env.connection.ws ≡ undefined

  environment_of-network :
      (v : Value) (s : String) → environment_of c v ≡ ok s → (s ≡ "Mainnet") ⊎ (s ≡ "Testnet")
  environment_of-network (string t) s h = elim (Bool-cases (text_eq t "Mainnet")) [
    | inl m ↦ inl (sym (ok_inj (rw m at h)) ∙ (eq_iff t "Mainnet").0 m)
    | inr n ↦ elim (Bool-cases (text_eq t "Testnet")) [
      | inl m ↦ inr (sym (ok_inj (rw (n, m) at h)) ∙ (eq_iff t "Testnet").0 m)
      | inr n' ↦ absurd (cc (rw (n, n') at h))
    ]
  ]
  environment_of-network undefined s h = cc
  environment_of-network null s h = cc
  environment_of-network (bool b) s h = cc
  environment_of-network (number d) s h = cc
  environment_of-network (array vs) s h = cc
  environment_of-network (object fs) s h = cc

  valid_pricing-All :
      (cfg : Value) (vs : List Value) → valid_pricing c cfg ≡ ok vs → All (PricingIsValid c) vs
  valid_pricing-All cfg vs h =
      let (v, _, h1) = >>=-eq-ok (property cfg "pricing") _ h in
      let (found, _, h2) = >>=-eq-ok (or_throw (as_array v) _) _ h1 in
      let (_, checked, same) = >>=-eq-ok (for_each (check_pricing c) found) _ h2 in
      subst (All (PricingIsValid c)) (ok_inj same)
        (for_each-All (check_pricing c) found (check_pricing-valid c) checked)

  valid_owners-All :
      (v : Value) (vs : List Value)
      → valid_owners c v ≡ ok vs
      → All (λ x. c.public_key x ≡ ok tt) vs
  valid_owners-All v vs h =
      let (found, _, h2) = >>=-eq-ok (or_throw (as_array v) _) _ h in
      let (_, checked, same) = >>=-eq-ok (for_each (check_public_key c) found) _ h2 in
      subst (All (λ x. c.public_key x ≡ ok tt)) (ok_inj same)
        (for_each-All (check_public_key c) found (λ x e. e) checked)

  valid_endpoints-All :
      (cfg : Value) (vs : List Value)
      → valid_endpoints c cfg ≡ ok vs
      → All (EndpointIsValid c) vs × (0 < length vs)
  valid_endpoints-All cfg vs h =
      let (v, _, h1) = >>=-eq-ok (property cfg "endpointConfig") _ h in
      let (found, _, h2) = >>=-eq-ok (or_throw (as_array v) _) _ h1 in
      let (_, some_there, h3) = >>=-eq-ok (guard (ltb 0 (length found)) _) _ h2 in
      let (_, checked, same) = >>=-eq-ok (for_each (check_endpoint c) found) _ h3 in
      subst (λ xs. All (EndpointIsValid c) xs × (0 < length xs)) (ok_inj same)
        (
          for_each-All (check_endpoint c) found (check_endpoint-valid c) checked,
          ltb→lt 0 (length found) (guard-eq-ok _ _ some_there),
        )

  -- A configuration that is accepted names one of the two networks; each pricing entry has a known chain, a
  -- probability in (0, 1] and an edge that is not negative; the owners and the lookup table are public keys;
  -- there is an endpoint, and each has a known chain, one of the two types, an RPC and a check-summed address
  -- that is an address of its chain. The websocket of the configuration is dropped.
  pub validate_environment_config_lem :
      (cfg : Value) (env : EnvironmentConfig)
      → validate_environment_config c cfg ≡ ok env
      → ConfigIsValid cfg env
  unfolding validate_environment_config
  validate_environment_config_lem cfg env h = >>=-elim (entries cfg) _ h λ root _ h.
      >>=-elim (check_keys "" root_keys [] root) _ h λ _ _ h.
        >>=-elim (property cfg "environment") _ h λ value _ h.
          >>=-elim (environment_of c value) _ h λ environment network h.
            >>=-elim (checked_connection cfg) _ h λ connection _ h.
              >>=-elim (property connection "nonceAccount") _ h λ nonce _ h.
                >>=-elim (check_nonce_account c nonce) _ h λ _ _ h.
                  >>=-elim (property connection "addressLookupTable") _ h λ table _ h.
                    >>=-elim (check_public_key c table) _ h λ _ is_key h.
                      >>=-elim (property cfg "knownAtaOwners") _ h λ owners_value _ h.
                        >>=-elim (check_not_empty c owners_value) _ h λ _ _ h.
                          >>=-elim (checked_logging cfg) _ h λ logging _ h.
                            >>=-elim (checked_source_tx_hash cfg) _ h λ source _ h.
                              >>=-elim (checked_compute_units cfg) _ h λ units _ h.
                                >>=-elim (valid_pricing c cfg) _ h λ pricing priced h.
                                  >>=-elim (valid_owners c owners_value) _ h λ owners owned h.
                                    >>=-elim (valid_endpoints c cfg) _ h λ endpoints ended h.
                                      >>=-elim (property connection "rpc") _ h λ rpc _ h.
                                        >>=-elim (property connection "commitment") _ h
                                          λ commitment _ h.
                                            >>=-elim (properties logging ("app" ∷ "logic" ∷ [])) _ h
                                              λ a _ h.
                                                >>=-elim
                                                  (properties source
                                                    ("maxRetries" ∷ "retryBackoff" ∷ []))
                                                  _ h
                                                  λ b _ h.
                                                    >>=-elim (properties units compute_unit_keys) _
                                                      h
                                                      λ d _ h.
                                                        let (good, there) =
                                                          valid_endpoints-All cfg endpoints ended in
                                                        subst (ConfigIsValid cfg) (ok_inj h)
                                                          (record {
                                                            environment =
                                                            environment_of-network value environment
                                                            network;
                                                            pricing =
                                                            valid_pricing-All cfg pricing priced;
                                                            owners =
                                                            valid_owners-All owners_value owners
                                                            owned;
                                                            endpoints = good;
                                                            has_endpoint = there;
                                                            table = is_key;
                                                            no_websocket = refl;
                                                          })
