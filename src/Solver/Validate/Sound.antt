-- ===== src/Solver/Validate/Sound.antt =====
-- What a configuration that is accepted has.
use example_liquidity_layer.Prelude.{
  >>=-eq-ok, All, Bool, Error, List, Result, String, [], ap, arith, false, guard, not, ok, refl,
  subst, sym, true, ◌||◌, ◌∙◌, ◌∷◌, ◌≡◌,
}
use text.Mathlib.TextEquality.{eq_iff}
use example_liquidity_layer.Solver.Json.{
  Double, Value, array, bool, gt_one, is_number, is_undefined, le_zero, lt_zero, null, number,
  object, property, string, undefined,
}
use example_liquidity_layer.Solver.Validate.{
  Checks, chain_text, check_chain, check_double, check_endpoint, check_pricing, for_each,
  is_chain_type, is_text,
}

pub guard-eq-ok : (b : Bool) (e : Error) → guard b e ≡ ok tt → b ≡ true
guard-eq-ok true e h = refl
guard-eq-ok false e h = cc

pub for_each-All {ℓ κ} :
    {A : Type ℓ} {P : A → Type κ} (check : A → Result (Unit {0})) (xs : List A)
    → ((x : A) → check x ≡ ok tt → P x)
    → for_each check xs ≡ ok tt
    → All P xs
for_each-All check [] f h = tt
for_each-All check (x ∷ xs) f h =
    let (u, e, rest) = >>=-eq-ok (check x) (λ _. for_each check xs) h in
    (f x e, for_each-All check xs f rest)

module _ (c : Checks) where
  -- Pricing for a chain of the SDK, with a probability in (0, 1] and an edge that is not negative.
  pub record PricingIsValid (v : Value) : Type 0 where
    pub chain : String
    pub has_chain : property v "chain" ≡ ok (string chain)
    pub is_chain : c.is_chain chain ≡ true
    pub probability : Double
    pub has_probability : property v "probability" ≡ ok (number probability)
    pub positive : le_zero probability ≡ false
    pub at_most_one : gt_one probability ≡ false
    pub edge : Double
    pub has_edge : property v "edgePctOfFv" ≡ ok (number edge)
    pub not_negative : lt_zero edge ≡ false

  check_chain-string :
      (name : String) (v : Value)
      → check_chain c name v ≡ ok tt
      → (s : String) × (v ≡ string s) × (c.is_chain s ≡ true)
  check_chain-string name undefined h = cc
  check_chain-string name null h = cc
  check_chain-string name (bool b) h = cc
  check_chain-string name (number d) h = cc
  check_chain-string name (array vs) h = cc
  check_chain-string name (object fs) h = cc
  check_chain-string name (string s) h = (s, refl, guard-eq-ok (c.is_chain s) _ h)

  check_double-number :
      (name : String) (bad : Double → Bool) (range : String) (v : Value)
      → check_double c name bad range v ≡ ok tt
      → (d : Double) × (v ≡ number d) × (bad d ≡ false)
  check_double-number name bad range undefined h = cc
  check_double-number name bad range null h = cc
  check_double-number name bad range (bool b) h = cc
  check_double-number name bad range (string s) h = cc
  check_double-number name bad range (array vs) h = cc
  check_double-number name bad range (object fs) h = cc
  check_double-number name bad range (number d) h =
      (d, refl, ground (arith, guard-eq-ok (not (bad d)) _ h))

  pub check_pricing-valid : (v : Value) → check_pricing c v ≡ ok tt → PricingIsValid v
  unfolding check_pricing
  check_pricing-valid v h =
      let out_of_range = λ (d : Double). le_zero d || gt_one d in
      let (chain, e1, h1) = >>=-eq-ok (property v "chain") _ h in
      let (probability, e2, h2) = >>=-eq-ok (property v "probability") _ h1 in
      let (edge, e3, h3) = >>=-eq-ok (property v "edgePctOfFv") _ h2 in
      let (_, e4, h4) = >>=-eq-ok (check_chain c "pricingParameter" chain) _ h3 in
      let (_, e5, e6) =
        >>=-eq-ok
          (check_double c "pricingParameter.probability" out_of_range " must be in (0, 1]"
            probability)
          _ h4 in
      let (s, is_s, known) = check_chain-string "pricingParameter" chain e4 in
      let (d, is_d, good) =
        check_double-number "pricingParameter.probability" out_of_range " must be in (0, 1]"
          probability e5 in
      let (x, is_x, fine) =
        check_double-number "pricingParameter.edgePctOfFv" lt_zero " must be non-negative" edge
          e6 in
      record {
        chain = s;
        has_chain = e1 ∙ ap ok is_s;
        is_chain = known;
        probability = d;
        has_probability = e2 ∙ ap ok is_d;
        positive = or_left (le_zero d) (gt_one d) good;
        at_most_one = or_right (le_zero d) (gt_one d) good;
        edge = x;
        has_edge = e3 ∙ ap ok is_x;
        not_negative = fine;
      }
    where
      or_left : (a b : Bool) → (a || b) ≡ false → a ≡ false
      or_left true b e = cc
      or_left false b e = refl

      or_right : (a b : Bool) → (a || b) ≡ false → b ≡ false
      or_right true b e = cc
      or_right false b e = e

  -- An endpoint of a chain of the SDK, of one of the two types, with an RPC and a check-summed address that is
  -- an address of that chain.
  pub record EndpointIsValid (v : Value) : Type 0 where
    pub chain : String
    pub has_chain : property v "chain" ≡ ok (string chain)
    pub is_chain : c.is_chain chain ≡ true
    pub chain_type : Double
    pub has_chain_type : property v "chainType" ≡ ok (number chain_type)
    pub evm_or_solana : (is_number chain_type 0 || is_number chain_type 1) ≡ true
    pub rpc : Value
    pub has_rpc : property v "rpc" ≡ ok rpc
    pub rpc_is_there : is_undefined rpc ≡ false
    pub endpoint : String
    pub has_endpoint : property v "endpoint" ≡ ok (string endpoint)
    pub is_checksummed : c.get_address (string endpoint) ≡ ok endpoint
    pub is_native : c.to_native chain (string endpoint) ≡ ok tt

  chain_type-number :
      (v : Value)
      → is_chain_type c v ≡ true
      → (d : Double) × (v ≡ number d) × ((is_number d 0 || is_number d 1) ≡ true)
  chain_type-number (number d) h = (d, refl, h)
  chain_type-number undefined h = cc
  chain_type-number null h = cc
  chain_type-number (bool b) h = cc
  chain_type-number (string s) h = cc
  chain_type-number (array vs) h = cc
  chain_type-number (object fs) h = cc

  is_text-string : (v : Value) (t : String) → is_text c v t ≡ true → v ≡ string t
  is_text-string (string s) t h = ap string ((eq_iff s t).0 h)
  is_text-string undefined t h = cc
  is_text-string null t h = cc
  is_text-string (bool b) t h = cc
  is_text-string (number d) t h = cc
  is_text-string (array vs) t h = cc
  is_text-string (object fs) t h = cc

  not-eq-true : (b : Bool) → not b ≡ true → b ≡ false
  not-eq-true false h = refl
  not-eq-true true h = cc

  pub check_endpoint-valid : (v : Value) → check_endpoint c v ≡ ok tt → EndpointIsValid v
  unfolding check_endpoint
  check_endpoint-valid v h =
      let (chain, e1, h1) = >>=-eq-ok (property v "chain") _ h in
      let (rpc, e2, h2) = >>=-eq-ok (property v "rpc") _ h1 in
      let (endpoint, e3, h3) = >>=-eq-ok (property v "endpoint") _ h2 in
      let (chain_type, e4, h4) = >>=-eq-ok (property v "chainType") _ h3 in
      let (_, e5, h5) = >>=-eq-ok (check_chain c "endpointConfig" chain) _ h4 in
      let (_, _, h6) = >>=-eq-ok (guard (not (is_undefined chain_type)) _) _ h5 in
      let (_, e7, h7) = >>=-eq-ok (guard (is_chain_type c chain_type) _) _ h6 in
      let (_, e8, h8) = >>=-eq-ok (guard (not (is_undefined rpc)) _) _ h7 in
      let (_, _, h9) = >>=-eq-ok (guard (not (is_undefined endpoint)) _) _ h8 in
      let (address, e10, h10) = >>=-eq-ok (c.get_address endpoint) _ h9 in
      let (_, e11, e12) = >>=-eq-ok (guard (is_text c endpoint address) _) _ h10 in
      let (s, is_s, known) = check_chain-string "endpointConfig" chain e5 in
      let (d, is_d, one) = chain_type-number chain_type (guard-eq-ok _ _ e7) in
      let same = is_text-string endpoint address (guard-eq-ok _ _ e11) in
      record {
        chain = s;
        has_chain = e1 ∙ ap ok is_s;
        is_chain = known;
        chain_type = d;
        has_chain_type = e4 ∙ ap ok is_d;
        evm_or_solana = one;
        rpc = rpc;
        has_rpc = e2;
        rpc_is_there = not-eq-true (is_undefined rpc) (guard-eq-ok _ _ e8);
        endpoint = address;
        has_endpoint = e3 ∙ ap ok same;
        is_checksummed = subst (λ x. c.get_address x ≡ ok address) same e10;
        is_native =
            sym (ap (λ x. c.to_native (chain_text c x) endpoint) is_s ∙ ap (c.to_native s) same)
            ∙ e12;
      }
