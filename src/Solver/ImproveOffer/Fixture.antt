-- ===== src/Solver/ImproveOffer/Fixture.antt =====
-- The comparison of bn.js with a number, as a function.
use example_liquidity_layer.Prelude.{
  Bool, Result, error, if◌then◌else◌, le→leb, leb, lt→leb, ok, refl, throw, true, false, ℕ, ◌^◌,
}
use example_liquidity_layer.Prelude.Int.{negsuc, pos, ℤ}
use example_liquidity_layer.Solver.ImproveOffer.Guards.{IsLten}

-- `lten` of bn.js.
abbrev pub lten : ℤ → ℕ → Result Bool
lten (negsuc n) number = ok true
lten (pos value) number =
    if leb (2 ^ 26) value
    then ok false
    else if leb (2 ^ 26) number
    then throw (error "Number is too big")
    else ok (leb value number)

pub lten-IsLten : IsLten lten
lten-IsLten = record {
  exact =
      λ value number small fits. rw (lt→leb (2 ^ 26) value small, lt→leb (2 ^ 26) number fits) refl;
  large = λ value number large. rw (le→leb (2 ^ 26) value large) refl;
  refuses = λ value number small large. (
    error "Number is too big",
    rw (lt→leb (2 ^ 26) value small, le→leb (2 ^ 26) number large) refl,
  );
}
