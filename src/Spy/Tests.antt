-- ===== src/Spy/Tests.antt =====
-- A history of observations on which the theorems of the spy are applied.
use example_liquidity_layer.Prelude.{
  Error, Option, range_error, List, Result, String, [], arith, false, map, none, ok, refl, some,
  throw, true, type_error, ℕ, ◌∷◌, ◌≡◌,
}
use example_liquidity_layer.Prelude.Maps.{has, int_key, nat_key, put}
use example_liquidity_layer.AuctionHistory.{bytes_equal}
use example_liquidity_layer.Buffer.{Bytes}
use example_liquidity_layer.Spy.{
  Parsed, context, matches_address, SpyEvent, SpyOpts, VaaContext, VaaFilter, clean_up, first_match,
  matches, new_spy, observed, on_data, on_filters, on_match, on_timer, process_unique_vaa, run_spy,
  timer,
}
use example_liquidity_layer.Spy.Once.{EndedBy, Apart, new_spy_first, run_spy-Apart, started}

abbrev opts : SpyOpts
opts = record {
  enable_cleanup = some true;
  vaa_filters = some (record { chain = "Ethereum"; native_address = "0x01" } ∷ []);
  seen_threshold_ms = some 100;
  interval_ms = none;
  max_to_remove = none;
}

abbrev default_opts : SpyOpts
default_opts = record {
  enable_cleanup = none;
  vaa_filters = none;
  seen_threshold_ms = none;
  interval_ms = none;
  max_to_remove = none;
}

abbrev to_chain : String → Result ℕ
to_chain chain = ok 2

abbrev to_universal : VaaFilter → Result Bytes
to_universal f = ok (0 ∷ 1 ∷ [])

abbrev vaa : ℕ → VaaContext
vaa hash = record {
  raw = [];
  emitter_chain = 2;
  emitter_address = 0 ∷ 1 ∷ [];
  hash = hash;
  filter = none;
}

-- An observation of one byte is a VAA with that hash.
abbrev deserialize : Bytes → Result Parsed
deserialize [] = throw range_error
deserialize (hash ∷ raw) =
    ok (record { emitter_chain = 2; emitter_address = 0 ∷ 1 ∷ []; hash = hash })

-- The second and the fourth are of a hash that was seen; the timer forgets it before the fifth. The last is no VAA.
abbrev events : List SpyEvent
events =
    observed 10 (5 ∷ [])
    ∷ observed 20 (5 ∷ [])
    ∷ observed 30 (6 ∷ [])
    ∷ observed 90 (5 ∷ [])
    ∷ timer 200
    ∷ observed 210 (5 ∷ [])
    ∷ observed 220 []
    ∷ []

abbrev handed_times : List (ℕ × VaaContext) × Option Error → List ℕ × Option Error
handed_times (handed, outcome) = (map (λ d. d.0) handed, outcome)

three_handed :
    handed_times (run_spy deserialize to_chain to_universal events (new_spy opts))
    ≡ (10 ∷ 30 ∷ 210 ∷ [], some range_error)
unfolding run_spy new_spy on_data context on_filters on_match first_match matches matches_address
    process_unique_vaa on_timer clean_up has put bytes_equal
three_handed = refl

run_spy-Apart_example :
    (handed : List (ℕ × VaaContext)) × (outcome : Option Error) × (run_spy deserialize to_chain
        to_universal events
        (new_spy opts)
      ≡ (handed, outcome))
    × Apart 100 handed
    × EndedBy deserialize to_chain to_universal opts.vaa_filters events outcome
run_spy-Apart_example = run_spy-Apart deserialize to_chain to_universal opts events 0 refl (
  omega arith,
  (omega arith, (omega arith, (omega arith, (omega arith, (omega arith, (omega arith, tt)))))),
)

new_spy_first_example :
    (default_opts.enable_cleanup ≡ none
      → process_unique_vaa 10 (vaa 5) (new_spy default_opts) ≡ throw type_error)
    × (default_opts.enable_cleanup ≡ some false
        → process_unique_vaa 10 (vaa 5) (new_spy default_opts)
          ≡ ok (some (vaa 5), new_spy default_opts))
    × (default_opts.enable_cleanup ≡ some true
        → process_unique_vaa 10 (vaa 5) (new_spy default_opts)
          ≡ ok (some (vaa 5), started default_opts ((5, 10) ∷ [])))
new_spy_first_example = new_spy_first default_opts 10 (vaa 5)
