-- ===== src/Solver/Wormscan/Tests.antt =====
-- A service on which the theorem of the request is applied: it counts the requests.

use example_liquidity_layer.Solver.Io.{Io}
use example_liquidity_layer.Prelude.{[], ok, refl, some, ℕ, ◌+◌, ◌∷◌, ◌≡◌}
use example_liquidity_layer.Solver.Wormscan.{WormscanAnswer, fetch_loop, fetch_vaa_from_wormscan}

abbrev service : Io ℕ WormscanAnswer
service w = (ok (record { content = some (some "ab12", some (1 ∷ 2 ∷ [])) }), w + 1)

one_request :
    fetch_vaa_from_wormscan service 5 0
    ≡ (ok (record { vaa = some (1 ∷ 2 ∷ []); tx_hash = some "0xab12" }), 1)
unfolding fetch_vaa_from_wormscan fetch_loop
one_request = refl
