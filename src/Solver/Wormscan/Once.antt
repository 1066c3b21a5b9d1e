-- ===== src/Solver/Wormscan/Once.antt =====
-- The loop of retries makes one request.
use example_liquidity_layer.Solver.Io.{Io, continue, lift}
use example_liquidity_layer.Prelude.{
  Option, Result, String, none, ok, refl, some, suc, throw, zero, ℕ, ◌≡◌,
}
use example_liquidity_layer.Buffer.{Bytes}
use example_liquidity_layer.Solver.Wormscan.{
  WormscanAnswer, fetch_loop, fetch_vaa_from_wormscan, no_response, read_content,
}

module _ {W : Type 0} (request : Io W WormscanAnswer) where
  after_answer :
      (left : ℕ) (content : Option (Option String × Option Bytes)) (w : W)
      → continue (lift (read_content content) w) (fetch_loop request left)
        ≡ (read_content content, w)
  unfolding fetch_loop
  after_answer left none w = refl
  after_answer left (some (tx_hash, none)) w = refl
  after_answer zero (some (tx_hash, some vaa)) w = refl
  after_answer (suc left) (some (tx_hash, some vaa)) w = refl

  one_request :
      (left : ℕ) (r : Result WormscanAnswer × W)
      → continue r
          (λ answer w. continue (lift (read_content answer.content) w) (fetch_loop request left))
        ≡ continue r (λ answer. lift (read_content answer.content))
  one_request left (ok answer, w) = after_answer left answer.content w
  one_request left (throw e, w) = refl

-- However many retries are configured, at least one, the solver makes one request: its answer is the result,
-- and what the request or the reading of its answer throws is thrown. With none it answers nothing.
pub fetch_vaa_from_wormscan_lem :
    {W : Type 0} (request : Io W WormscanAnswer) (max_retries : ℕ) (w : W)
    → (fetch_vaa_from_wormscan request (suc max_retries) w
        ≡ continue (request w) (λ answer. lift (read_content answer.content)))
      × (fetch_vaa_from_wormscan request 0 w ≡ (ok no_response, w))
unfolding fetch_vaa_from_wormscan fetch_loop
fetch_vaa_from_wormscan_lem request max_retries w =
    (one_request request max_retries (request w), refl)
