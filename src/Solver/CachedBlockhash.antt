-- ===== src/Solver/CachedBlockhash.antt =====
-- The cached blockhash (solver/src/containers/CachedBlockhash.ts). The network answers a request for the
-- latest blockhash at any later time; `requests` counts those that it has not answered yet.
pub mod Noise
mod Tests
use example_liquidity_layer.Prelude.{
  Bool, Error, List, Result, String, [], false, if◌then◌else◌, ok, throw, true, ℕ, ◌%◌, ◌+◌, ◌-◌,
  ◌<◌, ◌==◌, ◌||◌, ◌∷◌,
}
use example_liquidity_layer.Prelude.Int.{pos, ℤ, ◌+ℤ◌}
use example_liquidity_layer.Solver.Transactions.{BlockhashWithExpiryBlockHeight}

-- `try_again` is the variable that the two callbacks share.
pub record CachedBlockhash : Type 0 where
  pub cached : BlockhashWithExpiryBlockHeight
  pub noise : ℕ
  pub try_again : Bool
  pub requests : ℕ

-- `initialize` waits for the first blockhash.
abbrev pub initialize : BlockhashWithExpiryBlockHeight → CachedBlockhash
initialize fetched = record { cached = fetched; noise = 0; try_again = false; requests = 0 }

-- `slot % frequency == 0`; a remainder by zero is not a number, so it is not zero.
abbrev pub is_due : (update_blockhash_frequency slot : ℕ) → Bool
is_due update_blockhash_frequency slot =
    if update_blockhash_frequency == 0 then false else slot % update_blockhash_frequency == 0

unfoldable pub on_slot_change :
    (update_blockhash_frequency slot : ℕ) → CachedBlockhash → CachedBlockhash
on_slot_change update_blockhash_frequency slot c = record {
  cached = c.cached;
  noise = c.noise;
  try_again = c.try_again;
  requests =
      if c.try_again || is_due update_blockhash_frequency slot then c.requests + 1 else c.requests;
}

-- The two handlers of a request: a blockhash is kept and starts the noise anew, an error asks for another
-- try at the next slot.
unfoldable pub on_answer : Result BlockhashWithExpiryBlockHeight → CachedBlockhash → CachedBlockhash
on_answer (ok fetched) c = record {
  cached = fetched;
  noise = 0;
  try_again = false;
  requests = c.requests - 1;
}
on_answer (throw e) c = record {
  cached = c.cached;
  noise = c.noise;
  try_again = true;
  requests = c.requests - 1;
}

-- `value + this._noise++`
unfoldable pub add_noise : ℤ → CachedBlockhash → ℤ × CachedBlockhash
add_noise value c = (
  value +ℤ pos c.noise,
  record { cached = c.cached; noise = c.noise + 1; try_again = c.try_again; requests = c.requests },
)

-- What has been handed out, as the blockhash of the time and the value with its noise, the blockhashes that
-- were fetched, the last first, and the cache, after a run in which the noise is added to `value`.
pub data Reached (frequency : ℕ) (value : ℤ)
    : List (String × ℤ) → List String → CachedBlockhash → Type 0 where
  starts :
      (b : BlockhashWithExpiryBlockHeight)
      → Reached frequency value [] (b.blockhash ∷ []) (initialize b)
  slot_changes :
      (given : List (String × ℤ)) (hashes : List String) (c : CachedBlockhash) (slot : ℕ)
      → Reached frequency value given hashes c
      → Reached frequency value given hashes (on_slot_change frequency slot c)
  answers :
      (given : List (String × ℤ)) (hashes : List String) (c : CachedBlockhash)
      (b : BlockhashWithExpiryBlockHeight)
      → 0 < c.requests
      → Reached frequency value given hashes c
      → Reached frequency value given (b.blockhash ∷ hashes) (on_answer (ok b) c)
  fails :
      (given : List (String × ℤ)) (hashes : List String) (c : CachedBlockhash) (e : Error)
      → 0 < c.requests
      → Reached frequency value given hashes c
      → Reached frequency value given hashes (on_answer (throw e) c)
  adds_noise :
      (given : List (String × ℤ)) (hashes : List String) (c : CachedBlockhash)
      → Reached frequency value given hashes c
      → Reached frequency value
          ((c.cached.blockhash, (add_noise value c).0) ∷ given)
          hashes
          ((add_noise value c).1)
