-- ===== src/Spy.antt =====
-- VaaSpy (solana/ts/src/wormhole/spy.ts): VAAs from the spy service, filtered, and each handed on once.
-- Times are in milliseconds. A stream of observations and of turns of the cleanup timer is a list of
-- events. The SDK's functions, which throw on what they cannot
-- read, are arguments.
pub mod Once
mod Tests
use example_liquidity_layer.Prelude.{
  Bool, Error, throw, List, Option, Result, String, [], false, if◌then◌else◌, ltb, none, ok,
  or_else, or_throw, some, suc, true, type_error, zero, ℕ, ◌&&◌, ◌-◌, ◌==◌, ◌∷◌, ◌>>=◌, ◌>>◌,
}
use example_liquidity_layer.Prelude.Maps.{has, int_key, nat_key, put}
use example_liquidity_layer.Buffer.{Bytes}
use example_liquidity_layer.AuctionHistory.{bytes_equal}

pub record VaaFilter : Type 0 where
  pub chain : String
  pub native_address : String

-- The hash is the number that its bytes write, and serves as the key that is their base64 in the code.
pub record VaaContext : Type 0 where
  pub raw : Bytes
  pub emitter_chain : ℕ
  pub emitter_address : Bytes
  pub hash : ℕ
  pub filter : Option VaaFilter

pub record SpyOpts : Type 0 where
  pub enable_cleanup : Option Bool
  pub vaa_filters : Option (List VaaFilter)
  pub seen_threshold_ms : Option ℕ
  pub interval_ms : Option ℕ
  pub max_to_remove : Option ℕ

pub record Spy : Type 0 where
  pub cleanup_enabled : Bool
  pub filters : Option (List VaaFilter)
  pub seen_hashes : Option (List (ℕ × ℕ))
  pub threshold : ℕ
  pub interval : ℕ
  pub max_removed : ℕ

abbrev pub map_option {ℓ} : {A : Type ℓ} → (A → A) → Option A → Option A
map_option f none = none
map_option f (some a) = some (f a)

-- `_startCleanupProcedure` makes the map and the timer; the constructor calls it if the option itself is
-- true, and not if it is left out.
unfoldable pub new_spy : SpyOpts → Spy
new_spy opts =
    let threshold = or_else opts.seen_threshold_ms 2000 in
    let started = or_else opts.enable_cleanup false in
    record {
      cleanup_enabled = or_else opts.enable_cleanup true;
      filters = opts.vaa_filters;
      seen_hashes = if started then some [] else none;
      threshold = threshold;
      interval = or_else opts.interval_ms threshold;
      max_removed = or_else opts.max_to_remove 69420;
    }

-- The VAA that goes to the callback, if one does, at the time `now`.
unfoldable pub process_unique_vaa : ℕ → VaaContext → Spy → Result (Option VaaContext × Spy)
process_unique_vaa now ctx spy = do
  let remember = do
    seen ← or_throw spy.seen_hashes type_error
    ok (
        if has ctx.hash seen then (none, spy) else (
          some ctx,
          record {
            cleanup_enabled = spy.cleanup_enabled;
            filters = spy.filters;
            seen_hashes = some (put ctx.hash now seen);
            threshold = spy.threshold;
            interval = spy.interval;
            max_removed = spy.max_removed;
          },
        ))
  if spy.cleanup_enabled then remember else ok (some ctx, spy)

-- The loop of the timer: it ends once `budget` hashes are deleted.
unfoldable pub clean_up : ℕ → ℕ → ℕ → List (ℕ × ℕ) → List (ℕ × ℕ)
clean_up now threshold budget [] = []
clean_up now threshold zero seen = seen
clean_up now threshold (suc budget) ((hash, time) ∷ seen) =
    let gone = clean_up now threshold budget seen in
    let stays = clean_up now threshold (suc budget) seen in
    if ltb threshold (now - time) then gone else (hash, time) ∷ stays

unfoldable pub on_timer : ℕ → Spy → Spy
unfolding clean_up
on_timer now spy = record {
  cleanup_enabled = spy.cleanup_enabled;
  filters = spy.filters;
  seen_hashes = map_option (clean_up now spy.threshold spy.max_removed) spy.seen_hashes;
  threshold = spy.threshold;
  interval = spy.interval;
  max_removed = spy.max_removed;
}

-- The bytes of an observation of the stream, or a turn of the timer, with its time.
pub data SpyEvent : Type 0 where
  observed : ℕ → Bytes → SpyEvent
  timer : ℕ → SpyEvent

-- What the SDK reads of a VAA.
pub record Parsed : Type 0 where
  pub emitter_chain : ℕ
  pub emitter_address : Bytes
  pub hash : ℕ

module _ (deserialize : Bytes → Result Parsed) (to_chain : String → Result ℕ)
    (to_universal : VaaFilter → Result Bytes) where
  unfoldable pub context : Bytes → Result VaaContext
  context raw = do
    parsed ← deserialize raw
    ok (record {
      raw = raw;
      emitter_chain = parsed.emitter_chain;
      emitter_address = parsed.emitter_address;
      hash = parsed.hash;
      filter = none;
    })

  unfoldable pub matches_address : VaaFilter → VaaContext → Result Bool
  matches_address f ctx = do address ← to_universal f; ok (bytes_equal ctx.emitter_address address)

  -- The address is made only where the chain is the filter's.
  unfoldable pub matches : VaaFilter → VaaContext → Result Bool
  unfolding matches_address
  matches f ctx = do
    chain ← to_chain f.chain
    if ctx.emitter_chain == chain then matches_address f ctx else ok false

  -- The first filter that matches, in the order of the list.
  unfoldable pub first_match : List VaaFilter → VaaContext → Result (Option VaaFilter)
  unfolding matches
  first_match [] ctx = ok none
  first_match (f ∷ fs) ctx =
      let later = first_match fs ctx in
      matches f ctx >>= λ found. if found then ok (some f) else later

  unfoldable pub on_match :
      Option VaaFilter → ℕ → VaaContext → Spy → Result (Option VaaContext × Spy)
  on_match none now ctx spy = ok (none, spy)
  on_match (some f) now ctx spy =
      process_unique_vaa now
        (record {
          raw = ctx.raw;
          emitter_chain = ctx.emitter_chain;
          emitter_address = ctx.emitter_address;
          hash = ctx.hash;
          filter = some f;
        })
        spy

  unfoldable pub on_filters :
      Option (List VaaFilter) → ℕ → VaaContext → Spy → Result (Option VaaContext × Spy)
  unfolding first_match on_match
  on_filters none now ctx spy = process_unique_vaa now ctx spy
  on_filters (some fs) now ctx spy = do found ← first_match fs ctx; on_match found now ctx spy

  unfoldable pub on_data : ℕ → Bytes → Spy → Result (Option VaaContext × Spy)
  unfolding on_filters context
  on_data now raw spy = do ctx ← context raw; on_filters spy.filters now ctx spy

  -- What goes to the callback, and when, and what comes after; an exception in the handler of the stream,
  -- which nothing catches, is the end.
  abbrev pub Run : Type 0
  Run = List (ℕ × VaaContext) × Option Error

  abbrev pub hand_on : ℕ → (rest : Spy → Run) → Result (Option VaaContext × Spy) → Run
  hand_on now rest (throw thrown) = ([], some thrown)
  hand_on now rest (ok (none, after)) = rest after
  hand_on now rest (ok (some ctx, after)) =
      let (handed, outcome) = rest after in ((now, ctx) ∷ handed, outcome)

  unfoldable pub run_spy : List SpyEvent → Spy → Run
  unfolding on_data
  run_spy [] spy = ([], none)
  run_spy (timer now ∷ events) spy = run_spy events (on_timer now spy)
  run_spy (observed now raw ∷ events) spy =
      hand_on now (λ after. run_spy events after) (on_data now raw spy)
