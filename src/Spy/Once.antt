-- ===== src/Spy/Once.antt =====
-- Two VAAs of the same hash are not handed on within the threshold.
use example_liquidity_layer.Prelude.{
  Error, Result-cases, ==_iff, All, All-map, Bool-cases, List, Option, Result, String, [], ap,
  arith, false, inl, inr, ltb, ltb→lt, none, ok, or_else, refl, some, suc, throw, true, type_error,
  zero, ℕ, ◌+◌, ◌-◌, ◌<◌, ◌==◌, ◌∙◌, ◌∷◌, ◌≡◌, ◌≢◌, ◌≤◌, ◌⊎◌,
}
use example_liquidity_layer.Prelude.Maps.{get, get-put, has, has_not, int_key, nat_key, put}
use example_liquidity_layer.Buffer.{Bytes}
use example_liquidity_layer.Spy.{
  Parsed, context, first_match, matches, matches_address, Spy, SpyEvent, SpyOpts, VaaContext,
  VaaFilter, clean_up, new_spy, observed, on_data, on_filters, on_match, on_timer,
  process_unique_vaa, run_spy, timer,
}

abbrev pub time_of : SpyEvent → ℕ
time_of (observed now ctx) = now
time_of (timer now) = now

-- The clock does not run back.
abbrev pub InTime : ℕ → List SpyEvent → Type 0
InTime start [] = Unit
InTime start (e ∷ es) = (start ≤ time_of e) × InTime (time_of e) es

-- Of two that are handed on with the same hash, the later is so more than the threshold after.
abbrev pub Apart : ℕ → List (ℕ × VaaContext) → Type 0
Apart threshold [] = Unit
Apart threshold ((time, ctx) ∷ ds) =
    All (λ d. d.1.hash ≡ ctx.hash → time + threshold < d.0) ds × Apart threshold ds

-- A spy whose cleanup was started.
abbrev pub started : SpyOpts → List (ℕ × ℕ) → Spy
started opts seen =
    let threshold = or_else opts.seen_threshold_ms 2000 in
    record {
      cleanup_enabled = true;
      filters = opts.vaa_filters;
      seen_hashes = some seen;
      threshold = threshold;
      interval = or_else opts.interval_ms threshold;
      max_removed = or_else opts.max_to_remove 69420;
    }

-- A hash that is cleaned up was seen long ago.
clean_up-get :
    (now threshold budget hash time : ℕ) (seen : List (ℕ × ℕ))
    → get hash seen ≡ some time
    → (get hash (clean_up now threshold budget seen) ≡ some time) ⊎ (time + threshold < now)
unfolding clean_up get
clean_up-get now threshold budget hash time [] h = cc
clean_up-get now threshold zero hash time ((k, t) ∷ seen) h = inl h
clean_up-get now threshold (suc budget) hash time ((k, t) ∷ seen) h =
    elim (Bool-cases (k == hash)) [
      | inl e ↦
          let same : t ≡ time = cc (rw e at h) in
          elim (Bool-cases (ltb threshold (now - t))) [
            | inl late ↦ inr (ground (arith, ltb→lt threshold (now - t) late))
            | inr n ↦ inl (rw (n, e) (ap some same))
          ]
      | inr e ↦ elim (Bool-cases (ltb threshold (now - t))) [
        | inl late ↦ rw late (clean_up-get now threshold budget hash time seen (rw e at h))
        | inr n ↦ rw (n, e) (clean_up-get now threshold (suc budget) hash time seen (rw e at h))
      ]
    ]

module _ (deserialize : Bytes → Result Parsed) (to_chain : String → Result ℕ)
    (to_universal : VaaFilter → Result Bytes) where
  -- One of the filters has a chain or an address that the SDK does not know.
  pub data Unresolved (thrown : Error) : List VaaFilter → Type 0 where
    chain_unknown :
        (f : VaaFilter) (fs : List VaaFilter)
        → to_chain f.chain ≡ throw thrown
        → Unresolved thrown (f ∷ fs)
    address_unknown :
        (f : VaaFilter) (fs : List VaaFilter)
        → to_universal f ≡ throw thrown
        → Unresolved thrown (f ∷ fs)
    in_later :
        (f : VaaFilter) (fs : List VaaFilter) → Unresolved thrown fs → Unresolved thrown (f ∷ fs)

  -- One of the observations is no VAA, or there is one and a filter that is not resolved.
  pub data Malformed (filters : Option (List VaaFilter)) (thrown : Error)
      : List SpyEvent → Type 0 where
    undecoded :
        (now : ℕ) (raw : Bytes) (events : List SpyEvent)
        → deserialize raw ≡ throw thrown
        → Malformed filters thrown (observed now raw ∷ events)
    unresolved :
        (now : ℕ) (raw : Bytes) (events : List SpyEvent) (fs : List VaaFilter)
        → filters ≡ some fs
        → Unresolved thrown fs
        → Malformed filters thrown (observed now raw ∷ events)
    later_on :
        (event : SpyEvent) (events : List SpyEvent)
        → Malformed filters thrown events
        → Malformed filters thrown (event ∷ events)

  -- A spy runs on, or it was ended by something malformed.
  abbrev pub EndedBy : Option (List VaaFilter) → List SpyEvent → Option Error → Type 0
  EndedBy filters events none = Unit
  EndedBy filters events (some thrown) = Malformed filters thrown events

  EndedBy-later :
      (filters : Option (List VaaFilter)) (event : SpyEvent) (events : List SpyEvent)
      (outcome : Option Error)
      → EndedBy filters events outcome
      → EndedBy filters (event ∷ events) outcome
  EndedBy-later filters event events none h = tt
  EndedBy-later filters event events (some thrown) h = later_on event events h

  matches-throws :
      (f : VaaFilter) (ctx : VaaContext) (thrown : Error)
      → matches deserialize to_chain to_universal f ctx ≡ throw thrown
      → (to_chain f.chain ≡ throw thrown) ⊎ (to_universal f ≡ throw thrown)
  unfolding matches matches_address
  matches-throws f ctx thrown h = elim (Result-cases (to_chain f.chain)) [
    | inr (e, k) ↦ inl (cc (k, rw k at h))
    | inl (chain, k) ↦ elim (Bool-cases (ctx.emitter_chain == chain)) [
      | inr elsewhere ↦ absurd (cc (rw (k, elsewhere) at h))
      | inl here ↦ elim (Result-cases (to_universal f)) [
        | inr (e, u) ↦ inr (cc (u, rw (k, here, u) at h))
        | inl (address, u) ↦ absurd (cc (rw (k, here, u) at h))
      ]
    ]
  ]

  first_match-throws :
      (fs : List VaaFilter) (ctx : VaaContext) (thrown : Error)
      → first_match deserialize to_chain to_universal fs ctx ≡ throw thrown
      → Unresolved thrown fs
  unfolding first_match
  first_match-throws [] ctx thrown h = cc
  first_match-throws (f ∷ fs) ctx thrown h =
      elim (Result-cases (matches deserialize to_chain to_universal f ctx)) [
        | inr (e, m) ↦
            let same : e ≡ thrown = cc (rw m at h) in
            elim (matches-throws f ctx thrown (m ∙ ap throw same)) [
              | inl chain ↦ chain_unknown f fs chain
              | inr address ↦ address_unknown f fs address
            ]
        | inl (true, m) ↦ absurd (cc (rw m at h))
        | inl (false, m) ↦ in_later f fs (first_match-throws fs ctx thrown (rw m at h))
      ]

  module _ (opts : SpyOpts) where
    -- What an observation does to a started spy: nothing, or it hands on a VAA of a hash not yet seen, or
    -- something is malformed.
    abbrev HandsOn : (Error → Type 0) → ℕ → List (ℕ × ℕ) → Result (Option VaaContext × Spy) → Type 0
    HandsOn Bad now seen result =
        (result ≡ ok (none, started opts seen))
        ⊎ (((c : VaaContext) × (has c.hash seen ≡ false)
              × (result ≡ ok (some c, started opts (put c.hash now seen))))
            ⊎ ((thrown : Error) × (result ≡ throw thrown) × Bad thrown))

    process-HandsOn :
        (Bad : Error → Type 0) (now : ℕ) (ctx : VaaContext) (seen : List (ℕ × ℕ))
        → HandsOn Bad now seen (process_unique_vaa now ctx (started opts seen))
    unfolding process_unique_vaa
    process-HandsOn Bad now ctx seen = elim (Bool-cases (has ctx.hash seen)) [
      | inl e ↦ inl (rw e refl)
      | inr e ↦ inr (inl (ctx, e, rw e refl))
    ]

    on_match-HandsOn :
        (Bad : Error → Type 0) (found : Option VaaFilter) (now : ℕ) (ctx : VaaContext)
        (seen : List (ℕ × ℕ))
        → HandsOn Bad now seen
            (on_match deserialize to_chain to_universal found now ctx (started opts seen))
    unfolding on_match
    on_match-HandsOn Bad none now ctx seen = inl refl
    on_match-HandsOn Bad (some f) now ctx seen = process-HandsOn Bad now _ seen

    on_filters-HandsOn :
        (filters : Option (List VaaFilter)) (now : ℕ) (raw : Bytes) (events : List SpyEvent)
        (ctx : VaaContext) (seen : List (ℕ × ℕ))
        → HandsOn
            (λ thrown. Malformed filters thrown (observed now raw ∷ events))
            now
            seen
            (on_filters deserialize to_chain to_universal filters now ctx (started opts seen))
    unfolding on_filters
    on_filters-HandsOn none now raw events ctx seen = process-HandsOn _ now ctx seen
    on_filters-HandsOn (some fs) now raw events ctx seen =
        elim (Result-cases (first_match deserialize to_chain to_universal fs ctx)) [
          | inl (found, m) ↦ rw m (on_match-HandsOn _ found now ctx seen)
          | inr (thrown, m) ↦ inr (
              inr (
                thrown,
                rw m refl,
                unresolved now raw events fs refl (first_match-throws fs ctx thrown m),
              ))
        ]

    on_data-HandsOn :
        (now : ℕ) (raw : Bytes) (events : List SpyEvent) (seen : List (ℕ × ℕ))
        → HandsOn
            (λ thrown. Malformed opts.vaa_filters thrown (observed now raw ∷ events))
            now
            seen
            (on_data deserialize to_chain to_universal now raw (started opts seen))
    unfolding on_data context
    on_data-HandsOn now raw events seen = elim (Result-cases (deserialize raw)) [
      | inr (thrown, d) ↦ inr (inr (thrown, rw d refl, undecoded now raw events d))
      | inl (parsed, d) ↦ rw d (on_filters-HandsOn opts.vaa_filters now raw events _ seen)
    ]

    abbrev threshold : ℕ
    threshold = or_else opts.seen_threshold_ms 2000

    abbrev run : List SpyEvent → List (ℕ × ℕ) → List (ℕ × VaaContext) × Option Error
    run events seen = run_spy deserialize to_chain to_universal events (started opts seen)

    -- A started spy ends only with something malformed. What it hands on comes no earlier than the events, a
    -- hash that it has seen comes more than the threshold after, and so do two of one hash.
    abbrev Runs : List SpyEvent → ℕ → List (ℕ × ℕ) → List (ℕ × VaaContext) × Option Error → Type 0
    Runs events start seen result =
        All (λ d. start ≤ d.0) result.0
        × ((hash time : ℕ)
            → get hash seen ≡ some time
            → All (λ d. d.1.hash ≡ hash → time + threshold < d.0) result.0)
        × Apart threshold result.0
        × EndedBy opts.vaa_filters events result.1

    run_spy-started :
        (events : List SpyEvent) (start : ℕ) (seen : List (ℕ × ℕ))
        → InTime start events
        → Runs events start seen (run events seen)
    unfolding run_spy on_timer
    run_spy-started [] start seen h = (tt, λ hash time e. tt, tt, tt)
    run_spy-started (timer now ∷ events) start seen h =
        let gone = clean_up now threshold (or_else opts.max_to_remove 69420) seen in
        let (after, old, apart, ended) = run_spy-started events now gone h.1 in
        let ds = (run events gone).0 in
        (
          All-map ds (λ d l. omega (arith, l, h.0)) after,
          λ hash time e.
              elim (clean_up-get now threshold (or_else opts.max_to_remove 69420) hash time seen
                e) [
                  | inl k ↦ old hash time k
                  | inr late ↦ All-map ds (λ d l _. omega (arith, l, late)) after
                ],
          apart,
          EndedBy-later opts.vaa_filters (timer now) events (run events gone).1 ended,
        )
    run_spy-started (observed now raw ∷ events) start seen h =
        elim (on_data-HandsOn now raw events seen) [
          | inl same ↦
              let (after, old, apart, ended) = run_spy-started events now seen h.1 in
              rw same (
                All-map (run events seen).0 (λ d l. omega (arith, l, h.0)) after,
                old,
                apart,
                EndedBy-later opts.vaa_filters (observed now raw) events (run events seen).1 ended,
              )
          | inr (inr (thrown, stops, bad)) ↦ rw stops (tt, λ hash time e. tt, tt, bad)
          | inr (inl (c, new, handed)) ↦
              let later = put c.hash now seen in
              let (after, old, apart, ended) = run_spy-started events now later h.1 in
              rw handed (
                (h.0, All-map (run events later).0 (λ d l. omega (arith, l, h.0)) after),
                λ hash time e.
                    let differs : c.hash ≢ hash = λ same. cc (has_not c.hash seen new, same, e) in
                    let other : (c.hash == hash) ≡ false = ground (arith, differs) in
                    (
                      λ same. absurd (differs same),
                      old hash time (get-put c.hash hash now seen ∙ rw other e),
                    ),
                (
                  old c.hash now
                      (get-put c.hash c.hash now seen ∙ rw ((==_iff c.hash c.hash).1 refl) refl),
                  apart,
                ),
                EndedBy-later opts.vaa_filters (observed now raw) events (run events later).1 ended,
              )
        ]

new_spy-started :
    (opts : SpyOpts) → opts.enable_cleanup ≡ some true → new_spy opts ≡ started opts []
unfolding new_spy
new_spy-started opts on = rw on refl

-- A spy that was made with the cleanup on, in every history of observations and timer turns, whose clock
-- does not run back, hands on two VAAs of one hash only if more than the threshold lies between; the
-- history ends with an exception only if the SDK throws it at one of the observations or, where there is an
-- observation, at one of the filters.
pub run_spy-Apart :
    (deserialize : Bytes → Result Parsed) (to_chain : String → Result ℕ)
    (to_universal : VaaFilter → Result Bytes) (opts : SpyOpts) (events : List SpyEvent) (start : ℕ)
    → opts.enable_cleanup ≡ some true
    → InTime start events
    → (handed : List (ℕ × VaaContext)) × (outcome : Option Error) × (run_spy deserialize to_chain
          to_universal events
          (new_spy opts)
        ≡ (handed, outcome))
      × Apart (or_else opts.seen_threshold_ms 2000) handed
      × EndedBy deserialize to_chain to_universal opts.vaa_filters events outcome
run_spy-Apart deserialize to_chain to_universal opts events start on h =
    let (_, _, apart, ended) =
      run_spy-started deserialize to_chain to_universal opts events start [] h in
    (
      (run deserialize to_chain to_universal opts events []).0,
      (run deserialize to_chain to_universal opts events []).1,
      ap (run_spy deserialize to_chain to_universal events) (new_spy-started opts on),
      apart,
      ended,
    )

-- With the default options a spy throws a TypeError at the first VAA that passes; with the cleanup off
-- it hands on each VAA, and with the cleanup on it hands on the first one.
pub new_spy_first :
    (opts : SpyOpts) (now : ℕ) (ctx : VaaContext)
    → (opts.enable_cleanup ≡ none → process_unique_vaa now ctx (new_spy opts) ≡ throw type_error)
      × (opts.enable_cleanup ≡ some false
          → process_unique_vaa now ctx (new_spy opts) ≡ ok (some ctx, new_spy opts))
      × (opts.enable_cleanup ≡ some true
          → process_unique_vaa now ctx (new_spy opts)
            ≡ ok (some ctx, started opts ((ctx.hash, now) ∷ [])))
unfolding new_spy process_unique_vaa has put
new_spy_first opts now ctx = (λ e. rw e refl, λ e. rw e refl, λ e. rw e refl)
