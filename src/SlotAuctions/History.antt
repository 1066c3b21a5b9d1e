-- ===== src/SlotAuctions/History.antt =====
-- Any history of the two callbacks, from the empty state.
use example_liquidity_layer.Prelude.{
  All, Bool, Bool-cases, List, Option-cases, Result, [], ap, arith, false, inl, inr, none, ok, refl,
  some, subst, ℕ, ◌++◌, ◌+◌, ◌<◌, ◌==◌, ◌^◌, ◌∷◌, ◌≡◌, ◌≤◌, ◌>>=◌,
}
use example_liquidity_layer.Prelude.Int.{add_pos, pos, pos_part, ℤ}
use example_liquidity_layer.Prelude.Maps.{get, int_key, nat_key, put, ◌===◌}
use example_liquidity_layer.Uint64.{bn, number, uint64_to_bigint}
use example_liquidity_layer.Uint64.Laws.{uint64_to_bigint_u64}
use example_liquidity_layer.SlotAuctions.{
  AuctionDetails, Due, SlotOrderedAuctions, add_at, add_auction, empty_auctions, head_slot,
  includes, insert_slot, sort_slots, update_auction,
}
use example_liquidity_layer.SlotAuctions.Order.{IsSorted}
use example_liquidity_layer.SlotAuctions.Text.{HasDigits, leading, slot_text-leading}
use example_liquidity_layer.SlotAuctions.Listener.{
  Event, IsValid, add_at-IsValid, dequeue-IsValid, finds, handle, on_auction_updated,
  on_slot_change, put-HasList_self, slot_changed, updated,
}

-- The callbacks in the order in which the network makes them, with what they execute.
pub run_events : List ℕ → SlotOrderedAuctions → List Event → Result (List Due × SlotOrderedAuctions)
run_events ours s [] = ok ([], s)
run_events ours s (e ∷ es) = do
  (due, t) ← handle ours s e
  (more, u) ← run_events ours t es
  ok (due ++ more, u)

-- The slot after the auction's end is a u64 of `k + 1` digits.
abbrev pub EventHasDigits : ℕ → Event → Type 0
EventHasDigits k (updated e) = (n : ℕ) × (e.end_slot ≡ pos n) × (n < 2 ^ 64) × HasDigits k (n + 1)
EventHasDigits k (slot_changed slot) = Unit {0}

update-IsValid :
    (k : ℕ) (s : SlotOrderedAuctions) (auction : ℕ) (execute : Bool)
    → IsValid k s
    → IsValid k (update_auction s auction execute).0
unfolding update_auction
update-IsValid k s auction execute valid = elim (Option-cases (get auction s.auctions)) [
  | inl e ↦ rw (e, update_auction) valid
  | inr (d, e) ↦
      rw (e, update_auction)
        (record { digits = valid.digits; sorted = valid.sorted; lists = valid.lists })
]

add_auction-IsValid :
    (k : ℕ) (s : SlotOrderedAuctions) (end_slot n auction fast_vaa : ℕ) (execute : Bool)
    → IsValid k s
    → n < 2 ^ 64
    → HasDigits k (n + 1)
    → (t : SlotOrderedAuctions) × (add_auction s (bn (pos n)) auction fast_vaa execute ≡ ok t)
      × IsValid k t
unfolding add_auction
add_auction-IsValid k s end_slot n auction fast_vaa execute valid fits d =
    let (t, e, v) = add_at-IsValid k s (pos (n + 1)) auction fast_vaa execute valid d in
    (t, rw (uint64_to_bigint_u64 (bn (pos n)) n refl fits, add_pos n 1) e, v)

head_none : (s : SlotOrderedAuctions) → s.slots ≡ [] → head_slot s ≡ none
unfolding head_slot
head_none s e = rw e

head_some :
    (s : SlotOrderedAuctions) (slot : ℤ) (rest : List ℤ)
    → s.slots ≡ slot ∷ rest
    → head_slot s ≡ some slot
unfolding head_slot
head_some s slot rest e = rw e

slot_change-IsValid :
    (k : ℕ) (s : SlotOrderedAuctions) (slot : ℤ) (slots : List ℤ)
    → s.slots ≡ slots
    → IsValid k s
    → (due : List Due) × (t : SlotOrderedAuctions) × (on_slot_change s (number slot) ≡ ok (due, t))
      × IsValid k t
unfolding on_slot_change uint64_to_bigint
slot_change-IsValid k s slot [] e valid = ([], s, rw (head_none s e), valid)
slot_change-IsValid k s slot (head ∷ rest) e valid = elim (Bool-cases (slot === head)) [
  | inl now ↦
      let (due, t, done, _, v) = dequeue-IsValid k s head rest valid e in
      (due, t, rw (head_some s head rest e, now) done, v)
  | inr later ↦ ([], s, rw (head_some s head rest e, later), valid)
]

-- A callback never throws, and keeps the state valid.
handle-IsValid :
    (k : ℕ) (ours : List ℕ) (s : SlotOrderedAuctions) (e : Event)
    → IsValid k s
    → EventHasDigits k e
    → (due : List Due) × (t : SlotOrderedAuctions) × (handle ours s e ≡ ok (due, t)) × IsValid k t
unfolding handle on_auction_updated on_slot_change
handle-IsValid k ours s (updated e) valid (n, end, fits, d) = elim (Option-cases e.vaa) [
  | inl none_there ↦ (
    [],
    (update_auction s e.auction (finds e.best_offer_token ours)).0,
    rw none_there,
    update-IsValid k s e.auction (finds e.best_offer_token ours) valid,
  )
  | inr (vaa, there) ↦
      let execute = finds e.best_offer_token ours in
      let (t, added, v) = add_auction-IsValid k s n n e.auction vaa execute valid fits d in
      ([], t, rw (there, end, added), v)
]
handle-IsValid k ours s (slot_changed slot) valid _ =
    slot_change-IsValid k s slot s.slots refl valid

run-IsValid :
    (k : ℕ) (ours : List ℕ) (s : SlotOrderedAuctions) (es : List Event)
    → IsValid k s
    → All (EventHasDigits k) es
    → (due : List Due) × (t : SlotOrderedAuctions) × (run_events ours s es ≡ ok (due, t))
      × IsValid k t
unfolding run_events
run-IsValid k ours s [] valid h = ([], s, refl, valid)
run-IsValid k ours s (e ∷ es) valid h =
    let (due, t, first, v) = handle-IsValid k ours s e valid h.0 in
    let (more, u, rest, w) = run-IsValid k ours t es v h.1 in (due ++ more, u, rw (first, rest), w)

sorted_least :
    (t : SlotOrderedAuctions) (slots : List ℤ)
    → t.slots ≡ slots
    → IsSorted slots
    → (head : ℤ) → head_slot t ≡ some head
    → All (λ x. pos_part head ≤ pos_part x) slots
unfolding head_slot
sorted_least t [] e h head is = tt
sorted_least t (s ∷ ss) e h head is =
    let same : s ≡ head = ground (arith, e, is) in
    (
      omega (arith, ap pos_part same),
      weaken ss (subst (λ z. All (λ x. pos_part z < pos_part x) ss) same h.0),
    )
  where
    weaken :
        (xs : List ℤ)
        → All (λ x. pos_part head < pos_part x) xs
        → All (λ x. pos_part head ≤ pos_part x) xs
    weaken [] all = tt
    weaken (x ∷ xs) all = (omega (arith, all.0), weaken xs all.1)

-- While all slots have the same count of decimal digits, no history of auction updates and slot
-- changes makes a callback throw, and the head is then the least of the slots that are kept, which
-- increase strictly.
pub history_is_ordered :
    (k : ℕ) (ours : List ℕ) (es : List Event)
    → All (EventHasDigits k) es
    → (due : List Due) × (t : SlotOrderedAuctions) × (run_events ours empty_auctions es
        ≡ ok (due, t))
      × IsSorted t.slots
      × ((head : ℤ) → head_slot t ≡ some head → All (λ x. pos_part head ≤ pos_part x) t.slots)
history_is_ordered k ours es h =
    let (due, t, e, valid) = run-IsValid k ours empty_auctions es empty-IsValid h in
    (due, t, e, valid.sorted, sorted_least t t.slots refl valid.sorted)
  where
    empty-IsValid : IsValid k empty_auctions
    empty-IsValid = unfold empty_auctions in record { digits = tt; sorted = tt; lists = tt }

-- Two slots with different counts of digits: where the later one begins with a smaller digit it
-- becomes the head, and at the earlier slot nothing is executed.
pub later_slot_comes_first :
    (j k a b auction auction' vaa vaa' : ℕ) (execute execute' : Bool)
    → HasDigits j a
    → HasDigits k b
    → a < b
    → leading k b < leading j a
    → (s t : SlotOrderedAuctions) × (add_at empty_auctions (pos a) auction vaa execute ≡ ok s)
      × (add_at s (pos b) auction' vaa' execute' ≡ ok t)
      × (head_slot t ≡ some (pos b))
      × (on_slot_change t (number (pos a)) ≡ ok ([], t))
unfolding add_at empty_auctions sort_slots insert_slot includes head_slot on_slot_change
    uint64_to_bigint
later_slot_comes_first j k a b auction auction' vaa vaa' execute execute' h i less first =
    let none_yet : List (ℤ × List ℕ) = put (pos a) [] [] in
    let m : List (ℤ × List ℕ) = put (pos a) (auction ∷ []) none_yet in
    let m' : List (ℤ × List ℕ) = put (pos b) [] m in
    let d : AuctionDetails = record { slot = pos a; fast_vaa = vaa; execute = execute } in
    let d' : AuctionDetails = record { slot = pos b; fast_vaa = vaa'; execute = execute' } in
    let differ : (a == b) ≡ false = ground arith in
    (
      record { slots = pos a ∷ []; auctions_per_slot = m; auctions = put auction d [] },
      record {
        slots = pos b ∷ pos a ∷ [];
        auctions_per_slot = put (pos b) (auction' ∷ []) m';
        auctions = put auction' d' (put auction d []);
      },
      rw (put-HasList_self [] (pos a) []),
      rw (differ, put-HasList_self m (pos b) [], slot_text-leading k j b a i h first),
      refl,
      rw differ,
    )
