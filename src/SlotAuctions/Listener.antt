-- ===== src/SlotAuctions/Listener.antt =====
-- The two callbacks that keep SlotOrderedAuctions, and any history of them.
use example_liquidity_layer.Prelude.{
  All, Bool, Bool-cases, List, Option, Result, [], false, if◌then◌else◌, inl, inr, none, ok, refl,
  some, subst, suc, ℕ, ◌++◌, ◌||◌, ◌∙◌, ◌∷◌, ◌≡◌, ◌>>=◌,
}
use example_liquidity_layer.Prelude.Int.{ℤ}
use example_liquidity_layer.Prelude.Maps.{
  delete, get, get-delete, get-put, int_key, nat_key, put, ◌===◌,
}
use example_liquidity_layer.Uint64.{Uint64, bn, number, uint64_to_bigint}
use example_liquidity_layer.SlotAuctions.{
  AuctionDetails, Due, SlotOrderedAuctions, add_at, add_auction, dequeue, head_slot, includes,
  keep_due, sort_slots, take_details, update_auction,
}
use example_liquidity_layer.SlotAuctions.Order.{
  IsSorted, Other, Other-sym, SlotHasDigits, includes-All, sort-All_snoc, sort-IsSorted_snoc,
  sorted-Other,
}

-- The fields of `AuctionUpdated` that the callback reads.
pub record AuctionUpdated : Type 0 where
  pub auction : ℕ
  pub vaa : Option ℕ
  pub best_offer_token : ℕ
  pub end_slot : ℤ

-- `ourTokenAccounts.find((ours) => ours.equals(key)) !== undefined`
unfoldable pub finds : ℕ → List ℕ → Bool
finds key [] = false
finds key (o ∷ os) = o === key || finds key os

-- The callback for the "auctionUpdated" event.
unfoldable pub on_auction_updated :
    List ℕ → SlotOrderedAuctions → AuctionUpdated → Result SlotOrderedAuctions
on_auction_updated ours s event =
    let execute = finds event.best_offer_token ours in
    elim event.vaa [
      | some vaa ↦ add_auction s (bn event.end_slot) event.auction vaa execute
      | none ↦ ok (update_auction s event.auction execute).0
    ]

-- The callback for a new slot, and the auctions that it starts to execute.
unfoldable pub on_slot_change :
    SlotOrderedAuctions → Uint64 → Result (List Due × SlotOrderedAuctions)
on_slot_change s slot = do
  current ← uint64_to_bigint slot
  elim (head_slot s) [
    | none ↦ ok ([], s)
    | some head ↦ let due = dequeue s in if current === head then due else ok ([], s)
  ]

-- One attempt of `executeOrderWithRetry`: making or sending the transaction may throw, and `sendTx`
-- answers whether the network took it.
pub data Attempt : Type 0 where
  throws : Attempt
  sends : Bool → Attempt

-- `while (!success)` over the attempts' outcomes, and how many it uses; none if it uses all and would
-- go on. What `sendTx` answers is dropped by `.then((_) => true)`.
unfoldable pub execute_order_with_retry : List Attempt → Option ℕ
execute_order_with_retry [] = none
execute_order_with_retry (throws ∷ more) = elim (execute_order_with_retry more) [
  | none ↦ none
  | some n ↦ some (suc n)
]
execute_order_with_retry (sends success ∷ more) = some 1

pub data Event : Type 0 where
  updated : AuctionUpdated → Event
  slot_changed : ℤ → Event

unfoldable pub handle :
    List ℕ → SlotOrderedAuctions → Event → Result (List Due × SlotOrderedAuctions)
handle ours s (updated event) = do t ← on_auction_updated ours s event; ok ([], t)
handle ours s (slot_changed slot) = on_slot_change s (number slot)

abbrev pub HasList : List (ℤ × List ℕ) → ℤ → Type 0
HasList m s = (keys : List ℕ) × (get s m ≡ some keys)

pub record IsValid (k : ℕ) (s : SlotOrderedAuctions) : Type 0 where
  pub digits : All (SlotHasDigits k) s.slots
  pub sorted : IsSorted s.slots
  pub lists : All (HasList s.auctions_per_slot) s.slots

put-HasList :
    (m : List (ℤ × List ℕ)) (s t : ℤ) (keys : List ℕ) → HasList m t → HasList (put s keys m) t
put-HasList m s t keys h = elim (Bool-cases (s === t)) [
  | inl same ↦ (keys, get-put s t keys m ∙ rw same)
  | inr other ↦ (h.0, get-put s t keys m ∙ rw other h.1)
]

put-All-HasList :
    (m : List (ℤ × List ℕ)) (s : ℤ) (keys : List ℕ) (ts : List ℤ)
    → All (HasList m) ts
    → All (HasList (put s keys m)) ts
put-All-HasList m s keys [] h = tt
put-All-HasList m s keys (t ∷ ts) h = (put-HasList m s t keys h.0, put-All-HasList m s keys ts h.1)

pub put-HasList_self :
    (m : List (ℤ × List ℕ)) (s : ℤ) (keys : List ℕ) → get s (put s keys m) ≡ some keys
put-HasList_self m s keys = get-put s s keys m ∙ rw ((int_key.same_iff s s).1 refl)

delete-All-HasList :
    (m : List (ℤ × List ℕ)) (s : ℤ) (ts : List ℤ)
    → All (Other s) ts
    → All (HasList m) ts
    → All (HasList (delete s m)) ts
delete-All-HasList m s [] o h = tt
delete-All-HasList m s (t ∷ ts) o h =
    ((h.0.0, get-delete s t m ∙ rw (Other-sym s t o.0) h.0.1), delete-All-HasList m s ts o.1 h.1)

-- Adding an auction at a slot of `k + 1` digits succeeds and keeps the state valid.
pub add_at-IsValid :
    (k : ℕ) (s : SlotOrderedAuctions) (slot : ℤ) (auction fast_vaa : ℕ) (execute : Bool)
    → IsValid k s
    → SlotHasDigits k slot
    → (t : SlotOrderedAuctions) × (add_at s slot auction fast_vaa execute ≡ ok t) × IsValid k t
unfolding add_at
add_at-IsValid k s slot auction fast_vaa execute valid d =
    elim (Bool-cases (includes slot s.slots)) [
      | inl known ↦
          let (keys, e) =
            includes-All (HasList s.auctions_per_slot) slot s.slots known valid.lists in
          (
            record {
              slots = s.slots;
              auctions_per_slot = put slot (keys ++ auction ∷ []) s.auctions_per_slot;
              auctions = put auction details s.auctions;
            },
            rw (known, e),
            record {
              digits = valid.digits;
              sorted = valid.sorted;
              lists =
                  put-All-HasList s.auctions_per_slot slot (keys ++ auction ∷ []) s.slots
                    valid.lists;
            },
          )
      | inr fresh ↦
          let lists = put slot [] s.auctions_per_slot in
          let (all, sorted) = sort-IsSorted_snoc k s.slots slot d valid.digits fresh valid.sorted in
          (
            record {
              slots = sort_slots (s.slots ++ slot ∷ []);
              auctions_per_slot = put slot ([] ++ auction ∷ []) lists;
              auctions = put auction details s.auctions;
            },
            rw (fresh, put-HasList_self s.auctions_per_slot slot []),
            record {
              digits = all;
              sorted = sorted;
              lists =
                  put-All-HasList lists slot ([] ++ auction ∷ [])
                    (sort_slots (s.slots ++ slot ∷ []))
                    (sort-All_snoc (HasList lists) s.slots slot
                      (put-All-HasList s.auctions_per_slot slot [] s.slots valid.lists)
                      ([], put-HasList_self s.auctions_per_slot slot []));
            },
          )
    ]
  where
    details : AuctionDetails
    details = record { slot = slot; fast_vaa = fast_vaa; execute = execute }

-- On a valid state with a slot `dequeue` succeeds, takes off the first slot and keeps the rest valid.
pub dequeue-IsValid :
    (k : ℕ) (s : SlotOrderedAuctions) (slot : ℤ) (rest : List ℤ)
    → IsValid k s
    → s.slots ≡ slot ∷ rest
    → (due : List Due) × (t : SlotOrderedAuctions) × (dequeue s ≡ ok (due, t))
      × (t.slots ≡ rest)
      × IsValid k t
unfolding dequeue
dequeue-IsValid k s slot rest valid e =
    let digits = subst (All (SlotHasDigits k)) e valid.digits in
    let sorted = subst IsSorted e valid.sorted in
    let lists = subst (All (HasList s.auctions_per_slot)) e valid.lists in
    let (keys, found) = lists.0 in
    let (due, left) = take_details keys s.auctions in
    (
      keep_due due,
      record { slots = rest; auctions_per_slot = delete slot s.auctions_per_slot; auctions = left },
      rw (e, found),
      refl,
      record {
        digits = digits.1;
        sorted = sorted.1;
        lists =
            delete-All-HasList s.auctions_per_slot slot rest
              (sorted-Other k slot rest digits.1 sorted.0) lists.1;
      },
    )
