-- ===== src/SlotAuctions.antt =====
-- The class SlotOrderedAuctions of solver/src/executeOrder/app.ts, and the callbacks around it.
-- A public key is the number that its 32 bytes write, so `toString` gives two keys two texts.
pub mod Text
pub mod Order
pub mod Dequeue
pub mod Listener
pub mod History
mod Tests
use example_liquidity_layer.Prelude.{
  Bool, List, Option, Result, [], error, false, if◌then◌else◌, ltb, none, ok, or_throw, some, suc,
  throw, true, type_error, zero, ℕ, ◌%◌, ◌&&◌, ◌++◌, ◌+◌, ◌/◌, ◌==◌, ◌||◌, ◌∷◌, ◌>>=◌, ◌>>◌,
}
use example_liquidity_layer.Prelude.Int.{negsuc, pos, ℤ, ◌+ℤ◌}
use example_liquidity_layer.Prelude.Maps.{delete, get, int_key, nat_key, put, ◌===◌}
use example_liquidity_layer.Uint64.{Uint64, uint64_to_bigint}

pub record AuctionDetails : Type 0 where
  pub slot : ℤ
  pub fast_vaa : ℕ
  pub execute : Bool

pub record SlotOrderedAuctions : Type 0 where
  pub slots : List ℤ
  pub auctions_per_slot : List (ℤ × List ℕ)
  pub auctions : List (ℕ × AuctionDetails)

pub empty_auctions : SlotOrderedAuctions
empty_auctions = record { slots = []; auctions_per_slot = []; auctions = [] }

-- The decimal digits of a number, as character codes; the fuel bounds their count.
pub decimal : ℕ → ℕ → List ℕ
decimal zero n = []
decimal (suc f) n =
    let rest = decimal f (n / 10) ++ (48 + n % 10) ∷ [] in if ltb n 10 then (48 + n) ∷ [] else rest

-- `String(slot)`. A number has no more digits than its value, so the fuel is enough.
pub slot_text : ℤ → List ℕ
unfolding decimal
slot_text (pos n) = decimal (suc n) n
slot_text (negsuc n) = 45 ∷ decimal (suc (suc n)) (suc n)

-- `<` on strings: by the first code that differs.
pub text_lt : List ℕ → List ℕ → Bool
text_lt [] [] = false
text_lt [] (y ∷ ys) = true
text_lt (x ∷ xs) [] = false
text_lt (x ∷ xs) (y ∷ ys) = ltb x y || (x == y && text_lt xs ys)

pub insert_slot : ℤ → List ℤ → List ℤ
unfolding text_lt slot_text
insert_slot s [] = s ∷ []
insert_slot s (t ∷ ts) =
    if text_lt (slot_text t) (slot_text s) then t ∷ insert_slot s ts else s ∷ t ∷ ts

-- `_slots.sort()`: with no comparator JavaScript sorts by the elements' strings, stably.
pub sort_slots : List ℤ → List ℤ
unfolding insert_slot
sort_slots [] = []
sort_slots (s ∷ ss) = insert_slot s (sort_slots ss)

pub includes : ℤ → List ℤ → Bool
includes s [] = false
includes s (t ∷ ts) = if t === s then true else includes s ts

-- The body of `addAuction` once the slot is known. `get(slot)!.push` on a slot that has no list is a
-- TypeError.
pub add_at : SlotOrderedAuctions → ℤ → ℕ → ℕ → Bool → Result SlotOrderedAuctions
add_at s slot auction fast_vaa execute =
    let known = includes slot s.slots in
    let slots = if known then s.slots else sort_slots (s.slots ++ slot ∷ []) in
    let lists = if known then s.auctions_per_slot else put slot [] s.auctions_per_slot in
    let details : AuctionDetails = record { slot = slot; fast_vaa = fast_vaa; execute = execute } in
    do
      keys ← or_throw (get slot lists) type_error
      ok (record {
        slots = slots;
        auctions_per_slot = put slot (keys ++ auction ∷ []) lists;
        auctions = put auction details s.auctions;
      })

-- One slot is added, so that no auction is executed at its end slot.
pub add_auction : SlotOrderedAuctions → Uint64 → ℕ → ℕ → Bool → Result SlotOrderedAuctions
add_auction s end_slot auction fast_vaa execute = do
  slot ← uint64_to_bigint end_slot
  add_at s (slot +ℤ pos 1) auction fast_vaa execute

pub update_auction : SlotOrderedAuctions → ℕ → Bool → SlotOrderedAuctions × Bool
update_auction s auction execute = elim (get auction s.auctions) [
  | none ↦ (s, false)
  | some d ↦ (record s { auctions = put auction (record d { execute = execute }) s.auctions }, true)
]

pub head_slot : SlotOrderedAuctions → Option ℤ
head_slot s = elim s.slots [ [] ↦ none | t ∷ ts ↦ some t ]

pub record Due : Type 0 where
  pub auction : ℕ
  pub details : Option AuctionDetails

-- The `map` of `dequeue`: each key gives its details and is deleted; a key that has gone gives none.
pub take_details : List ℕ → List (ℕ × AuctionDetails) → List Due × List (ℕ × AuctionDetails)
take_details [] m = ([], m)
take_details (k ∷ ks) m =
    let (rest, left) = take_details ks (delete k m) in
    (record { auction = k; details = get k m } ∷ rest, left)

unfoldable pub is_due : Due → Bool
is_due d = elim d.details [ none ↦ false | some x ↦ x.execute ]

pub keep_due : List Due → List Due
unfolding is_due
keep_due [] = []
keep_due (d ∷ ds) = if is_due d then d ∷ keep_due ds else keep_due ds

pub dequeue : SlotOrderedAuctions → Result (List Due × SlotOrderedAuctions)
dequeue s = elim s.slots [
  | [] ↦ throw (error "No auctions to dequeue")
  | slot ∷ slots ↦ do
    keys ← or_throw (get slot s.auctions_per_slot) type_error
    let (due, left) = take_details keys s.auctions
    ok (
      keep_due due,
      record {
        slots = slots;
        auctions_per_slot = delete slot s.auctions_per_slot;
        auctions = left;
      },
    )
]
