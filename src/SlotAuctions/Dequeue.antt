-- ===== src/SlotAuctions/Dequeue.antt =====
-- What `dequeue` hands out, and when `executeOrderWithRetry` stops.
use example_liquidity_layer.Prelude.{
  Bool, List, Option-cases, [], ap, arith, false, true, inl, inr, if◌then◌else◌, length, none, ok,
  refl, some, suc, sym, ℕ, ◌++◌, ◌+◌, ◌∷◌, ◌≡◌,
}
use example_liquidity_layer.Prelude.Int.{ℤ}
use example_liquidity_layer.Prelude.Maps.{delete, get, get-delete, int_key, nat_key}
use example_liquidity_layer.SlotAuctions.{
  AuctionDetails, Due, SlotOrderedAuctions, dequeue, is_due, keep_due, take_details,
}
use example_liquidity_layer.SlotAuctions.Listener.{
  Attempt, execute_order_with_retry, finds, sends, throws,
}

abbrev pub AreDistinct : List ℕ → Type 0
AreDistinct [] = Unit {0}
AreDistinct (k ∷ ks) = (finds k ks ≡ false) × AreDistinct ks

-- Each key with what the map holds for it.
abbrev pub due_of : List (ℕ × AuctionDetails) → List ℕ → List Due
due_of m [] = []
due_of m (k ∷ ks) = record { auction = k; details = get k m } ∷ due_of m ks

due_of-delete :
    (m : List (ℕ × AuctionDetails)) (k : ℕ) (ks : List ℕ)
    → finds k ks ≡ false
    → due_of (delete k m) ks ≡ due_of m ks
unfolding finds
due_of-delete m k [] e = refl
due_of-delete m k (j ∷ ks) e =
    let here : get j (delete k m) ≡ get j m =
      ground (arith, get-delete k j m, nat_key.same_iff j k, nat_key.same_iff k j) in
    rw (here, due_of-delete m k ks (ground arith))

take_details-due :
    (ks : List ℕ) (m : List (ℕ × AuctionDetails))
    → AreDistinct ks
    → (take_details ks m).0 ≡ due_of m ks
unfolding take_details
take_details-due [] m h = refl
take_details-due (k ∷ ks) m h = rw (take_details-due ks (delete k m) h.1, due_of-delete m k ks h.0)

take_details-left :
    (ks : List ℕ) (m : List (ℕ × AuctionDetails)) (j : ℕ)
    → get j (take_details ks m).1 ≡ (if finds j ks then none else get j m)
unfolding take_details finds
take_details-left [] m j = refl
take_details-left (k ∷ ks) m j =
    rw (take_details-left ks (delete k m) j, get-delete k j m) (ground arith)

-- Which auctions of a list of keys are handed out: those whose details are there and say that they are to be
-- executed, with their details.
pub data Picked (m : List (ℕ × AuctionDetails)) : List ℕ → List Due → Type 0 where
  done : Picked m [] []
  taken :
      {k : ℕ} {ks : List ℕ} {ds : List Due} (d : AuctionDetails)
      → get k m ≡ some d
      → d.execute ≡ true
      → Picked m ks ds
      → Picked m (k ∷ ks) (record { auction = k; details = some d } ∷ ds)
  idle :
      {k : ℕ} {ks : List ℕ} {ds : List Due} (d : AuctionDetails)
      → get k m ≡ some d
      → d.execute ≡ false
      → Picked m ks ds
      → Picked m (k ∷ ks) ds
  missing :
      {k : ℕ} {ks : List ℕ} {ds : List Due} → get k m ≡ none → Picked m ks ds → Picked m (k ∷ ks) ds

Picked-if :
    {m : List (ℕ × AuctionDetails)} {k : ℕ} {ks : List ℕ} {ds : List Due} (b : Bool)
    (d : AuctionDetails)
    → get k m ≡ some d
    → d.execute ≡ b
    → Picked m ks ds
    → Picked m (k ∷ ks) (if b then record { auction = k; details = some d } ∷ ds else ds)
Picked-if true d e c rest = taken d e c rest
Picked-if false d e c rest = idle d e c rest

keep_due-Picked :
    (m : List (ℕ × AuctionDetails)) (ks : List ℕ) → Picked m ks (keep_due (due_of m ks))
unfolding keep_due is_due
keep_due-Picked m [] = done
keep_due-Picked m (k ∷ ks) = elim (Option-cases (get k m)) [
  | inl e ↦ rw e (missing e (keep_due-Picked m ks))
  | inr (d, e) ↦ rw e (Picked-if d.execute d e refl (keep_due-Picked m ks))
]

-- Where the keys of the first slot are distinct, `dequeue` hands out those of its auctions whose details are
-- still there and say that they are to be executed, in the order in which they were added. It takes off that
-- slot only, and forgets every auction of the slot and no other.
pub dequeue_lem :
    (s : SlotOrderedAuctions) (slot : ℤ) (rest : List ℤ) (keys : List ℕ)
    → s.slots ≡ slot ∷ rest
    → get slot s.auctions_per_slot ≡ some keys
    → AreDistinct keys
    → (due : List Due) × (t : SlotOrderedAuctions) × (dequeue s ≡ ok (due, t))
      × Picked s.auctions keys due
      × (t.slots ≡ rest)
      × ((j : ℕ) → get j t.auctions ≡ (if finds j keys then none else get j s.auctions))
unfolding dequeue
dequeue_lem s slot rest keys e found h = (
  keep_due (due_of s.auctions keys),
  record {
    slots = rest;
    auctions_per_slot = delete slot s.auctions_per_slot;
    auctions = (take_details keys s.auctions).1;
  },
  rw (e, found, sym (take_details-due keys s.auctions h)),
  keep_due-Picked s.auctions keys,
  refl,
  take_details-left keys s.auctions,
)

-- How many attempts throw before the first that does not.
abbrev pub throwing : List Attempt → ℕ
throwing [] = 0
throwing (throws ∷ more) = suc (throwing more)
throwing (sends success ∷ more) = 0

-- The loop ends after the first attempt that throws nothing, whether or not the network took its
-- transaction: a transaction that fails is not sent again.
pub execute_order_with_retry_lem :
    (failing more : List Attempt) (success : Bool)
    → throwing (failing ++ sends success ∷ more) ≡ length failing
    → execute_order_with_retry (failing ++ sends success ∷ more) ≡ some (length failing + 1)
unfolding execute_order_with_retry
execute_order_with_retry_lem [] more success h = refl
execute_order_with_retry_lem (throws ∷ failing) more success h =
    rw (execute_order_with_retry_lem failing more success (omega arith)) (ap some (omega arith))
execute_order_with_retry_lem (sends b ∷ failing) more success h = absurd (omega arith)
