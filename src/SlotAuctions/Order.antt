-- ===== src/SlotAuctions/Order.antt =====
-- The slots stay sorted, and every slot keeps its list of auctions.
use example_liquidity_layer.Prelude.{
  All, Bool-cases, List, [], arith, false, inl, inr, ltb, ltb→lt, refl, subst, true, ℕ, ◌++◌, ◌<◌,
  ◌∷◌, ◌≡◌,
}
use example_liquidity_layer.Prelude.Int.{negsuc, pos, pos_part, ℤ}
use example_liquidity_layer.Prelude.Maps.{int_key, nat_key, ◌===◌}
use example_liquidity_layer.SlotAuctions.{includes, insert_slot, sort_slots}
use example_liquidity_layer.SlotAuctions.Text.{HasDigits, slot_text_lt}

-- A slot that is a number of `k + 1` digits.
abbrev pub SlotHasDigits : ℕ → ℤ → Type 0
SlotHasDigits k (pos n) = HasDigits k n
SlotHasDigits k (negsuc n) = ⊥

-- Strictly increasing.
abbrev pub IsSorted : List ℤ → Type 0
IsSorted [] = Unit {0}
IsSorted (s ∷ ss) = All (λ t. pos_part s < pos_part t) ss × IsSorted ss

insert-All {κ} : (P : ℤ → Type κ) (s : ℤ) (ts : List ℤ) → P s → All P ts → All P (insert_slot s ts)
unfolding insert_slot
insert-All P s [] p h = (p, tt)
insert-All P s (t ∷ ts) p h = ground (arith, insert-All P s ts p h.1)

sort-All {κ} : (P : ℤ → Type κ) (ss : List ℤ) → All P ss → All P (sort_slots ss)
unfolding sort_slots
sort-All P [] h = tt
sort-All P (s ∷ ss) h = insert-All P s (sort_slots ss) h.0 (sort-All P ss h.1)

All-snoc {κ} : (P : ℤ → Type κ) (ss : List ℤ) (s : ℤ) → All P ss → P s → All P (ss ++ s ∷ [])
All-snoc P [] s h p = (p, tt)
All-snoc P (x ∷ xs) s h p = (h.0, All-snoc P xs s h.1 p)

All-trans :
    (a b : ℕ) (ts : List ℤ) → a < b → All (λ t. b < pos_part t) ts → All (λ t. a < pos_part t) ts
All-trans a b [] h all = tt
All-trans a b (t ∷ ts) h all = (omega (arith, all.0), All-trans a b ts h all.1)

-- What `includes` says when it fails and when it does not.
pub includes-All {κ} :
    (P : ℤ → Type κ) (s : ℤ) (ts : List ℤ) → includes s ts ≡ true → All P ts → P s
unfolding includes
includes-All P s [] e h = cc
includes-All P s (t ∷ ts) e h = elim (Bool-cases (t === s)) [
  | inl same ↦ subst P ((int_key.same_iff t s).0 same) h.0
  | inr other ↦ includes-All P s ts (rw other at e) h.1
]

insert-IsSorted :
    (k : ℕ) (s : ℤ) (ts : List ℤ)
    → SlotHasDigits k s
    → All (SlotHasDigits k) ts
    → includes s ts ≡ false
    → IsSorted ts
    → IsSorted (insert_slot s ts)
unfolding insert_slot includes
insert-IsSorted k s [] d ds e h = (tt, tt)
insert-IsSorted k (negsuc n) (t ∷ ts) d ds e h = absurd d
insert-IsSorted k (pos n) (negsuc m ∷ ts) d ds e h = absurd ds.0
insert-IsSorted k (pos n) (pos m ∷ ts) d ds e h = elim (Bool-cases (ltb m n)) [
  | inl below ↦
      rw (slot_text_lt k m n ds.0 d, below)
        (
          insert-All (λ t. m < pos_part t) (pos n) ts (ltb→lt m n below) h.0,
          insert-IsSorted k (pos n) ts d ds.1 (ground arith) h.1,
        )
  | inr above ↦
      let less : n < m = ground arith in
      rw (slot_text_lt k m n ds.0 d, above) ((less, All-trans n m ts less h.0), h)
]

-- `t` is another slot than `s`.
abbrev pub Other : ℤ → ℤ → Type 0
Other s t = (t === s) ≡ false

not_includes : (s : ℤ) (ts : List ℤ) → includes s ts ≡ false → All (Other s) ts
unfolding includes
not_includes s [] e = tt
not_includes s (t ∷ ts) e = elim (Bool-cases (t === s)) [
  | inl same ↦ cc (rw same at e)
  | inr other ↦ (other, not_includes s ts (rw other at e))
]

includes_not : (s : ℤ) (ts : List ℤ) → All (Other s) ts → includes s ts ≡ false
unfolding includes
includes_not s [] h = refl
includes_not s (t ∷ ts) h = rw h.0 (includes_not s ts h.1)

IsDistinct : List ℤ → Type 0
IsDistinct [] = Unit {0}
IsDistinct (s ∷ ss) = All (Other s) ss × IsDistinct ss

sort-IsSorted :
    (k : ℕ) (ss : List ℤ) → All (SlotHasDigits k) ss → IsDistinct ss → IsSorted (sort_slots ss)
unfolding sort_slots IsDistinct
sort-IsSorted k [] ds h = tt
sort-IsSorted k (s ∷ ss) ds h =
    insert-IsSorted k s (sort_slots ss) ds.0 (sort-All (SlotHasDigits k) ss ds.1)
      (includes_not s (sort_slots ss) (sort-All (Other s) ss h.0)) (sort-IsSorted k ss ds.1 h.1)

Other-lt : (k : ℕ) (s t : ℤ) → SlotHasDigits k t → pos_part s < pos_part t → Other s t
Other-lt k (pos m) (pos n) d h = ground arith
Other-lt k (negsuc m) (pos n) d h = refl
Other-lt k s (negsuc n) d h = absurd d

pub sorted-Other :
    (k : ℕ) (s : ℤ) (ts : List ℤ)
    → All (SlotHasDigits k) ts
    → All (λ t. pos_part s < pos_part t) ts
    → All (Other s) ts
sorted-Other k s [] ds h = tt
sorted-Other k s (t ∷ ts) ds h = (Other-lt k s t ds.0 h.0, sorted-Other k s ts ds.1 h.1)

pub Other-sym : (s t : ℤ) → Other s t → Other t s
Other-sym (pos m) (pos n) h = ground arith
Other-sym (negsuc m) (negsuc n) h = ground arith
Other-sym (pos m) (negsuc n) h = refl
Other-sym (negsuc m) (pos n) h = refl

IsDistinct-snoc :
    (k : ℕ) (ts : List ℤ) (s : ℤ)
    → All (SlotHasDigits k) ts
    → All (Other s) ts
    → IsSorted ts
    → IsDistinct (ts ++ s ∷ [])
unfolding IsDistinct
IsDistinct-snoc k [] s ds e h = (tt, tt)
IsDistinct-snoc k (t ∷ ts) s ds e h = (
  All-snoc (Other t) ts s (sorted-Other k t ts ds.1 h.0) (Other-sym s t e.0),
  IsDistinct-snoc k ts s ds.1 e.1 h.1,
)

-- A new slot leaves the sorted slots sorted.
pub sort-IsSorted_snoc :
    (k : ℕ) (ts : List ℤ) (s : ℤ)
    → SlotHasDigits k s
    → All (SlotHasDigits k) ts
    → includes s ts ≡ false
    → IsSorted ts
    → All (SlotHasDigits k) (sort_slots (ts ++ s ∷ [])) × IsSorted (sort_slots (ts ++ s ∷ []))
sort-IsSorted_snoc k ts s d ds e h =
    let all = All-snoc (SlotHasDigits k) ts s ds d in
    (
      sort-All (SlotHasDigits k) (ts ++ s ∷ []) all,
      sort-IsSorted k (ts ++ s ∷ []) all (IsDistinct-snoc k ts s ds (not_includes s ts e) h),
    )

-- A property of every slot, the new one too, holds after sorting.
pub sort-All_snoc {κ} :
    (P : ℤ → Type κ) (ts : List ℤ) (s : ℤ) → All P ts → P s → All P (sort_slots (ts ++ s ∷ []))
sort-All_snoc P ts s h p = sort-All P (ts ++ s ∷ []) (All-snoc P ts s h p)
