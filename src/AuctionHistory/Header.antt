-- ===== src/AuctionHistory/Header.antt =====
-- The header alone and the whole history: both functions read the same header.

use example_liquidity_layer.Auction.{AuctionEntry, AuctionHistory, AuctionHistoryHeader}
use example_liquidity_layer.Prelude.{
  >>=-eq-ok, Bool-cases, List, Option, [], ap, arith, drop, error, get_elem?, guard, inl, inr, leb,
  leb→le, length, length-take_le, le→leb, none, ok, refl, some, suc, sym, take, zero, ℕ, ◌+◌, ◌<◌,
  ◌∙◌, ◌∷◌, ◌≡◌, ◌≤◌,
}
use example_liquidity_layer.Buffer.{Bytes, read, read_uint_le, subarray}
use example_liquidity_layer.AuctionHistory.{
  bytes_equal, fetch_auction_history, fetch_auction_history_header, history_discriminator, is_set,
  read_bn, read_entries, read_entry, read_header, read_timestamp,
}

-- What is read of the first `n` bytes does not depend on those behind them.
take-take : {A : Type 0} (n m : ℕ) (xs : List A) → n ≤ m → take n (take m xs) ≡ take n xs
take-take zero m xs h = refl
take-take (suc n) zero xs h = absurd (omega arith)
take-take (suc n) (suc m) [] h = refl
take-take (suc n) (suc m) (x ∷ xs) h = ap (◌∷◌ x) (take-take n m xs (omega arith))

window :
    {A : Type 0} (n offset m : ℕ) (xs : List A)
    → offset + n ≤ m
    → take n (drop offset (take m xs)) ≡ take n (drop offset xs)
window n zero m xs h = take-take n m xs (omega arith)
window n (suc offset) zero xs h = absurd (omega arith)
window n (suc offset) (suc m) [] h = refl
window n (suc offset) (suc m) (x ∷ xs) h = window n offset m xs (omega arith)

length-take : {A : Type 0} (m : ℕ) (xs : List A) → m ≤ length xs → length (take m xs) ≡ m
length-take m xs h = length-take_le m xs h

get_elem?-take :
    {A : Type 0} (i m : ℕ) (xs : List A) → i < m → get_elem? (take m xs) i ≡ get_elem? xs i
get_elem?-take i zero xs h = absurd (omega arith)
get_elem?-take i (suc m) [] h = refl
get_elem?-take zero (suc m) (x ∷ xs) h = refl
get_elem?-take (suc i) (suc m) (x ∷ xs) h = get_elem?-take i m xs (omega arith)

module _ (buf : Bytes) (long : 30 ≤ length buf) where
  read-take :
      (n offset : ℕ)
      → offset + n ≤ 30
      → read_uint_le n (take 30 buf) offset ≡ read_uint_le n buf offset
  unfolding read_uint_le read
  read-take n offset h =
      rw
        (
          length-take 30 buf long,
          le→leb (offset + n) 30 h,
          le→leb (offset + n) (length buf) (omega arith),
          window n offset 30 buf h,
        )
        refl

  timestamp-take :
      (offset : ℕ)
      → offset + 5 ≤ 30
      → read_timestamp (take 30 buf) offset ≡ read_timestamp buf offset
  unfolding read_timestamp is_set
  timestamp-take offset h =
      rw (get_elem?-take offset 30 buf (omega arith), read-take 4 (offset + 1) (omega arith)) refl

  header-take : read_header (take 30 buf) ≡ read_header buf
  unfolding read_header read_bn subarray
  header-take =
      rw
        (
          window 8 0 30 buf (omega arith),
          read-take 8 8 (omega arith),
          timestamp-take 16 (omega arith),
          timestamp-take 21 (omega arith),
          read-take 4 26 (omega arith),
        )
        refl

-- A read that succeeds is inside the buffer.
read-inside :
    (n : ℕ) (buf : Bytes) (offset v : ℕ)
    → read_uint_le n buf offset ≡ ok v
    → offset + n ≤ length buf
unfolding read_uint_le read
read-inside n buf offset v h = elim (Bool-cases (leb (offset + n) (length buf))) [
  | inl e ↦ leb→le (offset + n) (length buf) e
  | inr e ↦ absurd (cc (rw e at h))
]

-- A header is read of 30 bytes at least.
header_inside :
    (buf : Bytes) (header : AuctionHistoryHeader) (n : ℕ)
    → read_header buf ≡ ok (header, n)
    → 30 ≤ length buf
unfolding read_header
header_inside buf header n h =
    let valid = bytes_equal (subarray buf 0 8) history_discriminator in
    let (_, _, h1) = >>=-eq-ok (guard valid (error "Invalid account history discriminator")) _ h in
    let (_, _, h2) = >>=-eq-ok (read_bn buf 8) _ h1 in
    let (_, _, h3) = >>=-eq-ok (read_timestamp buf 16) _ h2 in
    let (_, _, h4) = >>=-eq-ok (read_timestamp buf 21) _ h3 in
    let (v, e, _) = >>=-eq-ok (read_uint_le 4 buf 26) _ h4 in read-inside 4 buf 26 v e

length-read_entries :
    (n : ℕ) (buf : Bytes) (offset : ℕ) (entries : List AuctionEntry)
    → read_entries n buf offset ≡ ok entries
    → length entries ≡ n
unfolding read_entries
length-read_entries zero buf offset entries h = cc
length-read_entries (suc n) buf offset entries h =
    let ((entry, next), _, h1) = >>=-eq-ok (read_entry buf offset) _ h in
    let (rest, e, h2) = >>=-eq-ok (read_entries n buf next) _ h1 in
    let same : entry ∷ rest ≡ entries = cc in
    ap length (sym same) ∙ ap suc (length-read_entries n buf next rest e)

-- Where the whole history is read, the header that is read alone is the history's, with the number
-- of its entries.
pub fetch_auction_history_header_lem :
    (account : Option Bytes) (history : AuctionHistory)
    → fetch_auction_history account ≡ ok history
    → fetch_auction_history_header account ≡ ok (history.header, length history.entries)
unfolding fetch_auction_history fetch_auction_history_header
fetch_auction_history_header_lem none history h = cc
fetch_auction_history_header_lem (some buf) history h =
    let ((header, n), e, h1) = >>=-eq-ok (read_header buf) _ h in
    let (entries, e2, h2) = >>=-eq-ok (read_entries n buf 30) _ h1 in
    let same : record { header = header; entries = entries } ≡ history = cc in
    header-take buf (header_inside buf header n e)
    ∙ e
    ∙ ap (λ k. ok (header, k)) (sym (length-read_entries n buf 30 entries e2))
    ∙ ap (λ (x : AuctionHistory). ok (x.header, length x.entries)) same
