-- ===== src/SlotAuctions/Text.antt =====
-- The string order on numbers with the same count of digits is the order of the numbers.
use example_liquidity_layer.Prelude.{
  List, [], arith, length, length-append, le→ltb, ltb, lt→ltb, not, refl, suc, sym, true, zero, ℕ,
  ◌%◌, ◌&&◌, ◌++◌, ◌+◌, ◌/◌, ◌<◌, ◌^◌, ◌||◌, ◌∙◌, ◌∷◌, ◌≡◌, ◌≤◌,
}
use example_liquidity_layer.Prelude.Int.{pos}
use example_liquidity_layer.SlotAuctions.{decimal, slot_text, text_lt}

-- `k + 1` digits, with zeros in front.
abbrev pub fixed : ℕ → ℕ → List ℕ
fixed zero n = (48 + n) ∷ []
fixed (suc k) n = fixed k (n / 10) ++ (48 + n % 10) ∷ []

-- A number of `k + 1` digits.
abbrev pub HasDigits : ℕ → ℕ → Type 0
HasDigits k n = (10 ^ k ≤ n) × (n < 10 ^ suc k)

decimal-fixed : (k f n : ℕ) → HasDigits k n → k < f → decimal f n ≡ fixed k n
unfolding decimal
decimal-fixed k zero n h l = elim l [ ]
decimal-fixed zero (suc f) n h l = rw (lt→ltb n 10 (omega (arith, h.1)))
decimal-fixed (suc k) (suc f) n h l = rw (
  le→ltb n 10 (omega (arith, h.0, pow_pos k)),
  decimal-fixed k f (n / 10) (omega (arith, h.0), omega (arith, h.1)) (omega arith),
)
  where
    pow_pos : (k : ℕ) → 1 ≤ 10 ^ k
    pow_pos zero = omega arith
    pow_pos (suc k) = omega (arith, pow_pos k)

lt-pow : (k : ℕ) → k < 10 ^ k
lt-pow zero = omega arith
lt-pow (suc k) = omega (arith, lt-pow k)

pub slot_text-fixed : (k n : ℕ) → HasDigits k n → slot_text (pos n) ≡ fixed k n
unfolding slot_text
slot_text-fixed k n h = decimal-fixed k (suc n) n h (omega (arith, lt-pow k, h.0))

length-fixed : (k n : ℕ) → length (fixed k n) ≡ suc k
length-fixed zero n = refl
length-fixed (suc k) n =
    omega (arith, length-append (fixed k (n / 10)) ((48 + n % 10) ∷ []), length-fixed k (n / 10))

-- A last character decides only between equal fronts.
text_lt_snoc :
    (xs ys : List ℕ) (a b : ℕ)
    → length xs ≡ length ys
    → text_lt (xs ++ a ∷ []) (ys ++ b ∷ []) ≡ (text_lt xs ys || (not (text_lt ys xs) && ltb a b))
unfolding text_lt
text_lt_snoc [] [] a b e = ground arith
text_lt_snoc [] (y ∷ ys) a b e = absurd (omega arith)
text_lt_snoc (x ∷ xs) [] a b e = absurd (omega arith)
text_lt_snoc (x ∷ xs) (y ∷ ys) a b e = ground (arith, text_lt_snoc xs ys a b (omega arith))

text_lt-fixed : (k a b : ℕ) → text_lt (fixed k a) (fixed k b) ≡ ltb a b
text_lt-fixed zero a b = unfold text_lt in ground arith
text_lt-fixed (suc k) a b =
    rw
      (
        text_lt_snoc (fixed k (a / 10)) (fixed k (b / 10)) (48 + a % 10) (48 + b % 10)
            (length-fixed k (a / 10) ∙ sym (length-fixed k (b / 10))),
        text_lt-fixed k (a / 10) (b / 10),
        text_lt-fixed k (b / 10) (a / 10),
      )
      (ground arith)

-- Slots of the same count of digits are sorted as numbers.
pub slot_text_lt :
    (k a b : ℕ)
    → HasDigits k a
    → HasDigits k b
    → text_lt (slot_text (pos a)) (slot_text (pos b)) ≡ ltb a b
slot_text_lt k a b h i = rw (slot_text-fixed k a h, slot_text-fixed k b i) (text_lt-fixed k a b)

-- The first digit.
abbrev pub leading : ℕ → ℕ → ℕ
leading zero n = n
leading (suc k) n = leading k (n / 10)

fixed-front : (k n : ℕ) → (rest : List ℕ) × (fixed k n ≡ (48 + leading k n) ∷ rest)
fixed-front zero n = ([], refl)
fixed-front (suc k) n = let (rest, e) = fixed-front k (n / 10) in (rest ++ (48 + n % 10) ∷ [], rw e)

-- A smaller first digit makes the smaller string, however many digits follow.
pub slot_text-leading :
    (j k a b : ℕ)
    → HasDigits j a
    → HasDigits k b
    → leading j a < leading k b
    → text_lt (slot_text (pos a)) (slot_text (pos b)) ≡ true
slot_text-leading j k a b h i l =
    let (ra, ea) = fixed-front j a in
    let (rb, eb) = fixed-front k b in
    rw (slot_text-fixed j a h, slot_text-fixed k b i, ea, eb)
      (unfold text_lt in rw (lt→ltb (48 + leading j a) (48 + leading k b) (omega arith)))
