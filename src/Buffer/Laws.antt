-- ===== src/Buffer/Laws.antt =====
-- Reads of what was written.
use mathlib.Core.List.{reverse, reverse-reverse, reverse-cons}
use example_liquidity_layer.Buffer.{
  Bytes, IsByte, alloc, be_bytes, be_value, le_bytes, le_value, read, read_uint_be, read_uint_le,
  set_at, subarray, write_uint_be,
}
use example_liquidity_layer.Prelude.{
  All, List, [], ap, append_assoc, arith, drop, drop_past, length, length-append, length-replicate,
  length-reverse, le→leb, lt→ltb, ok, refl, replicate, suc, sym, take_front, zero, ℕ, ◌%◌, ◌*◌,
  ◌++◌, ◌+◌, ◌-◌, ◌/◌, ◌<◌, ◌^◌, ◌∙◌, ◌∷◌, ◌≡◌, ◌≤◌,
}

pub length-le_bytes : (n v : ℕ) → length (le_bytes n v) ≡ n
unfolding le_bytes
length-le_bytes zero v = refl
length-le_bytes (suc n) v = ap suc (length-le_bytes n _)

pub length-be_bytes : (n v : ℕ) → length (be_bytes n v) ≡ n
unfolding be_bytes
length-be_bytes n v = length-reverse (le_bytes n v) ∙ length-le_bytes n v

pub le_value-le_bytes : (n v : ℕ) → v < 256 ^ n → le_value (le_bytes n v) ≡ v
unfolding le_value le_bytes
le_value-le_bytes zero v h = omega arith
le_value-le_bytes (suc n) v h = omega (arith, le_value-le_bytes n (v / 256) (omega arith))

pub be_value-be_bytes : (n v : ℕ) → v < 256 ^ n → be_value (be_bytes n v) ≡ v
unfolding be_value be_bytes
be_value-be_bytes n v h = rw reverse-reverse (le_value-le_bytes n v h)

pub le_value-lt : (bs : Bytes) (n : ℕ) → length bs ≡ n → All IsByte bs → le_value bs < 256 ^ n
unfolding le_value
le_value-lt [] zero e h = omega arith
le_value-lt [] (suc n) e h = absurd (omega arith)
le_value-lt (b ∷ bs) zero e h = absurd (omega arith)
le_value-lt (b ∷ bs) (suc n) e h = omega (arith, le_value-lt bs n (omega arith) h.1)

-- The field that stands behind a prefix of `offset` bytes.
pub read_field :
    (pre bs post : Bytes) (n offset : ℕ)
    → length pre ≡ offset
    → length bs ≡ n
    → read n (pre ++ (bs ++ post)) offset ≡ ok bs
unfolding read
read_field pre bs post n offset p q = rw (
  le→leb (offset + n) (length (pre ++ (bs ++ post)))
      (omega (arith, length-append pre (bs ++ post), length-append bs post)),
  drop_past pre (bs ++ post) offset 0 (omega arith),
  take_front bs post n (omega arith),
)

pub subarray_field :
    (pre bs post : Bytes) (start end : ℕ)
    → length pre ≡ start
    → start + length bs ≡ end
    → subarray (pre ++ (bs ++ post)) start end ≡ bs
unfolding subarray
subarray_field pre bs post start end p q = rw (
  drop_past pre (bs ++ post) start 0 (omega arith),
  take_front bs post (end - start) (omega arith),
)

pub read_uint_be_field :
    (pre post : Bytes) (n v offset : ℕ)
    → length pre ≡ offset
    → v < 256 ^ n
    → read_uint_be n (pre ++ (be_bytes n v ++ post)) offset ≡ ok v
unfolding read_uint_be
read_uint_be_field pre post n v offset p h =
    rw
      (read_field pre (be_bytes n v) post n offset p (length-be_bytes n v), be_value-be_bytes n v h)

pub read_uint_le_field :
    (pre post : Bytes) (n v offset : ℕ)
    → length pre ≡ offset
    → v < 256 ^ n
    → read_uint_le n (pre ++ (le_bytes n v ++ post)) offset ≡ ok v
unfolding read_uint_le
read_uint_le_field pre post n v offset p h =
    rw
      (read_field pre (le_bytes n v) post n offset p (length-le_bytes n v), le_value-le_bytes n v h)

-- Writing fields one after the other into zeros: the prefix grows by the field.
pub set_at_next :
    (pre bs : Bytes) (room left offset : ℕ)
    → length pre ≡ offset
    → length bs + left ≡ room
    → set_at (pre ++ alloc room) bs offset ≡ ok ((pre ++ bs) ++ alloc left)
unfolding set_at alloc
set_at_next pre bs room left offset p q =
    rw
      (
        le→leb (offset + length bs) (length (pre ++ replicate room 0))
            (omega (arith, length-append pre (replicate room 0), length-replicate {A = ℕ} room 0)),
        take_front pre (replicate room 0) offset (omega arith),
        drop_past pre (replicate room 0) (offset + length bs) (length bs) (omega arith),
        drop-replicate (length bs) left room q,
      )
      (ap ok (sym (append_assoc pre bs (replicate left 0))))
  where
    drop-replicate : (k m n : ℕ) → k + m ≡ n → drop k (replicate n 0) ≡ replicate {A = ℕ} m 0
    drop-replicate zero m n e = ap (λ j. replicate j 0) (omega arith)
    drop-replicate (suc k) m zero e = absurd (omega arith)
    drop-replicate (suc k) m (suc n) e = drop-replicate k m n (omega arith)

pub write_uint_be_next :
    (pre : Bytes) (n v room left offset : ℕ)
    → length pre ≡ offset
    → n + left ≡ room
    → v < 256 ^ n
    → write_uint_be n (pre ++ alloc room) v offset ≡ ok ((pre ++ be_bytes n v) ++ alloc left)
unfolding write_uint_be
write_uint_be_next pre n v room left offset p q h =
    rw (lt→ltb v (256 ^ n) h)
      (set_at_next pre (be_bytes n v) room left offset p (omega (arith, length-be_bytes n v)))

-- And the other way: bytes that are read as a number are written again.
pub le_bytes-le_value :
    (bs : Bytes) (n : ℕ) → length bs ≡ n → All IsByte bs → le_bytes n (le_value bs) ≡ bs
unfolding le_bytes le_value
le_bytes-le_value [] zero e h = refl
le_bytes-le_value [] (suc n) e h = absurd (omega arith)
le_bytes-le_value (b ∷ bs) zero e h = absurd (omega arith)
le_bytes-le_value (b ∷ bs) (suc n) e h =
    let low : (b + 256 * le_value bs) % 256 ≡ b = omega (arith, h.0) in
    let high : (b + 256 * le_value bs) / 256 ≡ le_value bs = omega (arith, h.0) in
    rw (low, high, le_bytes-le_value bs n (omega arith) h.1)

All-append : (xs ys : Bytes) → All IsByte xs → All IsByte ys → All IsByte (xs ++ ys)
All-append [] ys h k = k
All-append (x ∷ xs) ys h k = (h.0, All-append xs ys h.1 k)

All-reverse : (xs : Bytes) → All IsByte xs → All IsByte (reverse xs)
All-reverse [] h = tt
All-reverse (x ∷ xs) h =
    rw (reverse-cons x xs) (All-append (reverse xs) (x ∷ []) (All-reverse xs h.1) (h.0, tt))

pub be_bytes-be_value :
    (bs : Bytes) (n : ℕ) → length bs ≡ n → All IsByte bs → be_bytes n (be_value bs) ≡ bs
unfolding be_bytes be_value
be_bytes-be_value bs n e h =
    rw (le_bytes-le_value (reverse bs) n (length-reverse bs ∙ e) (All-reverse bs h))
      (reverse-reverse bs)

pub be_value-lt : (bs : Bytes) (n : ℕ) → length bs ≡ n → All IsByte bs → be_value bs < 256 ^ n
unfolding be_value
be_value-lt bs n e h = le_value-lt (reverse bs) n (length-reverse bs ∙ e) (All-reverse bs h)

pub be_bytes-IsByte : (n v : ℕ) → All IsByte (be_bytes n v)
unfolding be_bytes
be_bytes-IsByte n v = All-reverse (le_bytes n v) (le_bytes-IsByte n v)
  where
    le_bytes-IsByte : (n v : ℕ) → All IsByte (le_bytes n v)
    le_bytes-IsByte zero v = unfold le_bytes in tt
    le_bytes-IsByte (suc n) v = unfold le_bytes in (omega arith, le_bytes-IsByte n (v / 256))

-- The first `n` bytes and the others.
pub cut :
    (n : ℕ) (bs : Bytes)
    → n ≤ length bs
    → All IsByte bs
    → (front rest : Bytes) × (bs ≡ front ++ rest)
      × (length front ≡ n)
      × All IsByte front
      × All IsByte rest
cut zero bs h b = ([], bs, refl, refl, tt, b)
cut (suc n) [] h b = elim h [ ]
cut (suc n) (x ∷ bs) h b =
    let (front, rest, e, l, f, r) = cut n bs (omega arith) b.1 in
    (x ∷ front, rest, ap (◌∷◌ x) e, ap suc l, (b.0, f), r)

-- A row of pieces of the given sizes, and what follows them.
abbrev pub CutAs : List ℕ → Bytes → Type 0
CutAs [] buf = All IsByte buf
CutAs (n ∷ ns) buf =
    (front rest : Bytes) × (buf ≡ front ++ rest)
    × (length front ≡ n)
    × All IsByte front
    × CutAs ns rest

abbrev pub sum : List ℕ → ℕ
sum [] = 0
sum (n ∷ ns) = n + sum ns

pub cut_as : (ns : List ℕ) (buf : Bytes) → sum ns ≤ length buf → All IsByte buf → CutAs ns buf
cut_as [] buf h b = b
cut_as (n ∷ ns) buf h b =
    let (front, rest, e, l, f, r) = cut n buf (omega arith) b in
    (front, rest, e, l, f, cut_as ns rest (omega (arith, ap length e, length-append front rest)) r)
