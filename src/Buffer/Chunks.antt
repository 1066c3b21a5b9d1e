-- ===== src/Buffer/Chunks.antt =====
-- A byte string as a row of fields: where each field stands, and how a buffer is filled with them.
use example_liquidity_layer.Prelude.{
  List, [], ap, append-nil, append_assoc, arith, drop, drop_past, get_elem?, length, length-append,
  le→leb, lt→ltb, ok, refl, some, suc, sym, take_front, zero, ℕ, ◌++◌, ◌+◌, ◌<◌, ◌^◌, ◌∙◌, ◌∷◌, ◌≡◌,
}
use example_liquidity_layer.Buffer.{
  Bytes, alloc, be_bytes, le_bytes, read, read_uint_be, read_uint_le, set_at, subarray,
  write_uint_be,
}
use example_liquidity_layer.Buffer.Laws.{
  length-be_bytes, read_field, read_uint_be_field, read_uint_le_field, set_at_next, subarray_field,
}

abbrev pub concat : List Bytes → Bytes
concat [] = []
concat (c ∷ cs) = c ++ concat cs

-- The bytes of all fields together.
abbrev pub total_size : List Bytes → ℕ
total_size [] = 0
total_size (c ∷ cs) = length c + total_size cs

-- The fields before number `i`, and those from it on.
abbrev pub size_before : List Bytes → ℕ → ℕ
size_before [] i = 0
size_before (c ∷ cs) zero = 0
size_before (c ∷ cs) (suc i) = length c + size_before cs i

pub length-concat : (cs : List Bytes) → length (concat cs) ≡ total_size cs
length-concat [] = refl
length-concat (c ∷ cs) = omega (arith, length-append c (concat cs), length-concat cs)

pub concat-append : (cs ds : List Bytes) → concat (cs ++ ds) ≡ concat cs ++ concat ds
concat-append [] ds = refl
concat-append (c ∷ cs) ds =
    ap (◌++◌ c) (concat-append cs ds) ∙ sym (append_assoc c (concat cs) (concat ds))

-- Field number `i` cuts the string in three.
split_at_chunk :
    (cs : List Bytes) (i : ℕ) (c : Bytes)
    → get_elem? cs i ≡ some c
    → (pre post : Bytes) × (concat cs ≡ pre ++ (c ++ post)) × (length pre ≡ size_before cs i)
split_at_chunk [] i c e = cc
split_at_chunk (d ∷ cs) zero c e =
    let same : d ≡ c = cc in ([], concat cs, ap (λ x. x ++ concat cs) same, refl)
split_at_chunk (d ∷ cs) (suc i) c e =
    let (pre, post, whole, place) = split_at_chunk cs i c e in
    (
      d ++ pre,
      post,
      ap (◌++◌ d) whole ∙ sym (append_assoc d pre (c ++ post)),
      omega (arith, length-append d pre, place),
    )

get_elem?-past :
    (pre post : Bytes) (b : ℕ) (offset : ℕ)
    → length pre ≡ offset
    → get_elem? (pre ++ (b ∷ post)) offset ≡ some b
get_elem?-past [] post b zero e = refl
get_elem?-past [] post b (suc n) e = absurd (omega arith)
get_elem?-past (x ∷ pre) post b zero e = absurd (omega arith)
get_elem?-past (x ∷ pre) post b (suc n) e = get_elem?-past pre post b n (omega arith)

module _ (cs : List Bytes) (i : ℕ) where
  pub byte_chunk :
      (b : ℕ) (c : Bytes) (offset : ℕ)
      → get_elem? cs i ≡ some (b ∷ c)
      → size_before cs i ≡ offset
      → get_elem? (concat cs) offset ≡ some b
  byte_chunk b c offset e p =
      let (pre, post, whole, place) = split_at_chunk cs i (b ∷ c) e in
      rw whole (get_elem?-past pre (c ++ post) b offset (place ∙ p))

  pub read_chunk :
      (c : Bytes) (n offset : ℕ)
      → get_elem? cs i ≡ some c
      → size_before cs i ≡ offset
      → length c ≡ n
      → read n (concat cs) offset ≡ ok c
  read_chunk c n offset e p q =
      let (pre, post, whole, place) = split_at_chunk cs i c e in
      rw whole (read_field pre c post n offset (place ∙ p) q)

  pub subarray_chunk :
      (c : Bytes) (start end : ℕ)
      → get_elem? cs i ≡ some c
      → size_before cs i ≡ start
      → start + length c ≡ end
      → subarray (concat cs) start end ≡ c
  subarray_chunk c start end e p q =
      let (pre, post, whole, place) = split_at_chunk cs i c e in
      rw whole (subarray_field pre c post start end (place ∙ p) q)

  pub read_uint_be_chunk :
      (n v offset : ℕ)
      → get_elem? cs i ≡ some (be_bytes n v)
      → size_before cs i ≡ offset
      → v < 256 ^ n
      → read_uint_be n (concat cs) offset ≡ ok v
  read_uint_be_chunk n v offset e p h =
      let (pre, post, whole, place) = split_at_chunk cs i (be_bytes n v) e in
      rw whole (read_uint_be_field pre post n v offset (place ∙ p) h)

  pub read_uint_le_chunk :
      (n v offset : ℕ)
      → get_elem? cs i ≡ some (le_bytes n v)
      → size_before cs i ≡ offset
      → v < 256 ^ n
      → read_uint_le n (concat cs) offset ≡ ok v
  read_uint_le_chunk n v offset e p h =
      let (pre, post, whole, place) = split_at_chunk cs i (le_bytes n v) e in
      rw whole (read_uint_le_field pre post n v offset (place ∙ p) h)

  -- What stands behind the last field but one.
  pub drop_chunks :
      (c : Bytes) (offset : ℕ)
      → get_elem? cs i ≡ some c
      → size_before cs i ≡ offset
      → offset + length c ≡ total_size cs
      → drop offset (concat cs) ≡ c
  drop_chunks c offset e p q =
      let (pre, post, whole, place) = split_at_chunk cs i c e in
      let nothing : length post ≡ 0 = omega (
        arith,
        ap length whole,
        length-concat cs,
        length-append pre (c ++ post),
        length-append c post,
      ) in
      rw whole (
        drop_past pre (c ++ post) offset 0 (omega arith)
        ∙ ap (◌++◌ c) (no_bytes post nothing)
        ∙ append-nil c)
    where
      no_bytes : (bs : Bytes) → length bs ≡ 0 → bs ≡ []
      no_bytes [] z = refl
      no_bytes (b ∷ bs) z = absurd (omega arith)

-- One more field is written behind those that are there.
pub set_chunk :
    (done : List Bytes) (bs : Bytes) (room left offset : ℕ)
    → total_size done ≡ offset
    → length bs + left ≡ room
    → set_at (concat done ++ alloc room) bs offset ≡ ok (concat (done ++ bs ∷ []) ++ alloc left)
set_chunk done bs room left offset p q =
    set_at_next (concat done) bs room left offset (length-concat done ∙ p) q
    ∙ ap (λ x. ok (x ++ alloc left))
        (sym (concat-append done (bs ∷ []) ∙ ap (◌++◌ (concat done)) (append-nil bs)))

pub write_chunk :
    (done : List Bytes) (n v room left offset : ℕ)
    → total_size done ≡ offset
    → n + left ≡ room
    → v < 256 ^ n
    → write_uint_be n (concat done ++ alloc room) v offset
      ≡ ok (concat (done ++ be_bytes n v ∷ []) ++ alloc left)
unfolding write_uint_be
write_chunk done n v room left offset p q h =
    rw (lt→ltb v (256 ^ n) h)
      (set_chunk done (be_bytes n v) room left offset p (omega (arith, length-be_bytes n v)))

pub alloc_zero : (bs : Bytes) → bs ++ alloc 0 ≡ bs
unfolding alloc
alloc_zero bs = append-nil bs

-- A field is written over by one of its size.
pub overwrite :
    (before after : List Bytes) (old new : Bytes) (offset : ℕ)
    → total_size before ≡ offset
    → length old ≡ length new
    → set_at (concat (before ++ old ∷ after)) new offset ≡ ok (concat (before ++ new ∷ after))
unfolding set_at
overwrite before after old new offset p q =
    let front = concat before in
    let back = concat after in
    let place : length front ≡ offset = length-concat before ∙ p in
    let whole : length (front ++ (old ++ back)) ≡ offset + length new + length back =
      omega (arith, length-append front (old ++ back), length-append old back) in
    rw
      (
        concat-append before (old ∷ after),
        concat-append before (new ∷ after),
        whole,
        le→leb (offset + length new) (offset + length new + length back) (omega arith),
        take_front front (old ++ back) offset (sym place),
        drop_past front (old ++ back) (offset + length new) (length new) (omega arith),
        drop_past old back (length new) 0 (omega arith),
      )
      refl
