-- ===== src/ArrayQueue/Resize.antt =====
-- What `resize` copies, and what `enqueue` does on a full array.
use native.Mathlib.Nat.{mod-eq_of_lt, mod-mod}
use example_liquidity_layer.Prelude.{
  List, [], ap, append_assoc, arith, get_elem?-set_self, length, length-append, length-replicate,
  length-set, le→ltb, lt→ltb, refl, replicate, set, subst, suc, sym, zero, ℕ, ◌%◌, ◌*◌, ◌++◌, ◌+◌,
  ◌<◌, ◌∙◌, ◌∷◌, ◌≡◌,
}
use example_liquidity_layer.ArrayQueue.{
  ArrayQueue, Slot, copy_slots, dequeue, enqueue, get_slot, head, hole, is_empty, resize, value,
}
use example_liquidity_layer.ArrayQueue.Slots.{
  IsValid, contents, mod_ne, slots, slots-mod, slots-set_ne, slots_snoc,
}

mod_double : (s : ℕ) → s % (2 * s) ≡ s
mod_double zero = refl
mod_double (suc s) = mod-eq_of_lt {n = suc s} {m = 2 * suc s} (omega arith)

module _ {ℓ} {A : Type ℓ} where
  set_front :
      (pre : List (Slot A)) (s v : Slot A) (rest : List (Slot A)) (i : ℕ)
      → length pre ≡ i
      → set (pre ++ s ∷ rest) i v ≡ (pre ++ v ∷ []) ++ rest
  set_front [] s v rest zero e = refl
  set_front [] s v rest (suc i) e = absurd (omega arith)
  set_front (x ∷ pre) s v rest zero e = absurd (omega arith)
  set_front (x ∷ pre) s v rest (suc i) e = ap (◌∷◌ x) (set_front pre s v rest i (omega arith))

  get_slot-set_self :
      (d : List (Slot A)) (i : ℕ) (s : Slot A) → i < length d → get_slot (set d i s) i ≡ s
  unfolding get_slot
  get_slot-set_self d i s h = rw (get_elem?-set_self d i s h, get_slot)

  copy_slots_lem :
      (d pre : List (Slot A)) (index n i r : ℕ)
      → length pre ≡ i
      → copy_slots d index n i (pre ++ replicate (n + r) hole)
        ≡ pre ++ (slots d (index + i) n ++ replicate r hole)
  unfolding copy_slots
  copy_slots_lem d pre index zero i r e = ap (λ k. pre ++ replicate k hole) (omega arith)
  copy_slots_lem d pre index (suc n) i r e =
      let s = get_slot d ((index + i) % length d) in
      rw
        (
          more n r,
          set_front pre hole s (replicate (n + r) hole) i e,
          copy_slots_lem d (pre ++ s ∷ []) index n (i + 1) r
              (omega (arith, length-append pre (s ∷ []))),
        )
        (append_assoc pre (s ∷ []) _
          ∙ ap (λ k. pre ++ (s ∷ (slots d k n ++ replicate r hole))) (omega arith))
    where
      more : (n r : ℕ) → replicate {A = Slot A} (suc n + r) hole ≡ hole ∷ replicate (n + r) hole
      more n r =
          let e : suc n + r ≡ suc (n + r) = omega arith in ap (λ k. replicate {A = Slot A} k hole) e

  pub resize-items : (q : ArrayQueue A) → (resize q).items ≡ contents q ++ replicate q.size hole
  unfolding resize
  resize-items q =
      ap (λ k. copy_slots q.items q.index q.size 0 (replicate k hole)) (omega arith)
      ∙ copy_slots_lem q.items [] q.index q.size 0 q.size refl
      ∙ ap (λ k. slots q.items k q.size ++ replicate q.size hole) (omega arith)

  get_slot_at :
      (pre rest : List (Slot A)) (s : Slot A) (i : ℕ)
      → length pre ≡ i
      → get_slot (pre ++ s ∷ rest) i ≡ s
  unfolding get_slot
  get_slot_at [] rest s zero e = refl
  get_slot_at [] rest s (suc i) e = absurd (omega arith)
  get_slot_at (x ∷ pre) rest s zero e = absurd (omega arith)
  get_slot_at (x ∷ pre) rest s (suc i) e = get_slot_at pre rest s i (omega arith)

  -- Slots that lie in a row are read in a row.
  slots_row :
      (pre xs post : List (Slot A)) (i : ℕ)
      → length pre ≡ i
      → slots (pre ++ (xs ++ post)) i (length xs) ≡ xs
  slots_row pre [] post i e = refl
  slots_row pre (x ∷ xs) post i e =
      let whole = pre ++ (x ∷ (xs ++ post)) in
      let here : get_slot whole (i % length whole) ≡ x =
        rw
          (mod-eq_of_lt {n = i} {m = length whole}
            (omega (arith, length-append pre (x ∷ (xs ++ post)))))
          (get_slot_at pre (xs ++ post) x i e) in
      let rest : slots whole (i + 1) (length xs) ≡ xs =
        rw (sym (append_assoc pre (x ∷ []) (xs ++ post)))
          (slots_row (pre ++ x ∷ []) xs post (i + 1) (omega (arith, length-append pre (x ∷ [])))) in
      cc (here, rest)

  pub length-slots : (d : List (Slot A)) (i n : ℕ) → length (slots d i n) ≡ n
  length-slots d i zero = refl
  length-slots d i (suc n) = ap suc (length-slots d (i + 1) n)

  -- `resize` keeps what the queue holds and doubles the array.
  pub contents-resize :
      (q : ArrayQueue A)
      → (contents (resize q) ≡ contents q) × (length (resize q).items ≡ 2 * q.size)
  contents-resize q = (
    rw (resize-items q) (unfold resize in row),
    rw (resize-items q) (
        omega (
          arith,
          length-append (contents q) (replicate q.size hole),
          length-slots q.items q.index q.size,
          length-replicate {A = Slot A} q.size hole,
        )),
  )
    where
      row : slots (contents q ++ replicate q.size hole) 0 q.size ≡ contents q
      row =
          subst (λ k. slots (contents q ++ replicate q.size hole) 0 k ≡ contents q)
            (length-slots q.items q.index q.size)
            (slots_row [] (contents q) (replicate q.size hole) 0 refl)

  enqueue_room :
      (q : ArrayQueue A) (v : A)
      → q.size < length q.items
      → enqueue q v ≡ record {
        items = set q.items ((q.index + q.size) % length q.items) (value v);
        size = q.size + 1;
        index = q.index;
      }
  unfolding enqueue
  enqueue_room q v room = rw (le→ltb (length q.items) (q.size + 1) (omega arith))

  enqueue_full :
      (q : ArrayQueue A) (v : A)
      → q.size ≡ length q.items
      → enqueue q v ≡ record { items = (resize q).items; size = q.size + 1; index = 0 }
  unfolding enqueue
  enqueue_full q v full = rw (lt→ltb (length q.items) (q.size + 1) (omega arith))

  contents_grown :
      (q : ArrayQueue A) (v : A)
      → IsValid q
      → q.size < length q.items
      → slots (set q.items ((q.index + q.size) % length q.items) (value v)) q.index (suc q.size)
        ≡ contents q ++ value v ∷ []
  contents_grown q v valid room =
      let p : ℕ = (q.index + q.size) % length q.items in
      let grown = set q.items p (value v) in
      let kept : slots grown q.index q.size ≡ contents q =
        slots-set_ne q.items q.index q.size p (value v)
          (λ j h. mod_ne q.index j q.size (length q.items) valid.in_range h room) in
      let last : get_slot grown ((q.index + q.size) % length grown) ≡ value v =
        rw (length-set q.items p (value v)) (get_slot-set_self q.items p (value v) (omega arith)) in
      slots_snoc grown q.index q.size ∙ cc (kept, last)

  -- On an array with room the value goes behind the others, and nothing else moves.
  pub contents-enqueue :
      (q : ArrayQueue A) (v : A)
      → IsValid q
      → q.size < length q.items
      → (contents (enqueue q v) ≡ contents q ++ value v ∷ [])
        × (length (enqueue q v).items ≡ length q.items)
        × IsValid (enqueue q v)
  contents-enqueue q v valid room =
      let p : ℕ = (q.index + q.size) % length q.items in
      let same : length (set q.items p (value v)) ≡ length q.items =
        length-set q.items p (value v) in
      let one : q.size + 1 ≡ suc q.size = omega arith in
      rw (enqueue_room q v room) (
        rw one (contents_grown q v valid room),
        same,
        record { fits = omega arith; in_range = omega arith },
      )

  get_slot_pad :
      (pre : List (Slot A)) (n i : ℕ) → length pre ≡ i → get_slot (pre ++ replicate n hole) i ≡ hole
  unfolding get_slot
  get_slot_pad [] zero i e = refl
  get_slot_pad [] (suc n) zero e = refl
  get_slot_pad [] (suc n) (suc i) e = absurd (omega arith)
  get_slot_pad (x ∷ pre) n zero e = absurd (omega arith)
  get_slot_pad (x ∷ pre) n (suc i) e = get_slot_pad pre n i (omega arith)

  -- On a full array the value is lost: a hole takes its place behind the others.
  pub contents-enqueue_full :
      (q : ArrayQueue A) (v : A)
      → q.size ≡ length q.items
      → contents (enqueue q v) ≡ contents q ++ hole ∷ []
  contents-enqueue_full q v full =
      let d = (resize q).items in
      let one : q.size + 1 ≡ suc q.size = omega arith in
      let place : (0 + q.size) % length d ≡ q.size =
        rw (contents-resize q).1 (ap (λ k. k % (2 * q.size)) (omega arith) ∙ mod_double q.size) in
      let last : get_slot d ((0 + q.size) % length d) ≡ hole =
        rw (place, resize-items q)
          (get_slot_pad (contents q) q.size q.size (length-slots q.items q.index q.size)) in
      let kept : slots d 0 q.size ≡ contents q = unfold resize in (contents-resize q).0 in
      rw (enqueue_full q v full, one) (slots_snoc d 0 q.size ∙ cc (kept, last))

  dequeue-suc :
      (q : ArrayQueue A) (n : ℕ)
      → q.size ≡ suc n
      → dequeue q ≡ record { items = q.items; size = n; index = (q.index + 1) % length q.items }
  unfolding dequeue is_empty
  dequeue-suc q n e = ground arith

  head-suc : (q : ArrayQueue A) (n : ℕ) → q.size ≡ suc n → head q ≡ get_slot q.items q.index
  unfolding head is_empty
  head-suc q n e = ground arith

  -- `head` shows the first value and `dequeue` takes it off.
  pub contents-dequeue :
      (q : ArrayQueue A) (s : Slot A) (rest : List (Slot A))
      → IsValid q
      → contents q ≡ s ∷ rest
      → (contents (dequeue q) ≡ rest)
        × (head q ≡ s)
        × ((dequeue q).items ≡ q.items)
        × IsValid (dequeue q)
  contents-dequeue q s rest valid e = go q.size refl
    where
      go :
          (n : ℕ)
          → n ≡ q.size
          → (contents (dequeue q) ≡ rest)
            × (head q ≡ s)
            × ((dequeue q).items ≡ q.items)
            × IsValid (dequeue q)
      go zero z = absurd (omega (arith, ap length e, length-slots q.items q.index q.size))
      go (suc n) z =
          let m : ℕ = length q.items in
          let split : get_slot q.items (q.index % m) ∷ slots q.items (q.index + 1) n ≡ s ∷ rest =
            subst (λ k. slots q.items q.index k ≡ s ∷ rest) (sym z) e in
          rw (dequeue-suc q n (sym z), head-suc q n (sym z))
            (
              slots-mod q.items ((q.index + 1) % m) (q.index + 1) n (mod-mod (q.index + 1) m)
                  ∙ cc split,
              rw (sym (mod-eq_of_lt valid.in_range)) (cc split),
              refl,
              record { fits = omega (arith, valid.fits); in_range = omega (arith, valid.in_range) },
            )
