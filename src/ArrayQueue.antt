-- ===== src/ArrayQueue.antt =====
-- The class ArrayQueue of solana/ts/src/utils.ts: a queue over a circular array.
pub mod Slots
pub mod Resize
pub mod Refine
mod Tests
use example_liquidity_layer.Prelude.{
  Bool, List, Option, get_elem?, if◌then◌else◌, length, ltb, none, replicate, set, some, suc, zero,
  ℕ, ◌%◌, ◌*◌, ◌+◌, ◌-◌, ◌==◌,
}

-- An element of a JavaScript array: never written (undefined), null, or a value.
pub data Slot {ℓ} (A : Type ℓ) : Type ℓ where
  hole null : Slot A
  value : A → Slot A

pub record ArrayQueue {ℓ} (A : Type ℓ) : Type ℓ where
  pub items : List (Slot A)
  pub size : ℕ
  pub index : ℕ

module _ {ℓ} {A : Type ℓ} where
  -- `data[i]`; outside the array it is undefined.
  unfoldable pub get_slot : List (Slot A) → ℕ → Slot A
  get_slot d i = elim (get_elem? d i) [ none ↦ hole | some s ↦ s ]

  unfoldable pub is_empty : ArrayQueue A → Bool
  is_empty q = q.size == 0

  unfoldable pub queue_length : ArrayQueue A → ℕ
  queue_length q = q.size

  pub head : ArrayQueue A → Slot A
  unfolding is_empty get_slot
  head q = if is_empty q then null else get_slot q.items q.index

  -- `for (let i = 0; i < size; ++i) newData[i] = data[(index + i) % data.length]`, where `n` counts
  -- the rounds left.
  pub copy_slots : List (Slot A) → ℕ → ℕ → ℕ → List (Slot A) → List (Slot A)
  unfolding get_slot
  copy_slots d index zero i new = new
  copy_slots d index (suc n) i new =
      copy_slots d index n (i + 1) (set new i (get_slot d ((index + i) % length d)))

  pub resize : ArrayQueue A → ArrayQueue A
  unfolding copy_slots
  resize q = record {
    items = copy_slots q.items q.index q.size 0 (replicate (q.size * 2) hole);
    size = q.size;
    index = 0;
  }

  -- The local `data` is read before `resize` and not read again: where the array was full, the write
  -- goes to the array that `resize` has just replaced, and the queue keeps the new one.
  pub enqueue : ArrayQueue A → A → ArrayQueue A
  unfolding resize
  enqueue q v =
      let written = set q.items ((q.index + q.size) % length q.items) (value v) in
      if ltb (length q.items) (q.size + 1)
      then record { items = (resize q).items; size = (resize q).size + 1; index = (resize q).index }
      else record { items = written; size = q.size + 1; index = q.index }

  pub dequeue : ArrayQueue A → ArrayQueue A
  unfolding is_empty
  dequeue q =
      if is_empty q
      then q
      else record { items = q.items; size = q.size - 1; index = (q.index + 1) % length q.items }

-- The constructor; `capacity ?? 256`.
pub new_queue {ℓ} : (A : Type ℓ) → Option ℕ → ArrayQueue A
new_queue A none = record { items = replicate 256 null; size = 0; index = 0 }
new_queue A (some capacity) = record { items = replicate capacity null; size = 0; index = 0 }
