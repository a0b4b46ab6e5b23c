-- ===== src/Congestion/Ring.antt =====
-- transports/transport_quic/congestion/bbr/ringbuffer.go: `RingBuffer[T]`.
-- `zero_value` is Go's `*new(T)`. A method that changes the buffer returns the new one; a method
-- that panics on an empty buffer returns an option. Positions are far below 2^63 and do not wrap.
pub mod Contents
pub mod Push
pub mod Pop
pub mod Access
pub mod Write
use telekit.Common.{
  ℕ, zero, suc, ◌+◌, ◌-◌, ◌*◌, ◌%◌, Bool, true, false, not, ◌&&◌, ◌||◌, Option, none, some, List,
  ◌++◌, ◌==◌, leb, if◌then◌else◌, length, get_elem?, set, take, drop, replicate,
}

pub record RingBuffer {ℓ} (A : Type ℓ) : Type ℓ where
  pub ring : List A
  pub head_pos : ℕ
  pub tail_pos : ℕ
  pub full : Bool

module _ {ℓ} {A : Type ℓ} where
  unfoldable pub init : A → RingBuffer A → ℕ → RingBuffer A
  init zero_value r size = record r { ring = replicate size zero_value }

  unfoldable pub len : RingBuffer A → ℕ
  len r =
      if r.full
      then length r.ring
      else if leb r.head_pos r.tail_pos
      then r.tail_pos - r.head_pos
      else r.tail_pos + length r.ring - r.head_pos

  unfoldable pub empty : RingBuffer A → Bool
  empty r = not r.full && r.head_pos == r.tail_pos

  -- `copy(dst, src)` into a slice of zero values that is at least as long.
  unfoldable pub grow : A → RingBuffer A → RingBuffer A
  grow zero_value r =
      let doubled = length r.ring * 2 in
      let new_size = if doubled == 0 then 1 else doubled in
      let moved = drop r.head_pos r.ring ++ take r.head_pos r.ring in
      record {
        ring = moved ++ replicate (new_size - length moved) zero_value;
        head_pos = 0;
        tail_pos = length r.ring;
        full = false;
      }

  -- The next position, back to the start at the end of the slice.
  unfoldable pub advance : RingBuffer A → ℕ → ℕ
  advance r i = if i + 1 == length r.ring then 0 else i + 1

  -- The body of `PushBack` once there is room.
  unfoldable pub store : RingBuffer A → A → RingBuffer A
  unfolding advance
  store r t =
      let next = advance r r.tail_pos in
      record r {
        ring = set r.ring r.tail_pos t;
        tail_pos = next;
        full = if next == r.head_pos then true else r.full;
      }

  unfoldable pub push_back : A → RingBuffer A → A → RingBuffer A
  push_back zero_value r t = store (if r.full || length r.ring == 0 then grow zero_value r else r) t

  unfoldable pub pop_front : A → RingBuffer A → Option (A × RingBuffer A)
  unfolding advance
  pop_front zero_value r = if empty r then none else (elim (get_elem? r.ring r.head_pos) [
    | none ↦ none
    | some t ↦ some (
      t,
      record r {
        ring = set r.ring r.head_pos zero_value;
        head_pos = advance r r.head_pos;
        full = false;
      },
    )
  ])

  -- The index into the slice that `Offset` points to.
  unfoldable pub slot : RingBuffer A → ℕ → ℕ
  slot r index = (r.head_pos + index) % length r.ring

  unfoldable pub offset : RingBuffer A → ℕ → Option A
  unfolding slot
  offset r index = if empty r || leb (len r) index then none else get_elem? r.ring (slot r index)

  -- A write through the pointer that `Offset` returned.
  unfoldable pub write_at : RingBuffer A → ℕ → A → RingBuffer A
  unfolding slot
  write_at r index t = record r { ring = set r.ring (slot r index) t }

  unfoldable pub front : RingBuffer A → Option A
  front r = if empty r then none else get_elem? r.ring r.head_pos

  unfoldable pub back : RingBuffer A → Option A
  back r = if empty r then none else offset r (len r - 1)

  unfoldable pub clear : A → RingBuffer A → RingBuffer A
  clear zero_value r = record {
    ring = replicate (length r.ring) zero_value;
    head_pos = 0;
    tail_pos = 0;
    full = false;
  }
