-- ===== src/Congestion/PacketQueue.antt =====
-- transports/transport_quic/congestion/bbr/packet_number_indexed_queue.go.
-- A packet number n (an int64 that is at least -1) is stored as n + 1, so `invalidPacketNumber`
-- is 0 and `<`, `<=`, `++` and differences are those of the source. A method that returns a
-- pointer to an entry returns the entry; a nil pointer is `none`.
pub mod Slots
pub mod Sweep
pub mod Lookup
pub mod Emplace
pub mod Remove
pub mod Trim
use telekit.Common.{
  ℕ, zero, suc, ◌+◌, ◌-◌, Bool, true, false, not, ◌&&◌, ◌||◌, Option, none, some, ◌==◌, leb, ltb,
  if◌then◌else◌, [],
}
use telekit.Congestion.Ring
use telekit.Congestion.Ring.{RingBuffer}

pub record EntryWrapper {ℓ} (A : Type ℓ) : Type ℓ where
  pub present : Bool
  pub entry : A

pub record PacketQueue {ℓ} (A : Type ℓ) : Type ℓ where
  pub entries : RingBuffer (EntryWrapper A)
  pub number_of_present_entries : ℕ
  pub first_packet : ℕ

abbrev pub invalid_packet_number : ℕ
invalid_packet_number = 0

-- `zero_value` is Go's `*new(T)`.
module _ {ℓ} {A : Type ℓ} (zero_value : A) where
  abbrev pub blank : EntryWrapper A
  blank = record { present = false; entry = zero_value }

  -- `newPacketNumberIndexedQueue`
  unfoldable pub new : ℕ → PacketQueue A
  new size = record {
    entries = Ring.init blank (record { ring = []; head_pos = 0; tail_pos = 0; full = false }) size;
    number_of_present_entries = 0;
    first_packet = invalid_packet_number;
  }

  -- The loop of `Emplace` over missing packet numbers.
  unfoldable pub push_blanks : ℕ → RingBuffer (EntryWrapper A) → RingBuffer (EntryWrapper A)
  push_blanks zero r = r
  push_blanks (suc gap) r = push_blanks gap (Ring.push_back blank r blank)

  -- The loop of `clearup`, on fuel; each round pops one slot.
  unfoldable pub clearup_loop : ℕ → PacketQueue A → PacketQueue A
  clearup_loop zero q = q
  clearup_loop (suc fuel) q = elim (Ring.front q.entries) [
    | none ↦ q
    | some w ↦ elim w.present [
      | true ↦ q
      | false ↦ elim (Ring.pop_front blank q.entries) [
        | none ↦ q
        | some (_, r) ↦
            clearup_loop fuel (record q { entries = r; first_packet = q.first_packet + 1 })
      ]
    ]
  ]

  unfoldable pub clearup : PacketQueue A → PacketQueue A
  clearup q =
      let q' = clearup_loop (Ring.len q.entries) q in
      if Ring.empty q'.entries then record q' { first_packet = invalid_packet_number } else q'

  -- The loop of `RemoveUpTo`, on fuel; each round pops one slot.
  unfoldable pub remove_loop : ℕ → ℕ → PacketQueue A → PacketQueue A
  remove_loop zero n q = q
  remove_loop (suc fuel) n q =
      elim (not (q.first_packet == invalid_packet_number) && ltb q.first_packet n) [
        | false ↦ q
        | true ↦ elim (Ring.front q.entries) [
          | none ↦ q
          | some w ↦ elim (Ring.pop_front blank q.entries) [
            | none ↦ q
            | some (_, r) ↦ remove_loop fuel n (record {
              entries = r;
              number_of_present_entries =
                  if w.present
                  then q.number_of_present_entries - 1
                  else q.number_of_present_entries;
              first_packet = q.first_packet + 1;
            })
          ]
        ]
      ]

  unfoldable pub remove_up_to : ℕ → PacketQueue A → PacketQueue A
  remove_up_to n q = clearup (remove_loop (Ring.len q.entries) n q)

module _ {ℓ} {A : Type ℓ} where
  unfoldable pub is_empty : PacketQueue A → Bool
  is_empty q = q.number_of_present_entries == 0

  unfoldable pub entry_slots_used : PacketQueue A → ℕ
  entry_slots_used q = Ring.len q.entries

  unfoldable pub last_packet : PacketQueue A → ℕ
  last_packet q =
      if is_empty q then invalid_packet_number else q.first_packet + Ring.len q.entries - 1

  -- A pointer to a wrapper that `getEntryWraper` may return: nil unless its entry is present.
  abbrev pub if_present : EntryWrapper A → Option (EntryWrapper A)
  if_present w = if w.present then some w else none

  -- `getEntryWraper`; the outer `none` is the panic of `Offset`.
  unfoldable pub get_entry_wrapper : PacketQueue A → ℕ → Option (Option (EntryWrapper A))
  get_entry_wrapper q n =
      if n == invalid_packet_number || is_empty q || ltb n q.first_packet
      then some none
      else if leb (Ring.len q.entries) (n - q.first_packet)
      then some none
      else (elim (Ring.offset q.entries (n - q.first_packet)) [
        | none ↦ none
        | some w ↦ some (if_present w)
      ])

  abbrev pub entry_of : Option (EntryWrapper A) → Option A
  entry_of none = none
  entry_of (some w) = some w.entry

  -- The outer `none` is a panic, as above.
  unfoldable pub get_entry : PacketQueue A → ℕ → Option (Option A)
  get_entry q n = elim (get_entry_wrapper q n) [ none ↦ none | some p ↦ some (entry_of p) ]

-- The new queue and whether the entry went in; the entry is a pointer that may be nil.
unfoldable pub emplace {ℓ} : {A : Type ℓ} → A → PacketQueue A → ℕ → Option A → PacketQueue A × Bool
emplace {A} z q n none = (q, false)
emplace {A} z q n (some e) =
    let fresh : EntryWrapper A = record { present = true; entry = e } in
    if n == invalid_packet_number
    then (q, false)
    else if is_empty q
    then (
      record {
        entries = Ring.push_back (blank z) q.entries fresh;
        number_of_present_entries = 1;
        first_packet = n;
      },
      true,
    )
    else if leb n (last_packet q)
    then (q, false)
    else (
      record q {
        entries =
            Ring.push_back (blank z)
              (push_blanks z (n - q.first_packet - Ring.len q.entries) q.entries) fresh;
        number_of_present_entries = q.number_of_present_entries + 1;
      },
      true,
    )

-- The new queue, and the entry that was handed to the callback, none with the result false. `none` is a panic.
unfoldable pub remove {ℓ} : {A : Type ℓ} → A → PacketQueue A → ℕ → Option (PacketQueue A × Option A)
remove z q n = elim (get_entry_wrapper q n) [
  | none ↦ none
  | some none ↦ some (q, none)
  | some (some w) ↦
      let q' = record q {
        entries = Ring.write_at q.entries (n - q.first_packet) (record w { present = false });
        number_of_present_entries = q.number_of_present_entries - 1;
      } in
      some ((if n == q.first_packet then clearup z q' else q'), some w.entry)
]
