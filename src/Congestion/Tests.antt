-- ===== src/Congestion/Tests.antt =====
-- Concrete runs of the ring buffer, the packet queue and the windowed filter.
use telekit.Common.{
  ℕ, ◌<◌, ◌≡◌, refl, true, false, Option, none, some, List, [], ◌∷◌, ◌++◌, arith, ltb,
  if◌then◌else◌,
}
use telekit.Congestion.Ring.{RingBuffer, push_back, pop_front}
use telekit.Congestion.Ring.Contents
use telekit.Congestion.Ring.Contents.{contents, init-IsValid, clear-IsValid}
use telekit.Congestion.Ring.Push.{push_back_lem}
use telekit.Congestion.Ring.Pop.{pop_front_lem}
use telekit.Congestion.PacketQueue
use telekit.Congestion.PacketQueue.{
  EntryWrapper, emplace, remove, remove_up_to, get_entry, last_packet, clearup,
}
use telekit.Congestion.PacketQueue.Slots
use telekit.Congestion.PacketQueue.Slots.{slots, look}
use telekit.Congestion.PacketQueue.Lookup.{get_entry-eq-look}
use telekit.Congestion.PacketQueue.Emplace.{Emplaced, emplace-Emplaced}
use telekit.Congestion.PacketQueue.Remove.{Removed, remove-Removed}
use telekit.Congestion.PacketQueue.Trim.{remove_up_to_lem}
use telekit.Congestion.WindowedFilter
use telekit.Congestion.WindowedFilter.{Entry, max_filter, update}
use telekit.Congestion.WindowedFilter.Order.{IsOrdered, Updated, update-Updated}
use telekit.Congestion.WindowedFilter.Runs.{Estimates, run, run-new}

-- The elements 1, 2 and 3, wrapped round the end of a slice of four.
abbrev wrapped : RingBuffer ℕ
wrapped = record { ring = 3 ∷ 0 ∷ 1 ∷ 2 ∷ []; head_pos = 2; tail_pos = 1; full = false }

wrapped-IsValid : Contents.IsValid wrapped
wrapped-IsValid = ground arith

abbrev full_ring : RingBuffer ℕ
full_ring = record { ring = 3 ∷ 4 ∷ 1 ∷ 2 ∷ []; head_pos = 2; tail_pos = 2; full = true }

full_ring-IsValid : Contents.IsValid full_ring
full_ring-IsValid = ground arith

push_back_lem_example :
    Contents.IsValid (push_back 0 full_ring 5)
    × (contents (push_back 0 full_ring 5) ≡ contents full_ring ++ 5 ∷ [])
push_back_lem_example = push_back_lem 0 full_ring 5 full_ring-IsValid

wrapped-contents : contents wrapped ≡ 1 ∷ 2 ∷ 3 ∷ []
unfolding contents
wrapped-contents = refl

pop_front_lem_example :
    (r' : RingBuffer ℕ) × (pop_front 0 wrapped ≡ some (1, r'))
    × Contents.IsValid r'
    × (contents r' ≡ 2 ∷ 3 ∷ [])
pop_front_lem_example = pop_front_lem 0 1 (2 ∷ 3 ∷ []) wrapped wrapped-IsValid wrapped-contents

-- Packet numbers 5 and 7 with their entries; 6 is missing.
abbrev gappy : PacketQueue.PacketQueue ℕ
gappy = record {
  entries = record {
    ring =
        record { present = true; entry = 50 }
        ∷ record { present = false; entry = 0 }
        ∷ record { present = true; entry = 70 }
        ∷ record { present = false; entry = 0 }
        ∷ [];
    head_pos = 0;
    tail_pos = 3;
    full = false;
  };
  number_of_present_entries = 2;
  first_packet = 6;
}

gappy-IsValid : Slots.IsValid gappy
unfolding contents
gappy-IsValid = record { ring_valid = ground arith; counted = refl; starts = (refl, omega arith) }

emplace-Emplaced_example : Emplaced 0 gappy 11 100 (emplace 0 gappy 11 (some 100))
emplace-Emplaced_example = emplace-Emplaced 0 gappy 11 100 gappy-IsValid

remove-Removed_example :
    (result : PacketQueue.PacketQueue ℕ × Option ℕ) × (remove 0 gappy 6 ≡ some result)
    × Removed gappy 6 result
remove-Removed_example = remove-Removed 0 gappy 6 gappy-IsValid

remove_up_to_lem_example :
    let q' = remove_up_to 0 8 gappy in
    Slots.IsValid q'
    × ((m : ℕ) → get_entry q' m ≡ (if ltb m 8 then some none else get_entry gappy m))
remove_up_to_lem_example = remove_up_to_lem 0 8 gappy gappy-IsValid

get_entry-eq-look_example : get_entry gappy 8 ≡ some (look (slots gappy) 6 8)
get_entry-eq-look_example = get_entry-eq-look gappy 8 gappy-IsValid

-- Samples are their own keys.
abbrev first_filter : WindowedFilter.WindowedFilter ℕ
first_filter = record {
  window_length = 10;
  best = record { sample = 9; time = 1 };
  second = record { sample = 7; time = 4 };
  third = record { sample = 5; time = 8 };
}

first_filter-IsOrdered : IsOrdered 0 max_filter (λ k. k) (λ a b. refl) 8 first_filter
first_filter-IsOrdered = omega arith

update-Updated_example :
    Updated 0 max_filter (λ k. k) (λ a b. refl) 6 13 (update 0 max_filter first_filter 6 13)
update-Updated_example =
    update-Updated 0 max_filter (λ k. k) (λ a b. refl) first_filter 6 13 8 first_filter-IsOrdered
      (omega arith) (omega arith)

abbrev samples : List (Entry ℕ)
samples = record { sample = 7; time = 4 } ∷ record { sample = 5; time = 9 } ∷ []

run-new_example :
    let f =
      run 0 max_filter (WindowedFilter.new 0 10) (record { sample = 9; time = 1 } ∷ samples) in
    Updated 0 max_filter (λ k. k) (λ a b. refl) 5 9 f × Estimates (λ e. 0 < e.time) f
run-new_example =
    run-new 0 max_filter (λ k. k) (λ a b. refl) 10 (record { sample = 9; time = 1 }) samples
      (λ e. 0 < e.time) (omega arith) (omega arith)
