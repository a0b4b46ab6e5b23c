-- ===== src/Peer/Tests.antt =====
-- Concrete runs of the replay window and of receive buffers.
use telekit.Common.{◌≡◌, refl, false, Option, none, some, List, [], ◌∷◌, ◌++◌, arith}
use telekit.Peer.Replay.{ReplayWindow, accept, offer_all}
use telekit.Peer.Replay
use telekit.Peer.Replay.History.{Tracks}
use telekit.Peer.Replay.Once.{Accepted, accept-Accepted, Distinct, accepts_once, reset-Tracks}
use telekit.Peer.Buffer.{ByteBudget, RecvBuffer}
use telekit.Peer.Buffer.Budget.{IsBacked}
use telekit.Peer.Buffer.Stream
use telekit.Peer.Buffer.Stream.{Traffic, run-Flows}
use telekit.Peer.Buffer.Shared
use telekit.Peer.Buffer.Shared.{Pool, IsSound, run-IsSound}

-- The window after 4 and then 9 were accepted.
abbrev second_window : ReplayWindow
second_window = (accept (accept Replay.new 4).0 9).0

second_window-Tracks : Tracks second_window (9 ∷ 4 ∷ [])
unfolding Replay.reset accept Replay.advance
second_window-Tracks =
    (accept-Accepted (accept Replay.new 4).0 (4 ∷ [])
      (accept-Accepted Replay.new [] (reset-Tracks Replay.new) 4).1 9).1

accept-Accepted_example : Accepted second_window (9 ∷ 4 ∷ []) 6 (accept second_window 6)
accept-Accepted_example = accept-Accepted second_window (9 ∷ 4 ∷ []) second_window-Tracks 6

accepts_once_example : Distinct (offer_all Replay.new [] (3 ∷ 80 ∷ 3 ∷ 79 ∷ 80 ∷ 0 ∷ [])).1
accepts_once_example = accepts_once (3 ∷ 80 ∷ 3 ∷ 79 ∷ 80 ∷ 0 ∷ [])

abbrev small_budget : Option ByteBudget
small_budget = some (record { limit = 10; used = 5 })

abbrev two_bytes : RecvBuffer
two_bytes = record { buf = 1 ∷ 2 ∷ []; closed = false; deadline = none; limit = 8 }

two_bytes-IsBacked : IsBacked two_bytes small_budget 3
two_bytes-IsBacked = record {
  within = omega arith;
  emptied = λ c. cc;
  counts = (refl, omega arith);
}

abbrev traffic : Traffic
traffic = record {
  buffer = two_bytes;
  budget = small_budget;
  taken_in = 0 ∷ 1 ∷ 2 ∷ [];
  handed_out = 0 ∷ [];
}

abbrev calls : List Stream.Op
calls = Stream.put (3 ∷ 4 ∷ []) ∷ Stream.get 3 0 ∷ Stream.put (5 ∷ []) ∷ Stream.get 9 0 ∷ []

run-Flows_example :
    (u : Traffic) × (Stream.run traffic calls ≡ some u)
    × (u.taken_in ≡ u.handed_out ++ u.buffer.buf)
run-Flows_example = run-Flows 3 calls traffic two_bytes-IsBacked refl

-- Two buffers and one frame under a budget of ten bytes.
abbrev pool : Pool
pool = record {
  budget = some (record { limit = 10; used = 6 });
  buffers = two_bytes ∷ record two_bytes { buf = 7 ∷ [] } ∷ [];
  held = 2 ∷ 1 ∷ [];
}

pool-IsSound : IsSound pool
pool-IsSound = record {
  counts = (refl, omega arith);
  bounded = ((omega arith, λ c. cc), ((omega arith, λ c. cc), tt));
}

abbrev interleaved : List Shared.Op
interleaved =
    Shared.put 0 (3 ∷ 4 ∷ [])
    ∷ Shared.put 1 (8 ∷ 9 ∷ 10 ∷ [])
    ∷ Shared.unhold 1
    ∷ Shared.shut 0
    ∷ Shared.connect 0
    ∷ Shared.hold 2
    ∷ Shared.get 1 1 0
    ∷ Shared.discard 2
    ∷ []

run-IsSound_example : (q : Pool) × (Shared.run pool interleaved ≡ some q) × IsSound q
run-IsSound_example = run-IsSound interleaved pool pool-IsSound
