-- ===== src/Signaling/Broker/Tests.antt =====
-- Concrete runs of a broker.
use telekit.Common.{◌≡◌, refl, List, [], ◌∷◌, true, false, replicate}
use telekit.Signaling.Broker.Counts.{new_counts}
use telekit.Signaling.Broker.Members
use telekit.Signaling.Broker.Members.{IsCounted, run-IsCounted}
use telekit.Signaling.Broker.Queue
use telekit.Signaling.Broker.Queue.{OutboundMessage, new_client}
use telekit.Signaling.Broker.Backlog.{IsQueued, run-IsQueued}
use telekit.Signaling.Broker.Rooms
use telekit.Signaling.Broker.Rooms.{RoomState, targets, ensure_room, add, remove_client, forget}
use telekit.Signaling.Broker.Reach.{no_rooms, targets-run}

abbrev visits : List Members.Step
visits =
    Members.join 7 1
    ∷ Members.join 7 2
    ∷ Members.join 7 1
    ∷ Members.leave 7 1
    ∷ Members.join 8 1
    ∷ []

run-IsCounted_example : let (c, ms) = Members.run (new_counts 2 1, []) visits in IsCounted c ms
run-IsCounted_example = run-IsCounted 2 1 visits

abbrev hello : OutboundMessage
hello = record { typ = 1; data_bytes = replicate 5 9 }

abbrev traffic : List Queue.Step
traffic =
    Queue.count hello
    ∷ Queue.count hello
    ∷ Queue.enqueue 1 false
    ∷ Queue.take
    ∷ Queue.enqueue 0 false
    ∷ Queue.finish false
    ∷ Queue.count hello
    ∷ Queue.close
    ∷ Queue.enqueue 0 true
    ∷ []

run-IsQueued_example : IsQueued (Queue.run (new_client 1 12) traffic)
run-IsQueued_example = run-IsQueued 1 12 traffic

-- The room is left and made again, before its last client enters.
abbrev moves : List Rooms.Step
moves =
    Rooms.ensure 7
    ∷ Rooms.enter 0 5
    ∷ Rooms.leave 0 5
    ∷ Rooms.ensure 7
    ∷ Rooms.enter 0 6
    ∷ Rooms.drop 0
    ∷ Rooms.ensure 7
    ∷ Rooms.enter 1 6
    ∷ []

abbrev second_room : RoomState
second_room = record { room_id = 7; closed = false; clients = 6 ∷ [] }

targets-run_example : targets (Rooms.run no_rooms moves) 7 ≡ 6 ∷ []
unfolding Rooms.run Rooms.step ensure_room add remove_client forget
targets-run_example = targets-run moves 1 second_room refl (λ e. cc)
