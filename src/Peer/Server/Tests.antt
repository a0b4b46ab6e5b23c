-- ===== src/Peer/Server/Tests.antt =====
-- Concrete writes and reads.
use telekit.Common.{
  ℕ, ◌+◌, ◌≡◌, refl, arith, Bool, true, false, Option, none, some, List, [], ◌∷◌, length, take,
  replicate,
}
use telekit.Peer.Codec.Samples.{codec_with}
use telekit.Encryption.Samples.{sender_kit, receiver_kit}
use telekit.Peer.DataChannel.{DataChannel, client_to_server, server_to_client}
use telekit.Peer.Replay
use telekit.Peer.Server.Write.{write}
use telekit.Peer.Server.Write.Rounds.{IsComplete, write-IsComplete}
use telekit.Peer.Server.Read.{Reader, stopped, read_transport}
use telekit.Peer.Server.Transfer.Links.{Linked}
use telekit.Peer.Server.Transfer.Arrivals.{HasRoom}
use telekit.Peer.Server.Transfer.Whole.{Receives, read_all, joined, read_transport-write}

abbrev sender : DataChannel
sender = record {
  send_codec = codec_with sender_kit;
  receive_codec = codec_with receiver_kit;
  send_direction = client_to_server;
  receive_direction = server_to_client;
  send_sequence = 4;
  receive_window = Replay.new;
}

abbrev receiver : Reader
receiver = record {
  channel = record sender {
    send_direction = server_to_client;
    receive_direction = client_to_server;
  };
  buffer = record { buf = 1 ∷ []; closed = false; deadline = none; limit = 1000 };
  budget = some (record { limit = 1000; used = 30 });
}

sender-Linked : Linked sender receiver.channel
sender-Linked = record {
  kit = sender_kit;
  other = receiver_kit;
  sender_kit = refl;
  receiver_kit = refl;
  sized = refl;
  counter = omega arith;
  numbers = omega arith;
  same_cipher = refl;
  same_data = refl;
  sender_prepared = record { data_prepared = refl; header_prepared = refl };
  receiver_prepared = record { data_prepared = refl; header_prepared = refl };
  same_direction = refl;
  behind = omega arith;
}

abbrev nine_bytes : List ℕ
nine_bytes = replicate 9 5

receiver-HasRoom : HasRoom 70 9 receiver
receiver-HasRoom = record { open_still = refl; room = omega arith; budget_room = omega arith }

abbrev takes_all : List ℕ → Bool
takes_all frame = true

write-IsComplete_example :
    IsComplete 70 0 nine_bytes (write takes_all 70 true false sender nine_bytes)
write-IsComplete_example = write-IsComplete takes_all 70 true false sender nine_bytes (omega arith)

read_transport-write_example :
    let w = write takes_all 70 true false sender nine_bytes in
    Receives receiver
      (take w.count nine_bytes)
      (read_all (length w.frames + 1) 80 receiver (joined w.frames))
read_transport-write_example =
    read_transport-write 70 80 takes_all true false sender receiver nine_bytes (omega arith)
      (omega arith) (omega arith) sender-Linked receiver-HasRoom

-- Six bytes in one frame, and three in the next.
written_all : (write takes_all 70 true false sender nine_bytes).count ≡ 9
unfolding write telekit.Peer.Server.Write.write_loop telekit.Peer.Server.Write.seal_chunk
    telekit.Peer.DataChannel.seal telekit.Peer.DataChannel.seal_frame
    telekit.Peer.Codec.encode_with_encryption telekit.Encryption.encrypt telekit.Encryption.next
    telekit.Common.Bytes.big_endian
written_all = refl

abbrev closed_reader : Reader
closed_reader = record receiver {
  buffer = record receiver.buffer { buf = []; closed = true };
  budget = some (record { limit = 1000; used = 29 });
}

-- When the transport ends, what was received is discarded and the budget gets it back.
ended : read_transport 1 false (λ n. true) (λ n. true) 80 receiver [] ≡ stopped closed_reader
unfolding telekit.Peer.Server.Read.read_transport telekit.Peer.Server.Read.read_frames
    telekit.Peer.Server.Read.finish telekit.Peer.Buffer.close telekit.Peer.Buffer.release
ended = refl
