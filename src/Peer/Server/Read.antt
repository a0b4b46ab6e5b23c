-- ===== src/Peer/Server/Read.antt =====
-- peer/server/conn.go: `readTransport` and `readRawTransport`; the client's are not modelled. `before` and `after` say, by the bytes that are left, whether the transport was still the
-- connection's when it was looked at before and after the frame. `live` says whether the transport is still open
-- when its bytes have been read: the loop then waits for more, and otherwise it ends. After the loop the
-- connection is closed: `finish` is what `Connection.Close` does to the receive buffer; what it does to the
-- rest of the connection is in Peer/Server/Sessions.antt.
use telekit.Common.{
  ℕ, zero, suc, ◌+◌, ◌-◌, Bool, true, false, not, ◌||◌, Option, none, some, List, [], ◌∷◌, ◌==◌,
  if◌then◌else◌, ltb, length, take, drop,
}
use telekit.Common.Bytes.{number}
use telekit.Common.Results.{ok, error}
use telekit.Peer.Buffer
use telekit.Peer.Buffer.{ByteBudget, RecvBuffer, WriteResult, written, reserve, release}
use telekit.Peer.DataChannel.{
  DataChannel, ChannelError, frame_replayed, data_frame_heartbeat, open_frame,
}

-- The receive buffer, the server's budget and the data channel of a connection.
pub record Reader : Type 0 where
  pub channel : DataChannel
  pub buffer : RecvBuffer
  pub budget : Option ByteBudget

-- A loop goes on, breaks, waits for bytes, or panics in the budget. `passed` skips a replayed packet.
pub data Outcome : Type 0 where
  go_on stopped passed waiting : Reader → Outcome
  panicked : Outcome

-- The plaintext goes into the receive buffer.
unfoldable pub put_in : Reader → List ℕ → Outcome
put_in r raw =
    let (result, rb, b) = Buffer.write r.buffer r.budget raw in
    let r' : Reader = record r { buffer = rb; budget = b } in
    elim result [ written ↦ go_on r' | _ ↦ stopped r' ]

-- What is done with a frame that `OpenFrame` opened.
unfoldable pub handle : ℕ → Bool → Reader → ℕ → List ℕ → Outcome
handle max after r t raw = elim (ltb max (length raw)) [
  | true ↦ stopped r
  | false ↦ elim after [
    | false ↦ stopped r
    | true ↦ elim (t == data_frame_heartbeat) [ true ↦ go_on r | false ↦ put_in r raw ]
  ]
]

abbrev pub is_replay : ChannelError → Bool
is_replay frame_replayed = true
is_replay _ = false

-- From the reservation of a frame that was read in full to the end of the loop's body.
unfoldable pub take_frame : ℕ → Bool → Reader → ℕ → List ℕ → Outcome
take_frame max after r sequence ciphertext =
    let (b, granted) = reserve r.budget (length ciphertext) in
    elim granted [
      | false ↦ stopped (record r { budget = b })
      | true ↦
          let (opened, c) = open_frame r.channel sequence ciphertext max in
          elim (release b (length ciphertext)) [
            | none ↦ panicked
            | some b' ↦
                let r' : Reader = record r { channel = c; budget = b' } in
                elim opened [
                  | error e ↦ elim (is_replay e) [ true ↦ passed r' | false ↦ stopped r' ]
                  | ok (t, raw) ↦ handle max after r' t raw
                ]
          ]
    ]

-- The bytes have run out.
abbrev pub run_out : Bool → Reader → Outcome
run_out live r = if live then waiting r else stopped r

-- The bytes run out inside a frame: the reservation is held while the loop waits, and given back when it ends.
unfoldable pub cut_short : Bool → Reader → ℕ → Outcome
cut_short live r n =
    let (b, granted) = reserve r.budget n in
    elim granted [
      | false ↦ stopped (record r { budget = b })
      | true ↦ elim live [
        | true ↦ waiting (record r { budget = b })
        | false ↦ elim (release b n) [
          | none ↦ panicked
          | some b' ↦ stopped (record r { budget = b' })
        ]
      ]
    ]

-- The loop of `readTransport`, on fuel.
unfoldable pub read_frames : ℕ → Bool → (ℕ → Bool) → (ℕ → Bool) → ℕ → Reader → List ℕ → Outcome
read_frames zero live before after max r bytes = go_on r
read_frames (suc fuel) live before after max r bytes = elim (ltb (length bytes) 8) [
  | true ↦ run_out live r
  | false ↦
      let n = number 0 (take 8 bytes) in
      elim (not (before (length bytes)) || n == 0 || ltb max n) [
        | true ↦ stopped r
        | false ↦ elim (ltb (length bytes) 16) [
          | true ↦ run_out live r
          | false ↦ elim (ltb (length bytes) (16 + n)) [
            | true ↦ cut_short live r n
            | false ↦
                elim (take_frame max (after (length bytes)) r (number 0 (take 8 (drop 8 bytes)))
                  (take n (drop 16 bytes))) [
                    | go_on r' ↦ read_frames fuel live before after max r' (drop (16 + n) bytes)
                    | passed r' ↦ stopped r'
                    | stopped r' ↦ stopped r'
                    | waiting r' ↦ waiting r'
                    | panicked ↦ panicked
                  ]
          ]
        ]
      ]
]

-- `Close` after the loop: the receive buffer is closed, and what it held is discarded.
unfoldable pub finish : Outcome → Outcome
finish (stopped r) = elim (Buffer.close r.buffer r.budget) [
  | none ↦ panicked
  | some (rb, b) ↦ stopped (record r { buffer = rb; budget = b })
]
finish (go_on r) = go_on r
finish (passed r) = passed r
finish (waiting r) = waiting r
finish panicked = panicked

-- `readTransport`
unfoldable pub read_transport : ℕ → Bool → (ℕ → Bool) → (ℕ → Bool) → ℕ → Reader → List ℕ → Outcome
read_transport fuel live before after max r bytes =
    finish (read_frames fuel live before after max r bytes)

-- The body of `readRawTransport` on one packet.
unfoldable pub read_packet : Bool → Bool → ℕ → Reader → List ℕ → Outcome
read_packet before after max r packet = elim (ltb (length packet) 8 || not before) [
  | true ↦ stopped r
  | false ↦
      let n = number 0 (take 8 packet) in
      elim (n == 0 || ltb (length packet) 16 || ltb max n || not (n == length packet - 16)) [
        | true ↦ stopped r
        | false ↦ take_frame max after r (number 0 (take 8 (drop 8 packet))) (drop 16 packet)
      ]
]

-- The loop of `readRawTransport` on the packets that arrive, a replayed packet being skipped.
unfoldable pub read_packets : Bool → (ℕ → Bool) → (ℕ → Bool) → ℕ → Reader → List (List ℕ) → Outcome
read_packets live before after max r [] = run_out live r
read_packets live before after max r (packet ∷ packets) =
    elim (read_packet (before (length packets)) (after (length packets)) max r packet) [
      | go_on r' ↦ read_packets live before after max r' packets
      | passed r' ↦ read_packets live before after max r' packets
      | stopped r' ↦ stopped r'
      | waiting r' ↦ waiting r'
      | panicked ↦ panicked
    ]

-- `readRawTransport`
unfoldable pub read_raw_transport :
    Bool → (ℕ → Bool) → (ℕ → Bool) → ℕ → Reader → List (List ℕ) → Outcome
read_raw_transport live before after max r packets =
    finish (read_packets live before after max r packets)
