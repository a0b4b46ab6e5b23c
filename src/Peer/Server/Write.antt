-- ===== src/Peer/Server/Write.antt =====
-- peer/server/write.go: `Connection.Write`; `Client.Write` of peer/client/write.go has the same loop.
-- `accepts` says of each frame whether the transport's `Write` takes it without an error.
pub mod Rounds
use telekit.Common.{
  ℕ, zero, suc, ◌+◌, ◌-◌, ◌/◌, min, Bool, true, false, not, ◌&&◌, ◌||◌, Option, none, some, List,
  [], ◌∷◌, ◌++◌, ◌==◌, ltb, leb, if◌then◌else◌, length, take, drop,
}
use telekit.Common.Bytes.{big_endian}
use telekit.Common.Results.{Result, ok, error}
use telekit.Peer.DataChannel.{DataChannel, ChannelError, seal, seal_heartbeat}

pub data WriteError : Type 0 where
  not_connected deadline_exceeded short_write frame_over_limit slice_out_of_range transport_failed
        out_of_rounds :
      WriteError
  sealing : ChannelError → WriteError

-- The length of the ciphertext, the sequence number, the ciphertext.
unfoldable pub frame_of : ℕ → List ℕ → List ℕ
frame_of sequence ciphertext =
    big_endian 8 (length ciphertext) ++ (big_endian 8 sequence ++ ciphertext)

-- The inner loop, on fuel: the first `n` bytes are sealed, and half as many when the frame is too long.
unfoldable pub seal_chunk :
    ℕ → DataChannel → ℕ → List ℕ → ℕ → Result WriteError (ℕ × ℕ × List ℕ) × DataChannel
seal_chunk zero c limit rest n = (error out_of_rounds, c)
seal_chunk (suc fuel) c limit rest n =
    let (r, c') = seal c (take n rest) in
    elim r [
      | error e ↦ (error (sealing e), c')
      | ok (sequence, ciphertext) ↦ elim (leb (length ciphertext) limit) [
        | true ↦ (ok (n, sequence, ciphertext), c')
        | false ↦ elim (leb n 1) [
          | true ↦ (error frame_over_limit, c')
          | false ↦ seal_chunk fuel c' limit rest (n / 2)
        ]
      ]
    ]

-- The count that `Write` returns, its error, the channel it leaves, and the frames the transport took.
pub record Written : Type 0 where
  pub count : ℕ
  pub failure : Option WriteError
  pub channel : DataChannel
  pub frames : List (List ℕ)

abbrev pub failed : ℕ → WriteError → DataChannel → Written
failed count e c = record { count = count; failure = some e; channel = c; frames = [] }

abbrev pub with_frame : List ℕ → Written → Written
with_frame frame w = record w { frames = frame ∷ w.frames }

-- The outer loop, on fuel, over the bytes from `offset` on.
unfoldable pub write_loop : ℕ → (List ℕ → Bool) → ℕ → DataChannel → List ℕ → ℕ → Written
write_loop zero accepts limit c rest offset = failed offset out_of_rounds c
write_loop (suc fuel) accepts limit c rest offset = elim (length rest == 0) [
  | true ↦ record { count = offset; failure = none; channel = c; frames = [] }
  | false ↦ elim (ltb limit 64) [
    | true ↦ failed offset slice_out_of_range c
    | false ↦
        let n = min (limit - 64) (length rest) in
        let (r, c') = seal_chunk (n + 1) c limit rest n in
        elim r [
          | error e ↦ failed offset e c'
          | ok (m, sequence, ciphertext) ↦ elim (accepts (frame_of sequence ciphertext)) [
            | false ↦ failed offset transport_failed c'
            | true ↦
                with_frame (frame_of sequence ciphertext)
                  (write_loop fuel accepts limit c' (drop m rest) (offset + m))
          ]
        ]
  ]
]

-- `Write`, when the transport is there or not, and the deadline over or not.
unfoldable pub write : (List ℕ → Bool) → ℕ → Bool → Bool → DataChannel → List ℕ → Written
write accepts limit connected timed_out c p =
    if not connected
    then failed 0 not_connected c
    else if timed_out
    then failed 0 deadline_exceeded c
    else write_loop (length p + 1) accepts limit c p 0

-- `maxFrameSize`: the option, or the transport's own limit when it has one that is lower.
unfoldable pub max_frame_size : ℕ → ℕ → ℕ
max_frame_size option transport_limit =
    if not (transport_limit == 0) && ltb transport_limit option then transport_limit else option

-- `sendHeartbeat` on the transport it was started for. `taken` is what the transport's `Write` returns: an
-- error, or the count of the bytes written.
unfoldable pub send_heartbeat : (List ℕ → Option ℕ) → Bool → DataChannel → Written
send_heartbeat taken current c =
    if not current
    then failed 0 not_connected c
    else (let (r, c') = seal_heartbeat c in
        elim r [
          | error e ↦ failed 0 (sealing e) c'
          | ok (sequence, ciphertext) ↦
              let frame = frame_of sequence ciphertext in
              elim (taken frame) [
                | none ↦ failed 0 transport_failed c'
                | some n ↦
                    if n == length frame
                    then record { count = 0; failure = none; channel = c'; frames = frame ∷ [] }
                    else failed 0 short_write c'
              ]
        ])
