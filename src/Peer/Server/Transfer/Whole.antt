-- ===== src/Peer/Server/Transfer/Whole.antt =====
-- All the frames of one `Write`, read at the other end.
use telekit.Common.{
  ℕ, zero, suc, ◌+◌, ◌-◌, ◌/◌, ◌≤◌, ◌<◌, min, ◌≡◌, refl, ap, sym, ◌∙◌, subst, Bool, true, false,
  List, [], ◌∷◌, ◌++◌, ◌==◌, ltb, leb, length, take, drop, arith, append_assoc, append-nil,
  take-all, length-take, length-drop, Bool-cases, inl, inr,
}
use telekit.Common.Results.{Result, ok, error, Result-cases}
use telekit.Encryption.{max_uint64}
use telekit.Peer.DataChannel.{DataChannel, seal}
use telekit.Peer.Server.Write.{
  WriteError, with_frame, frame_of, seal_chunk, Written, write_loop, write,
}
use telekit.Peer.Server.Write.Rounds.{seal_chunk-IsChunk, write_loop-IsComplete}
use telekit.Peer.Server.Read.{Reader, Outcome, waiting, finish, read_frames, read_transport}
use telekit.Peer.Server.Transfer.Links.{Linked, IsOpened, seal-IsOpened}
use telekit.Peer.Server.Transfer.Arrivals.{HasRoom, HasRoom-le, take_frame-room, read_frames-frame}

-- The chunk that was sealed is the one that the receiver opens.
abbrev IsOpenedChunk :
    DataChannel → ℕ → List ℕ → Result WriteError (ℕ × ℕ × List ℕ) → DataChannel → Type 0
IsOpenedChunk s max rest (error e) c' = Unit
IsOpenedChunk s max rest (ok (m, q, ct)) c' = IsOpened s c' max q (take m rest) ct

seal_chunk-IsOpened :
    (fuel : ℕ) (c s : DataChannel) (limit : ℕ) (rest : List ℕ) (n max : ℕ)
    → Linked c s
    → n ≤ length rest
    → n + 1 ≤ max
    → let (r, c') = seal_chunk fuel c limit rest n in IsOpenedChunk s max rest r c'
unfolding seal_chunk
seal_chunk-IsOpened zero c s limit rest n max v h l = tt
seal_chunk-IsOpened (suc fuel) c s limit rest n max v h l =
    elim (Result-cases (seal c (take n rest)).0) [
      | inr (e, f) ↦ simp (f, seal_chunk) tt
      | inl (r, f) ↦
          let (opened, skipped) =
            seal-IsOpened c s (take n rest) max v (omega (arith, length-take n rest h)) {q = r.0}
              {ct = r.1} {c' = (seal c (take n rest)).1}
              (ap (λ x. (x, (seal c (take n rest)).1)) f) in
          simp (f, seal_chunk)
            (elim (Bool-cases (leb (length r.1) limit)) [
              | inl a ↦ rw a opened
              | inr a ↦ simp a (elim (Bool-cases (leb n 1)) [
                | inl b ↦ rw b tt
                | inr b ↦ simp b (
                    seal_chunk-IsOpened fuel (seal c (take n rest)).1 s limit rest (n / 2) max
                      skipped (omega arith) (omega arith))
              ])
            ])
    ]

abbrev pub joined : List (List ℕ) → List ℕ
joined [] = []
joined (frame ∷ frames) = frame ++ joined frames

-- The reader waits for more with these bytes behind what its buffer held.
pub record Receives (r : Reader) (bytes : List ℕ) (o : Outcome) : Type 0 where
  pub last : Reader
  pub waits : o ≡ waiting last
  pub received : last.buffer.buf ≡ r.buffer.buf ++ bytes

-- The transport stays open, and the connection's.
abbrev pub read_all : ℕ → ℕ → Reader → List ℕ → Outcome
read_all fuel max r bytes = read_transport fuel true (λ n. true) (λ n. true) max r bytes

take-add : (n m : ℕ) (xs : List ℕ) → take (n + m) xs ≡ take n xs ++ take m (drop n xs)
take-add zero m xs = ap (λ k. take k xs) (omega arith)
take-add (suc n) m [] = take-all (suc n + m) [] (omega arith) ∙ sym (take-all m [] (omega arith))
take-add (suc n) m (x ∷ xs) =
    ap (λ k. take k (x ∷ xs)) {x = suc n + m} {y = suc (n + m)} (omega arith)
    ∙ ap (λ ys. x ∷ ys) (take-add n m xs)

-- No frame is left.
received-none :
    (rounds max start : ℕ) (r : Reader) (rest : List ℕ)
    → 0 < rounds
    → Receives r (take (start - start) rest) (read_all rounds max r [])
unfolding read_transport read_frames finish
received-none zero max start r rest h = absurd (omega arith)
received-none (suc rounds) max start r rest h = record {
  last = r;
  waits = refl;
  received =
      sym (append-nil r.buffer.buf)
      ∙ ap (λ k. r.buffer.buf ++ take k rest) {x = 0} {y = start - start} (omega arith);
}

received-frame :
    (r r' : Reader) (rest : List ℕ) (start count m : ℕ) {o o' : Outcome}
    → o ≡ o'
    → r'.buffer.buf ≡ r.buffer.buf ++ take m rest
    → start + m ≤ count
    → Receives r' (take (count - (start + m)) (drop m rest)) o'
    → Receives r (take (count - start) rest) o
received-frame r r' rest start count m same whole h v = record {
  last = v.last;
  waits = same ∙ v.waits;
  received =
      v.received
      ∙ ap (λ xs. xs ++ take (count - (start + m)) (drop m rest)) whole
      ∙ append_assoc r.buffer.buf (take m rest) (take (count - (start + m)) (drop m rest))
      ∙ ap (λ xs. r.buffer.buf ++ xs)
          (sym (take-add m (count - (start + m)) rest)
            ∙ ap (λ k. take k rest) {x = m + (count - (start + m))} {y = count - start}
                (omega arith));
}

-- What a written result leaves at a reader with rounds enough for its frames.
abbrev Arrives : ℕ → Reader → List ℕ → ℕ → Written → Type 0
Arrives max r rest start w =
    (rounds : ℕ)
    → length w.frames < rounds
    → Receives r (take (w.count - start) rest) (read_all rounds max r (joined w.frames))

module _ (limit max : ℕ) (small : limit ≤ max) (bound : max ≤ max_uint64) where
  -- The first frame, then the others.
  frame-Arrives :
      (c' : DataChannel) (r : Reader) (rest : List ℕ) (start m q : ℕ) (ct : List ℕ) (w : Written)
      → m ≤ length rest
      → m ≤ max
      → length ct ≤ limit
      → start + m ≤ w.count
      → HasRoom limit (length rest) r
      → IsOpened r.channel c' max q (take m rest) ct
      → ((r' : Reader)
          → Linked c' r'.channel
          → HasRoom limit (length (drop m rest)) r'
          → Arrives max r' (drop m rest) (start + m) w)
      → Arrives max r rest start (with_frame (frame_of q ct) w)
  unfolding read_transport
  frame-Arrives c' r rest start m q ct w h g l k room v others zero f = absurd (omega arith)
  frame-Arrives c' r rest start m q ct w h g l k room v others (suc rounds) f =
      let size = length-take m rest h in
      let (r', taken, more, whole, same) =
        take_frame-room limit (length rest - m) max q r ct (take m rest) v.receiver
          (HasRoom-le limit (length rest) (length (take m rest) + (length rest - m)) r (omega arith)
            room)
          l (omega arith) v.opens in
      received-frame r r' rest start w.count m
        (ap finish (
          read_frames-frame rounds true max q r ct (joined w.frames) v.nonempty (omega arith) bound
            v.number taken))
        whole k
        (others r' (subst (Linked c') (sym same) v.linked)
          (HasRoom-le limit (length rest - m) (length (drop m rest)) r'
            (omega (arith, length-drop m rest)) more)
          rounds (omega arith))

  write_loop-Arrives :
      (fuel : ℕ) (accepts : List ℕ → Bool) (c : DataChannel) (r : Reader) (rest : List ℕ)
      (start : ℕ)
      → 64 < limit
      → length rest < fuel
      → Linked c r.channel
      → HasRoom limit (length rest) r
      → Arrives max r rest start (write_loop fuel accepts limit c rest start)
  unfolding write_loop
  write_loop-Arrives zero accepts c r rest start a e v room = absurd (omega arith)
  write_loop-Arrives (suc fuel) accepts c r rest start a e v room =
      let wide : ltb limit 64 ≡ false = ground arith in
      let n = min (limit - 64) (length rest) in
      let s = seal_chunk (n + 1) c limit rest n in
      let nothing = λ (rounds : ℕ). received-none rounds max start r rest in
      elim (Bool-cases (length rest == 0)) [
        | inl b ↦ rw (b, write_loop) nothing
        | inr b ↦
            let sized = seal_chunk-IsChunk (n + 1) c limit rest n (ground arith) (omega arith) in
            let opened =
              seal_chunk-IsOpened (n + 1) c r.channel limit rest n max v (omega arith)
                (omega arith) in
            elim (Result-cases s.0) [
              | inr (x, f) ↦ rw (b, wide, f, write_loop) nothing
              | inl ((m, q, ct), f) ↦
                  let (some_sent, few, short) : (0 < m) × (m ≤ n) × (length ct ≤ limit) =
                    rw f at sized in
                  let v' : IsOpened r.channel s.1 max q (take m rest) ct = rw f at opened in
                  let w = write_loop fuel accepts limit s.1 (drop m rest) (start + m) in
                  let less = length-drop m rest in
                  rw (b, wide, f, write_loop)
                    (elim (Bool-cases (accepts (frame_of q ct))) [
                      | inr g ↦ rw g nothing
                      | inl g ↦ rw g (
                          frame-Arrives s.1 r rest start m q ct w (omega arith) (omega arith) short
                            (write_loop-IsComplete fuel accepts limit s.1 (drop m rest) (start + m)
                              a (omega arith)).from_start
                            room v'
                            (λ r'.
                              write_loop-Arrives fuel accepts s.1 r' (drop m rest) (start + m) a
                                (omega arith)))
                    ])
            ]
      ]

-- `readTransport` at the other end, having read the frames of one `Write`, waits for more, with the bytes that
-- `Write` counts behind what the buffer held, in order, and no others, also when `Write` fails part of the way.
-- The ends are linked; the buffer and the budget have room; the transport stays open and the connection's.
pub read_transport-write :
    (limit max : ℕ) (accepts : List ℕ → Bool) (connected timed_out : Bool) (c : DataChannel)
    (r : Reader) (p : List ℕ)
    → 64 < limit
    → limit ≤ max
    → max ≤ max_uint64
    → Linked c r.channel
    → HasRoom limit (length p) r
    → let w = write accepts limit connected timed_out c p in
      Receives r (take w.count p) (read_all (length w.frames + 1) max r (joined w.frames))
unfolding write
read_transport-write limit max accepts false timed_out c r p a b d v room =
    received-none 1 max 0 r p (omega arith)
read_transport-write limit max accepts true true c r p a b d v room =
    received-none 1 max 0 r p (omega arith)
read_transport-write limit max accepts true false c r p a b d v room =
    let w = write_loop (length p + 1) accepts limit c p 0 in
    subst (λ k. Receives r (take k p) (read_all (length w.frames + 1) max r (joined w.frames)))
      {x = w.count - 0} {y = w.count} (omega arith)
      (write_loop-Arrives limit max b d (length p + 1) accepts c r p 0 a (omega arith) v room
        (length w.frames + 1) (omega arith))
