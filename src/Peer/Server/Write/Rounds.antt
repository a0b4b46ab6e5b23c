-- ===== src/Peer/Server/Write/Rounds.antt =====
-- The loops of `Write` end, and what they count.
use telekit.Common.{
  ℕ, zero, suc, ◌+◌, ◌-◌, ◌/◌, ◌≤◌, ◌<◌, min, ◌≡◌, refl, Bool, true, false, none, some, List, ◌++◌,
  ◌==◌, ltb, leb, length, take, drop, arith, All, length-append, length-drop, Bool-cases, inl, inr,
}
use telekit.Common.Bytes.{big_endian, length-big_endian}
use telekit.Common.Results.{Result, ok, error, Result-cases}
use telekit.Peer.DataChannel.{DataChannel, seal}
use telekit.Peer.Server.Write.{
  WriteError, transport_failed, out_of_rounds, slice_out_of_range, not_connected, deadline_exceeded,
  frame_of, seal_chunk, Written, failed, with_frame, write_loop, write,
}

-- An error that is not the end of the fuel, nor a slice out of range.
abbrev pub is_real : WriteError → Bool
is_real out_of_rounds = false
is_real slice_out_of_range = false
is_real _ = true

-- A chunk of at most `n` bytes was sealed within the limit, or there is a real error.
abbrev pub IsChunk : ℕ → ℕ → Result WriteError (ℕ × ℕ × List ℕ) → Type 0
IsChunk limit n (error e) = is_real e ≡ true
IsChunk limit n (ok (m, sequence, ciphertext)) = (0 < m) × (m ≤ n) × (length ciphertext ≤ limit)

IsChunk-le :
    (limit n k : ℕ) (r : Result WriteError (ℕ × ℕ × List ℕ))
    → k ≤ n
    → IsChunk limit k r
    → IsChunk limit n r
IsChunk-le limit n k (error e) h v = v
IsChunk-le limit n k (ok r) h v = (v.0, omega arith, v.2)

pub seal_chunk-IsChunk :
    (fuel : ℕ) (c : DataChannel) (limit : ℕ) (rest : List ℕ) (n : ℕ)
    → 0 < n
    → n < fuel
    → IsChunk limit n (seal_chunk fuel c limit rest n).0
unfolding seal_chunk
seal_chunk-IsChunk zero c limit rest n p h = absurd (omega arith)
seal_chunk-IsChunk (suc fuel) c limit rest n p h = elim (Result-cases (seal c (take n rest)).0) [
  | inr (e, f) ↦ simp (f, seal_chunk) refl
  | inl (r, f) ↦
      simp (f, seal_chunk)
        (elim (Bool-cases (leb (length r.1) limit)) [
          | inl a ↦ rw a (p, omega arith, ground arith)
          | inr a ↦ simp a (elim (Bool-cases (leb n 1)) [
            | inl b ↦ rw b refl
            | inr b ↦ simp b (
                IsChunk-le limit n (n / 2)
                  (seal_chunk fuel (seal c (take n rest)).1 limit rest (n / 2)).0 (omega arith)
                  (seal_chunk-IsChunk fuel (seal c (take n rest)).1 limit rest (n / 2)
                    (ground arith) (ground arith)))
          ])
        ])
]

-- What `Write` of bytes behind `start` promises of its result.
pub record IsComplete (limit start : ℕ) (rest : List ℕ) (w : Written) : Type 0 where
  pub within : w.count ≤ start + length rest
  pub from_start : start ≤ w.count
  pub all_sent : w.failure ≡ none → w.count ≡ start + length rest
  pub real : (e : WriteError) → w.failure ≡ some e → is_real e ≡ true
  pub short : All (λ frame. length frame ≤ limit + 16) w.frames

length-frame_of : (q : ℕ) (ct : List ℕ) → length (frame_of q ct) ≡ length ct + 16
unfolding frame_of
length-frame_of q ct = omega (
  arith,
  length-append (big_endian 8 (length ct)) (big_endian 8 q ++ ct),
  length-append (big_endian 8 q) ct,
  length-big_endian 8 (length ct),
  length-big_endian 8 q,
)

failed-IsComplete :
    (limit start : ℕ) (rest : List ℕ) (e : WriteError) (c : DataChannel)
    → is_real e ≡ true
    → IsComplete limit start rest (failed start e c)
failed-IsComplete limit start rest e c r = record {
  within = omega arith;
  from_start = omega arith;
  all_sent = λ k. cc;
  real = λ e' k. cc;
  short = tt;
}

pub write_loop-IsComplete :
    (fuel : ℕ) (accepts : List ℕ → Bool) (limit : ℕ) (c : DataChannel) (rest : List ℕ) (start : ℕ)
    → 64 < limit
    → length rest < fuel
    → IsComplete limit start rest (write_loop fuel accepts limit c rest start)
unfolding write_loop
write_loop-IsComplete zero accepts limit c rest start l h = absurd (omega arith)
write_loop-IsComplete (suc fuel) accepts limit c rest start l h =
    elim (Bool-cases (length rest == 0)) [
      | inl a ↦
          rw (a, write_loop)
            (record {
              within = omega arith;
              from_start = omega arith;
              all_sent = λ k. ground arith;
              real = λ e k. cc;
              short = tt;
            })
      | inr a ↦
          let small : ltb limit 64 ≡ false = ground arith in
          let n = min (limit - 64) (length rest) in
          let s = seal_chunk (n + 1) c limit rest n in
          let v = seal_chunk-IsChunk (n + 1) c limit rest n (ground arith) (omega arith) in
          elim (Result-cases s.0) [
            | inr (e, f) ↦
                rw (a, small, f, write_loop) (failed-IsComplete limit start rest e s.1 (rw f at v))
            | inl ((m, q, ct), f) ↦
                let (some_sent, few, short) : (0 < m) × (m ≤ n) × (length ct ≤ limit) = rw f at v in
                rw (a, small, f, write_loop)
                  (elim (Bool-cases (accepts (frame_of q ct))) [
                    | inr b ↦ rw b (failed-IsComplete limit start rest transport_failed s.1 refl)
                    | inl b ↦ rw b (
                        sent m (frame_of q ct)
                          (write_loop fuel accepts limit s.1 (drop m rest) (start + m))
                          (omega arith) (omega (arith, length-frame_of q ct))
                          (write_loop-IsComplete fuel accepts limit s.1 (drop m rest) (start + m) l
                            (omega (arith, length-drop m rest))))
                  ])
          ]
    ]
  where
    sent :
        (m : ℕ) (frame : List ℕ) (w : Written)
        → m ≤ length rest
        → length frame ≤ limit + 16
        → IsComplete limit (start + m) (drop m rest) w
        → IsComplete limit start rest (with_frame frame w)
    sent m frame w k short v = record {
      within = omega (arith, v.within, length-drop m rest);
      from_start = omega (arith, v.from_start);
      all_sent = λ e. omega (arith, v.all_sent e, length-drop m rest);
      real = v.real;
      short = (short, v.short);
    }

-- `Write` on a limit above 64 bytes ends within the rounds that its input allows: it never runs out of them
-- and never slices out of range. It counts at most the bytes it was given, all of them when it reports no
-- error, and no frame is longer than the limit and the 16 bytes in front.
pub write-IsComplete :
    (accepts : List ℕ → Bool) (limit : ℕ) (connected timed_out : Bool) (c : DataChannel)
    (p : List ℕ)
    → 64 < limit
    → IsComplete limit 0 p (write accepts limit connected timed_out c p)
unfolding write
write-IsComplete accepts limit false timed_out c p l =
    failed-IsComplete limit 0 p not_connected c refl
write-IsComplete accepts limit true true c p l =
    failed-IsComplete limit 0 p deadline_exceeded c refl
write-IsComplete accepts limit true false c p l =
    write_loop-IsComplete (length p + 1) accepts limit c p 0 l (omega arith)
