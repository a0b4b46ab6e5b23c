-- ===== src/Peer/Server/Transfer/Arrivals.antt =====
-- One frame that arrives in full, with room for its bytes.
use telekit.Common.{
  ℕ, suc, ◌+◌, ◌-◌, ◌≤◌, ◌<◌, ◌≡◌, refl, ap, ◌∙◌, Bool, true, false, Option, none, some, List, ◌++◌,
  ◌==◌, ltb, length, take, drop, arith, take-append, take-front, drop-front, drop-add, drop-append,
  length-append, append_assoc, inl, inr, Bool-cases,
}
use telekit.Common.Bytes.{big_endian, length-big_endian, number, number-big_endian}
use telekit.Common.Results.{ok}
use telekit.Encryption.{max_uint64}
use telekit.Peer.Buffer
use telekit.Peer.Buffer.{ByteBudget, RecvBuffer, written, reserve, release, store}
use telekit.Peer.DataChannel.{DataChannel, open_frame}
use telekit.Peer.Server.Write.{frame_of}
use telekit.Peer.Server.Read.{Reader, Outcome, go_on, put_in, handle, take_frame, read_frames}

-- A frame in front of other bytes, in its parts.
module _ (q : ℕ) (ct tail : List ℕ) where
  abbrev arriving : List ℕ
  arriving = frame_of q ct ++ tail

  arriving-eq : arriving ≡ big_endian 8 (length ct) ++ (big_endian 8 q ++ (ct ++ tail))
  unfolding frame_of
  arriving-eq =
      append_assoc (big_endian 8 (length ct)) (big_endian 8 q ++ ct) tail
      ∙ ap (λ xs. big_endian 8 (length ct) ++ xs) (append_assoc (big_endian 8 q) ct tail)

  arriving-size : take 8 arriving ≡ big_endian 8 (length ct)
  arriving-size = ap (take 8) arriving-eq ∙ take-front 8 _ _ (length-big_endian 8 (length ct))

  behind_size : drop 8 arriving ≡ big_endian 8 q ++ (ct ++ tail)
  behind_size = ap (drop 8) arriving-eq ∙ drop-front 8 _ _ (length-big_endian 8 (length ct))

  arriving-sequence : take 8 (drop 8 arriving) ≡ big_endian 8 q
  arriving-sequence = ap (take 8) behind_size ∙ take-front 8 _ _ (length-big_endian 8 q)

  behind_sequence : drop 16 arriving ≡ ct ++ tail
  behind_sequence =
      drop-add 8 8 arriving ∙ ap (drop 8) behind_size ∙ drop-front 8 _ _ (length-big_endian 8 q)

  arriving-body : take (length ct) (drop 16 arriving) ≡ ct
  arriving-body = ap (take (length ct)) behind_sequence ∙ take-append ct tail

  arriving-tail : drop (16 + length ct) arriving ≡ tail
  arriving-tail =
      drop-add 16 (length ct) arriving ∙ ap (drop (length ct)) behind_sequence ∙ drop-append ct tail

  length-arriving : length arriving ≡ 16 + length ct + length tail
  length-arriving =
      ap length arriving-eq
      ∙ omega (
        arith,
        length-append (big_endian 8 (length ct)) (big_endian 8 q ++ (ct ++ tail)),
        length-append (big_endian 8 q) (ct ++ tail),
        length-append ct tail,
        length-big_endian 8 (length ct),
        length-big_endian 8 q,
      )

-- A budget that takes `n` bytes more.
abbrev pub Takes : Option ByteBudget → ℕ → Type 0
Takes none n = Unit
Takes (some b) n = b.used + n ≤ b.limit

Takes-le : (b : Option ByteBudget) (n m : ℕ) → m ≤ n → Takes b n → Takes b m
Takes-le none n m h t = tt
Takes-le (some b) n m h t = omega arith

-- `n` bytes are reserved and given back, and the budget is what it was.
reserve-release :
    (b : Option ByteBudget) (n : ℕ)
    → Takes b n
    → (b' : Option ByteBudget) × (reserve b n ≡ (b', true)) × (release b' n ≡ some b)
unfolding reserve release
reserve-release none n t = (none, refl, refl)
reserve-release (some b) n t = elim (Bool-cases (n == 0)) [
  | inl e ↦ (some b, ground arith, ground arith)
  | inr e ↦ (
    some (record b { used = b.used + n }),
    ground arith,
    ground (
      arith,
      ap (λ u. some (some (record b { used = u }))) {x = b.used + n - n} {y = b.used} (omega arith),
    ),
  )
]

reserve-Takes :
    (b : Option ByteBudget) (n k : ℕ)
    → Takes b (n + k)
    → (b' : Option ByteBudget) × (reserve b n ≡ (b', true)) × Takes b' k
unfolding reserve
reserve-Takes none n k t = (none, refl, tt)
reserve-Takes (some b) n k t = ((reserve (some b) n).0, ground arith, ground arith)

-- Room for `n` bytes, while frames of up to `limit` bytes pass.
pub record HasRoom (limit n : ℕ) (r : Reader) : Type 0 where
  pub open_still : r.buffer.closed ≡ false
  pub room : length r.buffer.buf + n ≤ r.buffer.limit
  pub budget_room : Takes r.budget (n + limit)

pub HasRoom-le : (limit n m : ℕ) (r : Reader) → m ≤ n → HasRoom limit n r → HasRoom limit m r
HasRoom-le limit n m r h v = record {
  open_still = v.open_still;
  room = omega (arith, v.room);
  budget_room = Takes-le r.budget (n + limit) (m + limit) (omega arith) v.budget_room;
}

write-stored :
    (rb : RecvBuffer) (b : Option ByteBudget) (raw : List ℕ) {b' : Option ByteBudget}
    → rb.closed ≡ false
    → length rb.buf + length raw ≤ rb.limit
    → reserve b (length raw) ≡ (b', true)
    → Buffer.write rb b raw ≡ (written, record rb { buf = rb.buf ++ raw }, b')
unfolding Buffer.write store
write-stored rb b raw o l e = ground (arith, o, e)

put_in-room :
    (limit n : ℕ) (r : Reader) (raw : List ℕ)
    → HasRoom limit (length raw + n) r
    → (r' : Reader) × (put_in r raw ≡ go_on r')
      × HasRoom limit n r'
      × (r'.buffer.buf ≡ r.buffer.buf ++ raw)
      × (r'.channel ≡ r.channel)
unfolding put_in
put_in-room limit n r raw v =
    let (b, granted, more) = reserve-Takes r.budget (length raw) (n + limit) (
      Takes-le r.budget (length raw + n + limit) (length raw + (n + limit)) (omega arith)
        v.budget_room) in
    (
      record r { buffer = record r.buffer { buf = r.buffer.buf ++ raw }; budget = b },
      ap stored (write-stored r.buffer r.budget raw v.open_still (omega (arith, v.room)) granted),
      record {
        open_still = v.open_still;
        room = omega (arith, length-append r.buffer.buf raw, v.room);
        budget_room = more;
      },
      refl,
      refl,
    )
  where
    stored : Buffer.WriteResult × RecvBuffer × Option ByteBudget → Outcome
    stored (result, rb, b) =
        let r' : Reader = record r { buffer = rb; budget = b } in
        elim result [ written ↦ go_on r' | _ ↦ Outcome.stopped r' ]

-- A frame that the channel opens leaves its bytes at the end of the buffer.
pub take_frame-room :
    (limit n max q : ℕ) (r : Reader) (ct raw : List ℕ) (s : DataChannel)
    → HasRoom limit (length raw + n) r
    → length ct ≤ limit
    → length raw ≤ max
    → open_frame r.channel q ct max ≡ (ok (1, raw), s)
    → (r' : Reader) × (take_frame max true r q ct ≡ go_on r')
      × HasRoom limit n r'
      × (r'.buffer.buf ≡ r.buffer.buf ++ raw)
      × (r'.channel ≡ s)
unfolding take_frame handle
take_frame-room limit n max q r ct raw s v small l e =
    let (b, granted, released) =
      reserve-release r.budget (length ct)
        (Takes-le r.budget (length raw + n + limit) (length ct) (omega arith) v.budget_room) in
    let (r', put, more, whole, same) =
      put_in-room limit n (record r { channel = s }) raw
        (record { open_still = v.open_still; room = v.room; budget_room = v.budget_room }) in
    let fits : ltb max (length raw) ≡ false = ground arith in
    (
      r',
      rw (granted, granted, released, e, fits, e, put, take_frame, handle) refl,
      more,
      whole,
      same,
    )

-- The loop of `readTransport` on a frame that it takes.
pub read_frames-frame :
    (fuel : ℕ) (live : Bool) (max q : ℕ) (r : Reader) (ct tail : List ℕ) {r' : Reader}
    → 0 < length ct
    → length ct ≤ max
    → max ≤ max_uint64
    → q ≤ max_uint64
    → take_frame max true r q ct ≡ go_on r'
    → read_frames (suc fuel) live (λ n. true) (λ n. true) max r (frame_of q ct ++ tail)
      ≡ read_frames fuel live (λ n. true) (λ n. true) max r' tail
unfolding read_frames
read_frames-frame fuel live max q r ct tail p l m k e =
    let bytes = frame_of q ct ++ tail in
    let size : number 0 (take 8 bytes) ≡ length ct =
      ap (number 0) (arriving-size q ct tail) ∙ number-big_endian 8 (length ct) (omega arith) in
    let sequence : number 0 (take 8 (drop 8 bytes)) ≡ q =
      ap (number 0) (arriving-sequence q ct tail) ∙ number-big_endian 8 q (omega arith) in
    let long = length-arriving q ct tail in
    let a : ltb (length bytes) 8 ≡ false = ground arith in
    let b : ltb (length bytes) 16 ≡ false = ground arith in
    let c : ltb (length bytes) (16 + length ct) ≡ false = ground arith in
    let d : (length ct == 0) ≡ false = ground arith in
    let f : ltb max (length ct) ≡ false = ground arith in
    rw
      (
        a,
        size,
        d,
        f,
        b,
        size,
        c,
        sequence,
        size,
        arriving-body q ct tail,
        e,
        size,
        arriving-tail q ct tail,
        read_frames,
      )
      refl
