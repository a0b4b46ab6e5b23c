-- ===== src/Peer/Buffer/Stream.antt =====
-- One receive buffer as a stream of bytes.
use telekit.Common.{
  ℕ, ◌-◌, min, ◌≡◌, ◌∙◌, refl, ap, sym, Bool, true, false, Option, none, some, List, [], ◌∷◌, ◌++◌,
  ltb, length, arith, append_assoc, append-nil, take-append-drop, Bool-cases, inl, inr,
}
use telekit.Peer.Buffer.{
  store, ByteBudget, RecvBuffer, reserve, WriteResult, written, write, ReadResult, got, read,
}
use telekit.Peer.Buffer.Budget.{IsBacked, write-IsBacked, read-IsBacked}

pub data Op : Type 0 where
  put : List ℕ → Op
  get : ℕ → ℕ → Op

-- What the calls have taken in and handed out so far.
pub record Traffic : Type 0 where
  pub buffer : RecvBuffer
  pub budget : Option ByteBudget
  pub taken_in : List ℕ
  pub handed_out : List ℕ

abbrev pub bytes_of : ReadResult → List ℕ
bytes_of (got bs) = bs
bytes_of _ = []

abbrev pub accepted : WriteResult → List ℕ → List ℕ
accepted written bs = bs
accepted _ bs = []

pub step : Traffic → Op → Option Traffic
step t (put bs) =
    let (r, rb, b) = write t.buffer t.budget bs in
    some (record t { buffer = rb; budget = b; taken_in = t.taken_in ++ accepted r bs })
step t (get size now) = elim (read t.buffer t.budget size now) [
  | none ↦ none
  | some (r, rb, b) ↦
      some (record t { buffer = rb; budget = b; handed_out = t.handed_out ++ bytes_of r })
]

-- The bytes taken in are those handed out, then those in the buffer.
abbrev pub Flows : Traffic → Type 0
Flows t = t.taken_in ≡ t.handed_out ++ t.buffer.buf

write-taken :
    (rb : RecvBuffer) (b : Option ByteBudget) (bytes : List ℕ)
    → let (r, rb', b') = write rb b bytes in rb'.buf ≡ rb.buf ++ accepted r bytes
unfolding write store
write-taken rb b bytes = elim (Bool-cases rb.closed) [
  | inl c ↦ simp c (sym (append-nil rb.buf))
  | inr c ↦ simp c (elim (Bool-cases (ltb (rb.limit - length rb.buf) (length bytes))) [
    | inl f ↦ rw f (sym (append-nil rb.buf))
    | inr f ↦ rw f (stored (reserve b (length bytes)))
  ])
]
  where
    stored :
        (o : Option ByteBudget × Bool)
        → let (r, rb', b') = store rb bytes o in rb'.buf ≡ rb.buf ++ accepted r bytes
    stored (b', true) = refl
    stored (b', false) = sym (append-nil rb.buf)

read-handed :
    (rb : RecvBuffer) (b : Option ByteBudget) (size now : ℕ) {r : ReadResult} {rb' : RecvBuffer}
    {b' : Option ByteBudget}
    → read rb b size now ≡ some (r, rb', b')
    → rb.buf ≡ bytes_of r ++ rb'.buf
unfolding read
read-handed rb b size now e = ground (arith, take-append-drop (min size (length rb.buf)) rb.buf)

pub run : Traffic → List Op → Option Traffic
run t [] = some t
run t (op ∷ ops) = elim (step t op) [ none ↦ none | some u ↦ run u ops ]

module _ (others : ℕ) where
  abbrev Ready : Traffic → Type 0
  Ready t = IsBacked t.buffer t.budget others × Flows t

  step-Ready : (t : Traffic) (op : Op) → Ready t → (u : Traffic) × (step t op ≡ some u) × Ready u
  unfolding step
  step-Ready t (put bytes) (v, f) =
      let (r, rb, b) = write t.buffer t.budget bytes in
      (
        record t { buffer = rb; budget = b; taken_in = t.taken_in ++ accepted r bytes },
        refl,
        (
          write-IsBacked t.buffer t.budget others bytes v,
          ap (λ xs. xs ++ accepted r bytes) f
              ∙ append_assoc t.handed_out t.buffer.buf (accepted r bytes)
              ∙ ap (λ xs. t.handed_out ++ xs) (sym (write-taken t.buffer t.budget bytes)),
        ),
      )
  step-Ready t (get size now) (v, f) =
      let (r, rb, b, e, k) = read-IsBacked t.buffer t.budget others size now v in
      (
        record t { buffer = rb; budget = b; handed_out = t.handed_out ++ bytes_of r },
        rw (e, step),
        (
          k,
          f
              ∙ ap (λ xs. t.handed_out ++ xs) (read-handed t.buffer t.budget size now e)
              ∙ sym (append_assoc t.handed_out (bytes_of r) rb.buf),
        ),
      )

  -- Through any calls of `Write` and `Read` the reader gets the accepted bytes in order, each once:
  -- what was taken in is what was handed out followed by what is in the buffer. No call panics.
  pub run-Flows :
      (ops : List Op) (t : Traffic)
      → IsBacked t.buffer t.budget others
      → t.taken_in ≡ t.handed_out ++ t.buffer.buf
      → (u : Traffic) × (run t ops ≡ some u) × (u.taken_in ≡ u.handed_out ++ u.buffer.buf)
  unfolding run
  run-Flows [] t v f = (t, refl, f)
  run-Flows (op ∷ ops) t v f =
      let (u, e, k) = step-Ready t op (v, f) in
      let (w, g, h) = run-Flows ops u k.0 k.1 in (w, rw (e, run) g, h)
