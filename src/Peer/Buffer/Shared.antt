-- ===== src/Peer/Buffer/Shared.antt =====
-- Many receive buffers and frame reservations under one budget, in any interleaving of calls.
use telekit.Common.{
  ℕ, zero, suc, ◌+◌, ◌-◌, ◌≤◌, ◌≡◌, refl, Bool, true, false, Option, none, some, List, [], ◌∷◌,
  if◌then◌else◌, length, get_elem?, set, All, arith, subst, Option-cases, inl, inr,
}
use telekit.Peer.Buffer.{ByteBudget, RecvBuffer, reserve, release, new, write, read, reset, close}
use telekit.Peer.Buffer.Budget.{
  Counts, Counts-cast, release_lem, reserve_lem, IsBacked, write-IsBacked, read-IsBacked,
  reset-IsBacked, close-IsBacked,
}

-- `held` are the frames that `readTransport` has reserved and not yet released.
pub record Pool : Type 0 where
  pub budget : Option ByteBudget
  pub buffers : List RecvBuffer
  pub held : List ℕ

-- A call on buffer `i`, a new buffer, or a frame that a reading loop reserves, or one of those that are held, by
-- its place, that it releases.
pub data Op : Type 0 where
  connect : ℕ → Op
  put : ℕ → List ℕ → Op
  get : ℕ → ℕ → ℕ → Op
  discard : ℕ → Op
  shut : ℕ → Op
  hold : ℕ → Op
  unhold : ℕ → Op

-- The pool with buffer `i` and the budget replaced.
abbrev pub replace : Pool → ℕ → RecvBuffer → Option ByteBudget → Pool
replace p i rb b = record p { budget = b; buffers = set p.buffers i rb }

-- One call on a buffer.
pub call : Pool → ℕ → RecvBuffer → Op → Option Pool
call p i rb (put _ bytes) = let (r, rb', b) = write rb p.budget bytes in some (replace p i rb' b)
call p i rb (get _ size now) = elim (read rb p.budget size now) [
  | none ↦ none
  | some (r, rb', b) ↦ some (replace p i rb' b)
]
call p i rb (discard _) = elim (reset rb p.budget) [
  | none ↦ none
  | some (rb', b) ↦ some (replace p i rb' b)
]
call p i rb (shut _) = elim (close rb p.budget) [
  | none ↦ none
  | some (rb', b) ↦ some (replace p i rb' b)
]
call p i rb _ = some p

abbrev pub on_buffer : Pool → ℕ → Op → Option Pool
on_buffer p i op = elim (get_elem? p.buffers i) [ none ↦ some p | some rb ↦ call p i rb op ]

abbrev pub without : List ℕ → ℕ → List ℕ
without [] i = []
without (n ∷ ns) zero = ns
without (n ∷ ns) (suc i) = n ∷ without ns i

abbrev pub unhold_frame : Pool → ℕ → Option Pool
unhold_frame p i = elim (get_elem? p.held i) [
  | none ↦ some p
  | some n ↦ elim (release p.budget n) [
    | none ↦ none
    | some b ↦ some (record p { budget = b; held = without p.held i })
  ]
]

abbrev pub held_if : List ℕ → ℕ → Option ByteBudget × Bool → Pool → Pool
held_if held n (b, granted) p = record p { budget = b; held = if granted then n ∷ held else held }

-- `none` is a panic.
pub step : Pool → Op → Option Pool
unfolding call
step p (connect limit) = some (record p { buffers = new limit ∷ p.buffers })
step p (put i bytes) = on_buffer p i (put i bytes)
step p (get i size now) = on_buffer p i (get i size now)
step p (discard i) = on_buffer p i (discard i)
step p (shut i) = on_buffer p i (shut i)
step p (hold n) = some (held_if p.held n (reserve p.budget n) p)
step p (unhold i) = unhold_frame p i

abbrev pub buffered : List RecvBuffer → ℕ
buffered [] = 0
buffered (rb ∷ rbs) = length rb.buf + buffered rbs

abbrev pub sum : List ℕ → ℕ
sum [] = 0
sum (n ∷ ns) = n + sum ns

abbrev pub IsBounded : RecvBuffer → Type 0
IsBounded rb = (length rb.buf ≤ rb.limit) × (rb.closed ≡ true → rb.buf ≡ [])

-- The budget counts every byte that is buffered or held for a frame, and no more than its limit.
pub record IsSound (p : Pool) : Type 0 where
  pub counts : Counts p.budget (buffered p.buffers) (sum p.held)
  pub bounded : All IsBounded p.buffers

buffered-set :
    (rbs : List RecvBuffer) (i : ℕ) {rb : RecvBuffer} (rb' : RecvBuffer)
    → get_elem? rbs i ≡ some rb
    → buffered (set rbs i rb') + length rb.buf ≡ buffered rbs + length rb'.buf
buffered-set [] i rb' h = cc
buffered-set (r ∷ rbs) zero rb' h = ground arith
buffered-set (r ∷ rbs) (suc i) rb' h = omega (arith, buffered-set rbs i rb' h)

All-set :
    (rbs : List RecvBuffer) (i : ℕ) (rb : RecvBuffer)
    → IsBounded rb
    → All IsBounded rbs
    → All IsBounded (set rbs i rb)
All-set [] i rb h a = tt
All-set (r ∷ rbs) zero rb h a = (h, a.1)
All-set (r ∷ rbs) (suc i) rb h a = (a.0, All-set rbs i rb h a.1)

All-get :
    (rbs : List RecvBuffer) (i : ℕ) {rb : RecvBuffer}
    → get_elem? rbs i ≡ some rb
    → All IsBounded rbs
    → IsBounded rb
All-get [] i h a = cc
All-get (r ∷ rbs) zero {rb} h a = subst IsBounded {x = r} {y = rb} (cc h) a.0
All-get (r ∷ rbs) (suc i) h a = All-get rbs i h a.1

length-le-buffered :
    (rbs : List RecvBuffer) (i : ℕ) {rb : RecvBuffer}
    → get_elem? rbs i ≡ some rb
    → length rb.buf ≤ buffered rbs
length-le-buffered [] i h = cc
length-le-buffered (r ∷ rbs) zero h = ground arith
length-le-buffered (r ∷ rbs) (suc i) h = omega (arith, length-le-buffered rbs i h)

-- What all buffers but one hold, with the frames.
module _ (p : Pool) (s : IsSound p) (i : ℕ) {rb : RecvBuffer}
    (found : get_elem? p.buffers i ≡ some rb) where
  others : ℕ
  others = buffered p.buffers - length rb.buf + sum p.held

  le-buffered : length rb.buf ≤ buffered p.buffers
  le-buffered = length-le-buffered p.buffers i found

  backed : IsBacked rb p.budget others
  unfolding others
  backed = record {
    within = (All-get p.buffers i found s.bounded).0;
    emptied = (All-get p.buffers i found s.bounded).1;
    counts = Counts-cast p.budget _ _ _ _ (omega (arith, le-buffered)) s.counts;
  }

  replace-IsSound :
      (rb' : RecvBuffer) (b : Option ByteBudget)
      → IsBacked rb' b others
      → IsSound (replace p i rb' b)
  unfolding others
  replace-IsSound rb' b k = record {
    counts =
        Counts-cast b _ _ _ _ (omega (arith, le-buffered, buffered-set p.buffers i rb' found))
          k.counts;
    bounded = All-set p.buffers i rb' (k.within, k.emptied) s.bounded;
  }

  -- Every call on a buffer returns, and leaves the pool sound.
  put-IsSound : (bytes : List ℕ) → (q : Pool) × (call p i rb (put i bytes) ≡ some q) × IsSound q
  unfolding call
  put-IsSound bytes =
      let (r, rb', b) = write rb p.budget bytes in
      (
        replace p i rb' b,
        refl,
        replace-IsSound rb' b (write-IsBacked rb p.budget others bytes backed),
      )

  get-IsSound : (size now : ℕ) → (q : Pool) × (call p i rb (get i size now) ≡ some q) × IsSound q
  unfolding call
  get-IsSound size now =
      let (r, rb', b, e, k) = read-IsBacked rb p.budget others size now backed in
      (replace p i rb' b, rw (e, call), replace-IsSound rb' b k)

  discard-IsSound : (q : Pool) × (call p i rb (discard i) ≡ some q) × IsSound q
  unfolding call
  discard-IsSound =
      let (rb', b, e, k, _) = reset-IsBacked rb p.budget others backed in
      (replace p i rb' b, rw (e, call), replace-IsSound rb' b k)

  shut-IsSound : (q : Pool) × (call p i rb (shut i) ≡ some q) × IsSound q
  unfolding call
  shut-IsSound =
      let (rb', b, e, k, _, _) = close-IsBacked rb p.budget others backed in
      (replace p i rb' b, rw (e, call), replace-IsSound rb' b k)

abbrev Sound : Option Pool → Type 0
Sound o = (q : Pool) × (o ≡ some q) × IsSound q

on_buffer-Sound :
    (p : Pool) (i : ℕ) (op : Op)
    → IsSound p
    → ((rb : RecvBuffer) → get_elem? p.buffers i ≡ some rb → Sound (call p i rb op))
    → Sound (on_buffer p i op)
on_buffer-Sound p i op s h = elim (Option-cases (get_elem? p.buffers i)) [
  | inl e ↦ (p, rw (e, on_buffer), s)
  | inr (rb, e) ↦ rw (e, on_buffer) (h rb e)
]

hold-IsSound : (p : Pool) (n : ℕ) → IsSound p → IsSound (held_if p.held n (reserve p.budget n) p)
hold-IsSound p n s =
    held_of (reserve p.budget n) (reserve_lem p.budget (buffered p.buffers) (sum p.held) n s.counts)
  where
    held_of :
        (o : Option ByteBudget × Bool)
        → Counts o.0 (if o.1 then buffered p.buffers + n else buffered p.buffers) (sum p.held)
        → IsSound (held_if p.held n o p)
    held_of (b, true) c = record {
      counts = Counts-cast b _ _ _ _ (omega arith) c;
      bounded = s.bounded;
    }
    held_of (b, false) c = record { counts = c; bounded = s.bounded }

sum-without :
    (ns : List ℕ) (i : ℕ) {n : ℕ} → get_elem? ns i ≡ some n → n + sum (without ns i) ≡ sum ns
sum-without [] i e = cc
sum-without (m ∷ ns) zero e = ground arith
sum-without (m ∷ ns) (suc i) e = omega (arith, sum-without ns i e)

-- Any frame that is held can be released, whichever was reserved last.
unhold-Sound : (p : Pool) (i : ℕ) → IsSound p → Sound (unhold_frame p i)
unhold-Sound p i s = elim (Option-cases (get_elem? p.held i)) [
  | inl e ↦ (p, rw (e, unhold_frame), s)
  | inr (n, e) ↦
      let rest = sum (without p.held i) in
      let (b, released, c) =
        release_lem p.budget (n + rest) (buffered p.buffers) n (omega arith)
          (Counts-cast p.budget _ _ _ _ (omega (arith, sum-without p.held i e)) s.counts) in
      (
        record p { budget = b; held = without p.held i },
        rw (e, released, unhold_frame),
        record { counts = Counts-cast b _ _ _ _ (omega arith) c; bounded = s.bounded },
      )
]

connect-IsSound :
    (p : Pool) (limit : ℕ) → IsSound p → IsSound (record p { buffers = new limit ∷ p.buffers })
unfolding new
connect-IsSound p limit s = record {
  counts = Counts-cast p.budget _ _ _ _ (omega arith) s.counts;
  bounded = ((omega arith, λ c. refl), s.bounded);
}

-- From a sound pool every call returns without a panic and leaves the pool sound: the budget counts
-- exactly the bytes buffered and held for frames, within its limit, and each buffer is within its own.
pub step-IsSound : (p : Pool) (op : Op) → IsSound p → (q : Pool) × (step p op ≡ some q) × IsSound q
unfolding step
step-IsSound p (connect limit) s = (_, refl, connect-IsSound p limit s)
step-IsSound p (put i bytes) s =
    on_buffer-Sound p i (put i bytes) s (λ rb e. put-IsSound p s i e bytes)
step-IsSound p (get i size now) s =
    on_buffer-Sound p i (get i size now) s (λ rb e. get-IsSound p s i e size now)
step-IsSound p (discard i) s = on_buffer-Sound p i (discard i) s (λ rb e. discard-IsSound p s i e)
step-IsSound p (shut i) s = on_buffer-Sound p i (shut i) s (λ rb e. shut-IsSound p s i e)
step-IsSound p (hold n) s = (_, refl, hold-IsSound p n s)
step-IsSound p (unhold i) s = unhold-Sound p i s

pub run : Pool → List Op → Option Pool
run p [] = some p
run p (op ∷ ops) = elim (step p op) [ none ↦ none | some q ↦ run q ops ]

-- No sequence of calls, in whatever order the connections make them, makes the budget panic, and
-- after it the budget counts exactly the bytes buffered and held for frames.
pub run-IsSound :
    (ops : List Op) (p : Pool) → IsSound p → (q : Pool) × (run p ops ≡ some q) × IsSound q
unfolding run
run-IsSound [] p s = (p, refl, s)
run-IsSound (op ∷ ops) p s =
    let (q, e, k) = step-IsSound p op s in
    let (r, f, l) = run-IsSound ops q k in (r, rw (e, run) f, l)
