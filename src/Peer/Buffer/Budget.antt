-- ===== src/Peer/Buffer/Budget.antt =====
-- `ByteBudget`: a reservation and its release, and what an operation of a buffer does to its budget.
use telekit.Common.{
  ℕ, ◌+◌, ◌-◌, ◌≤◌, min, ◌≡◌, refl, Bool, true, false, Option, none, some, List, [], ◌==◌, ltb,
  if◌then◌else◌, length, arith, length-append, length-drop, Bool-cases, inl, inr, take, drop,
  drop-all,
}
use native.Mathlib.Nat.{sub_self}
use telekit.Peer.Buffer.{
  ByteBudget, RecvBuffer, reserve, release, write, ReadResult, got, read, read_empty, store, reset,
  close,
}

-- The budget counts `n` bytes and what others hold.
abbrev pub Counts : Option ByteBudget → ℕ → ℕ → Type 0
Counts none n others = Unit
Counts (some b) n others = (b.used ≡ n + others) × (b.used ≤ b.limit)

pub Counts-cast :
    (b : Option ByteBudget) (n others m rest : ℕ)
    → n + others ≡ m + rest
    → Counts b n others
    → Counts b m rest
Counts-cast none n others m rest e c = tt
Counts-cast (some b) n others m rest e c = omega arith

pub release_lem :
    (b : Option ByteBudget) (n others k : ℕ)
    → k ≤ n
    → Counts b n others
    → (b' : Option ByteBudget) × (release b k ≡ some b') × Counts b' (n - k) others
unfolding release
release_lem none n others k h c = (none, refl, tt)
release_lem (some b) n others k h c =
    (some (record b { used = b.used - k }), ground arith, ground arith)

pub reserve_lem :
    (b : Option ByteBudget) (n others k : ℕ)
    → Counts b n others
    → let (b', granted) = reserve b k in Counts b' (if granted then n + k else n) others
unfolding reserve
reserve_lem none n others k c = tt
reserve_lem (some b) n others k c = ground arith

drop-nil : (n : ℕ) → drop {A = ℕ} n [] ≡ []
drop-nil n = drop-all n [] (omega arith)

-- The buffer is within its own limit, empty once closed, and the budget counts its bytes.
pub record IsBacked (rb : RecvBuffer) (b : Option ByteBudget) (others : ℕ) : Type 0 where
  pub within : length rb.buf ≤ rb.limit
  pub emptied : rb.closed ≡ true → rb.buf ≡ []
  pub counts : Counts b (length rb.buf) others

-- `Write` keeps the buffer within its limit and the budget in step with it, on every branch.
pub write-IsBacked :
    (rb : RecvBuffer) (b : Option ByteBudget) (others : ℕ) (bytes : List ℕ)
    → IsBacked rb b others
    → let (r, rb', b') = write rb b bytes in IsBacked rb' b' others
unfolding write store
write-IsBacked rb b others bytes v = elim (Bool-cases rb.closed) [
  | inl c ↦ simp c v
  | inr c ↦ simp c (elim (Bool-cases (ltb (rb.limit - length rb.buf) (length bytes))) [
    | inl f ↦ rw f v
    | inr f ↦ rw f (
        granted (reserve b (length bytes)) c (ground arith)
          (reserve_lem b (length rb.buf) others (length bytes) v.counts))
  ])
]
  where
    granted :
        (o : Option ByteBudget × Bool)
        → rb.closed ≡ false
        → length rb.buf + length bytes ≤ rb.limit
        → Counts o.0 (if o.1 then length rb.buf + length bytes else length rb.buf) others
        → let (r, rb', b') = store rb bytes o in IsBacked rb' b' others
    granted (b', true) still room c = record {
      within = omega (arith, length-append rb.buf bytes);
      emptied = λ k. cc;
      counts = rw (length-append rb.buf bytes) c;
    }
    granted (b', false) still room c = record { within = v.within; emptied = v.emptied; counts = c }

-- `Read` never makes the budget panic, and keeps it in step.
pub read-IsBacked :
    (rb : RecvBuffer) (b : Option ByteBudget) (others size now : ℕ)
    → IsBacked rb b others
    → (r : ReadResult) × (rb' : RecvBuffer) × (b' : Option ByteBudget) × (read rb b size now
        ≡ some (r, rb', b'))
      × IsBacked rb' b' others
unfolding read
read-IsBacked rb b others size now v = elim (Bool-cases (length rb.buf == 0)) [
  | inl e ↦ (read_empty rb now, rb, b, rw e, v)
  | inr e ↦
      let n = min size (length rb.buf) in
      let (b', released, c) = release_lem b (length rb.buf) others n (omega arith) v.counts in
      (
        got (take n rb.buf),
        record rb { buf = drop n rb.buf },
        b',
        ground arith,
        record {
          within = omega (arith, length-drop n rb.buf, v.within);
          emptied = λ k. rw (v.emptied k) (drop-nil _);
          counts = rw (length-drop n rb.buf) c;
        },
      )
]

pub reset-IsBacked :
    (rb : RecvBuffer) (b : Option ByteBudget) (others : ℕ)
    → IsBacked rb b others
    → (rb' : RecvBuffer) × (b' : Option ByteBudget) × (reset rb b ≡ some (rb', b'))
      × IsBacked rb' b' others
      × (rb'.buf ≡ [])
unfolding reset
reset-IsBacked rb b others v = elim (Bool-cases rb.closed) [
  | inl e ↦ (rb, b, rw e, v, v.emptied e)
  | inr e ↦
      let (b', released, c) =
        release_lem b (length rb.buf) others (length rb.buf) (omega arith) v.counts in
      (
        record rb { buf = [] },
        b',
        ground arith,
        record {
          within = omega arith;
          emptied = λ k. refl;
          counts = rw (sub_self (length rb.buf)) at c;
        },
        refl,
      )
]

-- `Close` gives the budget back what the buffer held, never panics, and leaves it closed and empty.
pub close-IsBacked :
    (rb : RecvBuffer) (b : Option ByteBudget) (others : ℕ)
    → IsBacked rb b others
    → (rb' : RecvBuffer) × (b' : Option ByteBudget) × (close rb b ≡ some (rb', b'))
      × IsBacked rb' b' others
      × (rb'.buf ≡ [])
      × (rb'.closed ≡ true)
unfolding close
close-IsBacked rb b others v = elim (Bool-cases rb.closed) [
  | inl e ↦ (rb, b, rw e, v, v.emptied e, e)
  | inr e ↦
      let (b', released, c) =
        release_lem b (length rb.buf) others (length rb.buf) (omega arith) v.counts in
      (
        record rb { closed = true; buf = [] },
        b',
        ground arith,
        record {
          within = omega arith;
          emptied = λ k. refl;
          counts = rw (sub_self (length rb.buf)) at c;
        },
        refl,
        refl,
      )
]
