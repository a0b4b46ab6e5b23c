-- ===== src/Peer/Callbacks/Order.antt =====
-- Every task that was accepted leaves the queue once, in order.
use telekit.Common.{
  ℕ, zero, suc, ◌+◌, ◌≤◌, ◌<◌, ◌≡◌, ◌⊎◌, inl, inr, refl, ap, sym, subst, ◌∙◌, Bool, true, false,
  not, ◌||◌, List, [], ◌∷◌, ◌++◌, ltb, length, arith, Bool-cases, length-append, append_assoc,
  append-nil,
}
use telekit.Peer.Callbacks.{
  Fate, started, cancelled, CallbackPool, new_callback_pool, submit, work, begin_close, drain, Step,
  submitted, worked, close_begun, drained, step, run, drain_all,
}

abbrev pub task_of : Fate → ℕ
task_of (started task) = task
task_of (cancelled task) = task

abbrev pub tasks : List Fate → List ℕ
tasks [] = []
tasks (f ∷ fs) = task_of f ∷ tasks fs

tasks-append : (fs : List Fate) (f : Fate) → tasks (fs ++ f ∷ []) ≡ tasks fs ++ task_of f ∷ []
tasks-append [] f = refl
tasks-append (g ∷ fs) f = ap (λ ts. task_of g ∷ ts) (tasks-append fs f)

-- What was accepted is what left the queue, then the queue, which is within its size, and empty once `Close`
-- is through.
pub record IsKept (p : CallbackPool) : Type 0 where
  pub in_order : p.accepted ≡ tasks p.fates ++ p.queue
  pub short : length p.queue ≤ p.queue_size
  pub shut : p.closed ≡ true → p.closing ≡ false → p.queue ≡ []
  pub begun : p.closing ≡ true → p.closed ≡ true

List-cases : (ts : List ℕ) → (ts ≡ []) ⊎ ((t : ℕ) × (rest : List ℕ) × (ts ≡ t ∷ rest))
List-cases [] = inl refl
List-cases (t ∷ rest) = inr (t, rest, refl)

module _ (p : CallbackPool) (v : IsKept p) where
  submit-IsKept : (task : ℕ) → IsKept (submit p task).0
  unfolding submit
  submit-IsKept task = elim (Bool-cases (p.closed || not (ltb (length p.queue) p.queue_size))) [
    | inl e ↦ rw (e, submit) v
    | inr e ↦
        rw (e, submit)
          (record {
            in_order =
                ap (λ ts. ts ++ task ∷ []) v.in_order
                ∙ append_assoc (tasks p.fates) p.queue (task ∷ []);
            short = ground (arith, length-append p.queue (task ∷ []));
            shut = λ f g. absurd (ground (arith, e, f));
            begun = v.begun;
          })
  ]

  -- The first task leaves the queue.
  left-IsKept :
      (t : ℕ) (rest : List ℕ) (f : Fate) (closing : Bool)
      → p.closing ≡ closing
      → p.queue ≡ t ∷ rest
      → task_of f ≡ t
      → IsKept (record p { queue = rest; closing = closing; fates = p.fates ++ f ∷ [] })
  left-IsKept t rest f closing c e g = record {
    in_order =
        v.in_order
        ∙ ap (λ ts. tasks p.fates ++ ts) (e ∙ ap (λ x. x ∷ rest) (sym g))
        ∙ sym (append_assoc (tasks p.fates) (task_of f ∷ []) rest)
        ∙ ap (λ ts. ts ++ rest) (sym (tasks-append p.fates f));
    short = omega (arith, v.short, ap length e);
    shut = λ h k. absurd (cc (e, v.shut h (c ∙ k)));
    begun = λ h. v.begun (c ∙ h);
  }

  work-IsKept : IsKept (work p)
  unfolding work
  work-IsKept = elim (List-cases p.queue) [
    | inl e ↦ simp (e, work) v
    | inr (t, rest, e) ↦ simp (e, work) (left-IsKept t rest (started t) p.closing refl e refl)
  ]

  begin_close-IsKept : IsKept (begin_close p)
  unfolding begin_close
  begin_close-IsKept = elim (Bool-cases p.closed) [
    | inl e ↦ simp (e, begin_close) v
    | inr e ↦
        simp (e, begin_close)
          (record { in_order = v.in_order; short = v.short; shut = λ f g. cc; begun = λ f. refl })
  ]

  drain-IsKept : IsKept (drain p)
  unfolding drain
  drain-IsKept = elim (Bool-cases p.closing) [
    | inr e ↦ simp (e, drain) v
    | inl e ↦ elim (List-cases p.queue) [
      | inl f ↦
          simp (e, f, drain)
            (record {
              in_order = v.in_order ∙ ap (λ ts. tasks p.fates ++ ts) f;
              short = omega arith;
              shut = λ g h. refl;
              begun = λ g. cc;
            })
      | inr (t, rest, f) ↦ simp (e, f, drain) (left-IsKept t rest (cancelled t) true e f refl)
    ]
  ]

  step-IsKept : (x : Step) → IsKept (step p x)
  unfolding step
  step-IsKept (submitted task) = submit-IsKept task
  step-IsKept worked = work-IsKept
  step-IsKept close_begun = begin_close-IsKept
  step-IsKept drained = drain-IsKept

steps-IsKept : (xs : List Step) (p : CallbackPool) → IsKept p → IsKept (run p xs)
unfolding run
steps-IsKept [] p v = v
steps-IsKept (x ∷ xs) p v = steps-IsKept xs (step p x) (step-IsKept p v x)

new_callback_pool-IsKept : (queue_size : ℕ) → IsKept (new_callback_pool queue_size)
unfolding new_callback_pool
new_callback_pool-IsKept queue_size = record {
  in_order = refl;
  short = omega arith;
  shut = λ e f. refl;
  begun = λ e. cc;
}

drain_all-IsKept : (fuel : ℕ) (p : CallbackPool) → IsKept p → IsKept (drain_all fuel p)
unfolding drain_all
drain_all-IsKept zero p v = v
drain_all-IsKept (suc fuel) p v = drain_all-IsKept fuel (drain p) (drain-IsKept p v)

drain-idle : (p : CallbackPool) → p.closing ≡ false → drain p ≡ p
unfolding drain
drain-idle p e = ground arith

drain-empty :
    (p : CallbackPool)
    → p.closing ≡ true
    → p.queue ≡ []
    → ((drain p).closed ≡ p.closed) × ((drain p).closing ≡ false)
unfolding drain
drain-empty p e f = rw (e, f, drain) (refl, refl)

drain-task :
    (p : CallbackPool) (t : ℕ) (rest : List ℕ)
    → p.closing ≡ true
    → p.queue ≡ t ∷ rest
    → ((drain p).closed ≡ p.closed) × ((drain p).queue ≡ rest)
unfolding drain
drain-task p t rest e f = rw (e, f, drain) (refl, refl)

drain_all-idle : (fuel : ℕ) (p : CallbackPool) → p.closing ≡ false → drain_all fuel p ≡ p
unfolding drain_all
drain_all-idle zero p e = refl
drain_all-idle (suc fuel) p e = ap (drain_all fuel) (drain-idle p e) ∙ drain_all-idle fuel p e

-- Rounds enough for the queue finish the loop.
drain_all-ends :
    (fuel : ℕ) (p : CallbackPool)
    → p.closed ≡ true
    → length p.queue < fuel
    → ((drain_all fuel p).closed ≡ true) × ((drain_all fuel p).closing ≡ false)
unfolding drain_all
drain_all-ends zero p c l = absurd (omega arith)
drain_all-ends (suc fuel) p c l = elim (Bool-cases p.closing) [
  | inr e ↦ subst Ended (sym (drain_all-idle (suc fuel) p e)) (c, e)
  | inl e ↦ elim (List-cases p.queue) [
    | inl f ↦
        let (a, b) = drain-empty p e f in
        subst Ended (sym (drain_all-idle fuel (drain p) b)) (a ∙ c, b)
    | inr (t, rest, f) ↦
        let (a, b) = drain-task p t rest e f in
        drain_all-ends fuel (drain p) (a ∙ c) (omega (arith, ap length b, ap length f))
  ]
]
  where
    Ended : CallbackPool → Type 0
    Ended q = (q.closed ≡ true) × (q.closing ≡ false)

-- The pool is closed: nothing waits, every task that was ever accepted was started or cancelled, once and in
-- order, and no more tasks are accepted.
pub record IsFinished (p : CallbackPool) : Type 0 where
  pub none_waits : p.queue ≡ []
  pub all_taken : p.accepted ≡ tasks p.fates
  pub refuses : (task : ℕ) → submit p task ≡ (p, false)

begin_close-closed :
    (p : CallbackPool) → ((begin_close p).closed ≡ true) × ((begin_close p).queue ≡ p.queue)
unfolding begin_close
begin_close-closed p = elim (Bool-cases p.closed) [
  | inl e ↦ (ground arith, ground arith)
  | inr e ↦ (ground arith, ground arith)
]

submit-closed : (p : CallbackPool) (task : ℕ) → p.closed ≡ true → submit p task ≡ (p, false)
unfolding submit
submit-closed p task e = ground arith

-- `Close` after any steps of callers and workers ends within a round for each task that waits and one more:
-- nothing waits then, every task that was ever accepted was started or cancelled, once and in the order in
-- which it was accepted, and no more tasks are accepted.
pub drain_all-IsFinished :
    (queue_size : ℕ) (xs : List Step)
    → let p = run (new_callback_pool queue_size) xs in
      IsFinished (drain_all (length p.queue + 1) (begin_close p))
drain_all-IsFinished queue_size xs =
    let p = run (new_callback_pool queue_size) xs in
    let v = steps-IsKept xs (new_callback_pool queue_size) (new_callback_pool-IsKept queue_size) in
    let q = drain_all (length p.queue + 1) (begin_close p) in
    let w = drain_all-IsKept (length p.queue + 1) (begin_close p) (begin_close-IsKept p v) in
    let (begun, same) = begin_close-closed p in
    let (a, b) =
      drain_all-ends (length p.queue + 1) (begin_close p) begun (omega (arith, ap length same)) in
    let none_left = w.shut a b in
    record {
      none_waits = none_left;
      all_taken =
          w.in_order ∙ ap (λ ts. tasks q.fates ++ ts) none_left ∙ append-nil (tasks q.fates);
      refuses = λ task. submit-closed q task a;
    }
