-- ===== src/Signaling/Broker/Backlog.antt =====
-- The count of bytes and the order of the messages, in any order of steps.
use telekit.Common.{
  ℕ, zero, suc, ◌+◌, ◌-◌, ◌≤◌, ◌<◌, ◌≡◌, ◌⊎◌, refl, ap, sym, ◌∙◌, Bool, true, not, ◌&&◌, ◌||◌,
  Option, none, some, List, [], ◌∷◌, ◌++◌, ltb, length, arith, inl, inr, Bool-cases, Option-cases,
  length-append, append_assoc,
}
use telekit.Signaling.Broker.Queue.{
  OutboundMessage, BrokerClient, size, count_bytes, taken_out, offer, take_message, close_client,
  finish_write, stop, new_client, Step, count, enqueue, take, close, finish, halt, step, run,
}

abbrev pub total : List OutboundMessage → ℕ
total [] = 0
total (m ∷ ms) = size m + total ms

abbrev pub listed : Option OutboundMessage → List OutboundMessage
listed none = []
listed (some m) = m ∷ []

total-append : (xs ys : List OutboundMessage) → total (xs ++ ys) ≡ total xs + total ys
total-append [] ys = omega arith
total-append (x ∷ xs) ys = omega (arith, total-append xs ys)

total-taken_out :
    (i : ℕ) (ms rest : List OutboundMessage) (m : OutboundMessage)
    → taken_out i ms ≡ some (m, rest)
    → total ms ≡ size m + total rest
total-taken_out i [] rest m e = cc
total-taken_out zero (x ∷ ms) rest m e =
    let a : x ≡ m = cc in
    let b : ms ≡ rest = cc in ap (λ y. size y + total ms) a ∙ ap (λ ys. size m + total ys) b
total-taken_out (suc i) (x ∷ ms) rest m e = elim (Option-cases (taken_out i ms)) [
  | inl f ↦ absurd (cc (rw f at e))
  | inr ((y, less), f) ↦
      let g : ◌≡◌ {A = Option (OutboundMessage × List OutboundMessage)} (some (y, x ∷ less))
          (some (m, rest)) =
        rw f at e in
      let a : y ≡ m = cc in
      let b : x ∷ less ≡ rest = cc in
      omega (arith, total-taken_out i ms less y f, ap size a, ap total b)
]

List-cases :
    (ms : List OutboundMessage)
    → (ms ≡ []) ⊎ ((m : OutboundMessage) × (rest : List OutboundMessage) × (ms ≡ m ∷ rest))
List-cases [] = inl refl
List-cases (m ∷ ms) = inr (m, ms, refl)

-- `queuedBytes` is the bytes of the messages that were counted and are not written, within the limit; `send`
-- is within its capacity; and what was accepted is what was written, then what is written now, then `send`.
pub record IsQueued (c : BrokerClient) : Type 0 where
  pub counted : c.queued_bytes ≡ total c.send + total c.reserving + total (listed c.writing)
  pub bounded : c.queued_bytes ≤ c.max_queue_bytes
  pub short : length c.send ≤ c.capacity
  pub in_order : c.accepted ≡ c.written ++ (listed c.writing ++ c.send)

module _ (c : BrokerClient) (v : IsQueued c) where
  count_bytes-IsQueued : (m : OutboundMessage) → IsQueued (count_bytes c m).0
  unfolding count_bytes
  count_bytes-IsQueued m = elim (Bool-cases (ltb (c.max_queue_bytes - c.queued_bytes) (size m))) [
    | inl e ↦ rw (e, count_bytes) v
    | inr e ↦
        rw (e, count_bytes)
          (record {
            counted = omega (arith, v.counted);
            bounded = ground (arith, v.bounded);
            short = v.short;
            in_order = v.in_order;
          })
  ]

  offer-IsQueued : (i : ℕ) (prefers : Bool) → IsQueued (offer c i prefers).0
  unfolding offer
  offer-IsQueued i prefers = elim (Option-cases (taken_out i c.reserving)) [
    | inl e ↦ rw (e, offer) v
    | inr ((m, rest), e) ↦
        let less = total-taken_out i c.reserving rest m e in
        elim (Bool-cases (ltb (length c.send) c.capacity && not (c.done && prefers))) [
          | inr f ↦
              rw (e, f, offer)
                (record {
                  counted = omega (arith, v.counted, less);
                  bounded = omega (arith, v.bounded);
                  short = v.short;
                  in_order = v.in_order;
                })
          | inl f ↦
              rw (e, f, offer)
                (record {
                  counted = omega (arith, v.counted, less, total-append c.send (m ∷ []));
                  bounded = v.bounded;
                  short = omega (arith, length-append c.send (m ∷ []), has_room m f);
                  in_order =
                      ap (λ xs. xs ++ m ∷ []) v.in_order
                      ∙ append_assoc c.written (listed c.writing ++ c.send) (m ∷ [])
                      ∙ ap (λ xs. c.written ++ xs)
                          (append_assoc (listed c.writing) c.send (m ∷ []));
                })
        ]
  ]
    where
      has_room :
          (m : OutboundMessage)
          → (ltb (length c.send) c.capacity && not (c.done && prefers)) ≡ true
          → length c.send < c.capacity
      has_room m f = ground arith

  take_message-IsQueued : IsQueued (take_message c)
  unfolding take_message
  take_message-IsQueued = elim (Bool-cases c.stopped) [
    | inl e ↦ simp (e, take_message) v
    | inr e ↦ elim (Option-cases c.writing) [
      | inr (m, f) ↦ simp (e, f, take_message) v
      | inl f ↦ elim (List-cases c.send) [
        | inl g ↦ simp (e, f, g, take_message) v
        | inr (m, ms, g) ↦
            simp (e, f, g, take_message)
              (record {
                counted = omega (arith, v.counted, ap total g, ap (λ w. total (listed w)) f);
                bounded = v.bounded;
                short = omega (arith, v.short, ap length g);
                in_order =
                    v.in_order
                    ∙ ap (λ w. c.written ++ (listed w ++ c.send)) f
                    ∙ ap (λ xs. c.written ++ xs) g;
              })
      ]
    ]
  ]

  written-IsQueued :
      (m : OutboundMessage) (done stopped : Bool)
      → c.writing ≡ some m
      → IsQueued (record c {
        writing = none;
        written = c.written ++ m ∷ [];
        queued_bytes = c.queued_bytes - size m;
        done = done;
        stopped = stopped;
      })
  written-IsQueued m done stopped f = record {
    counted = omega (arith, v.counted, ap (λ w. total (listed w)) f);
    bounded = omega (arith, v.bounded);
    short = v.short;
    in_order =
        v.in_order
        ∙ ap (λ w. c.written ++ (listed w ++ c.send)) f
        ∙ sym (append_assoc c.written (m ∷ []) c.send);
  }

  flagged-IsQueued : (done stopped : Bool) → IsQueued (record c { done = done; stopped = stopped })
  flagged-IsQueued done stopped = record {
    counted = v.counted;
    bounded = v.bounded;
    short = v.short;
    in_order = v.in_order;
  }

  halted-IsQueued :
      c.writing ≡ none → IsQueued (record c { done = true; writing = none; stopped = true })
  halted-IsQueued f = record {
    counted = omega (arith, v.counted, ap (λ w. total (listed w)) f);
    bounded = v.bounded;
    short = v.short;
    in_order = v.in_order ∙ ap (λ w. c.written ++ (listed w ++ c.send)) f;
  }

  finish_write-IsQueued : (fails : Bool) → IsQueued (finish_write c fails)
  unfolding finish_write
  finish_write-IsQueued fails = elim (Option-cases c.writing) [
    | inl f ↦ simp (f, finish_write) v
    | inr (m, f) ↦
        simp (f, finish_write)
          (elim (Bool-cases fails) [
            | inl g ↦ rw g (written-IsQueued m true true f)
            | inr g ↦ rw g (written-IsQueued m c.done c.stopped f)
          ])
  ]

  stop-IsQueued : (ping_fails : Bool) → IsQueued (stop c ping_fails)
  unfolding stop
  stop-IsQueued ping_fails = elim (Option-cases c.writing) [
    | inr (m, f) ↦ simp (f, stop) v
    | inl f ↦
        simp (f, stop)
          (elim (Bool-cases (c.done || ping_fails)) [
            | inl g ↦ rw g (halted-IsQueued f)
            | inr g ↦ rw g v
          ])
  ]

  step-IsQueued : (x : Step) → IsQueued (step c x)
  unfolding step close_client
  step-IsQueued (count m) = count_bytes-IsQueued m
  step-IsQueued (enqueue i prefers) = offer-IsQueued i prefers
  step-IsQueued take = take_message-IsQueued
  step-IsQueued close = flagged-IsQueued true c.stopped
  step-IsQueued (finish fails) = finish_write-IsQueued fails
  step-IsQueued (halt ping_fails) = stop-IsQueued ping_fails

steps-IsQueued : (xs : List Step) (c : BrokerClient) → IsQueued c → IsQueued (run c xs)
unfolding run
steps-IsQueued [] c v = v
steps-IsQueued (x ∷ xs) c v = steps-IsQueued xs (step c x) (step-IsQueued c v x)

-- Through any steps of broadcasts and of the writer, the byte count of a client is the bytes that wait or are
-- being written, within the limit; the queue is within its capacity; and the messages are written in the
-- order in which they were accepted, each once.
pub run-IsQueued :
    (capacity max_queue_bytes : ℕ) (xs : List Step)
    → IsQueued (run (new_client capacity max_queue_bytes) xs)
unfolding new_client
run-IsQueued capacity max_queue_bytes xs =
    steps-IsQueued xs (new_client capacity max_queue_bytes)
      (record { counted = refl; bounded = omega arith; short = omega arith; in_order = refl })
