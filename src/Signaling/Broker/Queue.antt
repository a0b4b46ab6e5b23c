-- ===== src/Signaling/Broker/Queue.antt =====
-- `brokerClient`: the queue of a client and its count of bytes. Each access to `queuedBytes`, to `send` and to
-- `done` is a step of its own; `reserving` holds the messages of calls of `enqueue` that counted their bytes and
-- have not come to `send` yet, `writing` the message that `writeLoop` took and has not yet written.
use telekit.Common.{
  ℕ, zero, suc, ◌+◌, ◌-◌, Bool, true, false, not, ◌&&◌, ◌||◌, Option, none, some, List, [], ◌∷◌,
  ◌++◌, ltb, if◌then◌else◌, length,
}

-- A type and its data.
pub record OutboundMessage : Type 0 where
  pub typ : ℕ
  pub data_bytes : List ℕ

abbrev pub size : OutboundMessage → ℕ
size m = length m.data_bytes

-- `written` is what `WriteMessage` was called with, in order, and `accepted` what `send` took.
pub record BrokerClient : Type 0 where
  pub send : List OutboundMessage
  pub done : Bool
  pub queued_bytes : ℕ
  pub max_queue_bytes : ℕ
  pub capacity : ℕ
  pub reserving : List OutboundMessage
  pub writing : Option OutboundMessage
  pub stopped : Bool
  pub written : List OutboundMessage
  pub accepted : List OutboundMessage

-- The first half of `enqueue`: `false` is the refusal.
unfoldable pub count_bytes : BrokerClient → OutboundMessage → BrokerClient × Bool
count_bytes c m =
    if ltb (c.max_queue_bytes - c.queued_bytes) (size m)
    then (c, false)
    else (record c { queued_bytes = c.queued_bytes + size m; reserving = m ∷ c.reserving }, true)

-- The call that stands at that place of `reserving`.
abbrev pub taken_out : ℕ → List OutboundMessage → Option (OutboundMessage × List OutboundMessage)
taken_out i [] = none
taken_out zero (m ∷ ms) = some (m, ms)
taken_out (suc i) (m ∷ ms) = elim (taken_out i ms) [
  | none ↦ none
  | some (x, rest) ↦ some (x, m ∷ rest)
]

-- The `select` at the end of `enqueue`: a full queue refuses, and so may a client that is done, which `prefers`
-- says when `send` has room too.
unfoldable pub offer : BrokerClient → ℕ → Bool → BrokerClient × Bool
offer c i prefers = elim (taken_out i c.reserving) [
  | none ↦ (c, false)
  | some (m, rest) ↦ elim (ltb (length c.send) c.capacity && not (c.done && prefers)) [
    | true ↦ (
      record c { send = c.send ++ m ∷ []; accepted = c.accepted ++ m ∷ []; reserving = rest },
      true,
    )
    | false ↦ (record c { queued_bytes = c.queued_bytes - size m; reserving = rest }, false)
  ]
]

-- `writeLoop` takes a message, when it runs and is not writing.
unfoldable pub take_message : BrokerClient → BrokerClient
take_message c = elim c.stopped [
  | true ↦ c
  | false ↦ elim c.writing [
    | some m ↦ c
    | none ↦ elim c.send [ [] ↦ c | m ∷ ms ↦ record c { send = ms; writing = some m } ]
  ]
]

-- `close`
unfoldable pub close_client : BrokerClient → BrokerClient
close_client c = record c { done = true }

-- The write of that message ends, with an error or without.
unfoldable pub finish_write : BrokerClient → Bool → BrokerClient
finish_write c fails = elim c.writing [
  | none ↦ c
  | some m ↦
      let c' : BrokerClient = record c {
        writing = none;
        written = c.written ++ m ∷ [];
        queued_bytes = c.queued_bytes - size m;
      } in
      if fails then record c' { done = true; stopped = true } else c'
]

-- `writeLoop` returns: a client that is done, or a ping that fails, which closes it.
unfoldable pub stop : BrokerClient → Bool → BrokerClient
stop c ping_fails = elim c.writing [
  | some m ↦ c
  | none ↦ if c.done || ping_fails then record c { done = true; stopped = true } else c
]

-- The client that `ServeHTTP` makes.
unfoldable pub new_client : ℕ → ℕ → BrokerClient
new_client capacity max_queue_bytes = record {
  send = [];
  done = false;
  queued_bytes = 0;
  max_queue_bytes = max_queue_bytes;
  capacity = capacity;
  reserving = [];
  writing = none;
  stopped = false;
  written = [];
  accepted = [];
}

pub data Step : Type 0 where
  count : OutboundMessage → Step
  enqueue : ℕ → Bool → Step
  take close : Step
  finish halt : Bool → Step

unfoldable pub step : BrokerClient → Step → BrokerClient
step c (count m) = (count_bytes c m).0
step c (enqueue i prefers) = (offer c i prefers).0
step c take = take_message c
step c close = close_client c
step c (finish fails) = finish_write c fails
step c (halt ping_fails) = stop c ping_fails

unfoldable pub run : BrokerClient → List Step → BrokerClient
run c [] = c
run c (x ∷ xs) = run (step c x) xs
