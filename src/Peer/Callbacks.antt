-- ===== src/Peer/Callbacks.antt =====
-- peer/callback_pool.go: `CallbackPool`. A task is a number, which stands for its two functions; neither of them
-- is nil. A worker and the loop of `Close` take one task in a step; the lock keeps `Submit` out of `Close`.
pub mod Order
mod Tests
use telekit.Common.{
  ℕ, zero, suc, Bool, true, false, not, ◌&&◌, ◌||◌, Option, none, some, List, [], ◌∷◌, ◌++◌, ◌==◌,
  ltb, if◌then◌else◌, length,
}

-- What became of a task that left the queue.
pub data Fate : Type 0 where
  started cancelled : ℕ → Fate

-- `closing` is set from the start of the body of `Close` until it finds the queue empty. `fates` and `accepted`
-- record what left the queue and what came in, in order.
pub record CallbackPool : Type 0 where
  pub queue : List ℕ
  pub queue_size : ℕ
  pub closed : Bool
  pub closing : Bool
  pub fates : List Fate
  pub accepted : List ℕ

unfoldable pub new_callback_pool : ℕ → CallbackPool
new_callback_pool queue_size = record {
  queue = [];
  queue_size = if queue_size == 0 then 1 else queue_size;
  closed = false;
  closing = false;
  fates = [];
  accepted = [];
}

-- `SubmitWithCancel`
unfoldable pub submit : CallbackPool → ℕ → CallbackPool × Bool
submit p task =
    if p.closed || not (ltb (length p.queue) p.queue_size)
    then (p, false)
    else (record p { queue = p.queue ++ task ∷ []; accepted = p.accepted ++ task ∷ [] }, true)

-- A worker takes a task and starts it, also when `stop` is closed and the choice falls on the queue.
unfoldable pub work : CallbackPool → CallbackPool
work p = elim p.queue [
  | [] ↦ p
  | task ∷ rest ↦ record p { queue = rest; fates = p.fates ++ started task ∷ [] }
]

-- The start of `Close`, and one round of its loop.
unfoldable pub begin_close : CallbackPool → CallbackPool
begin_close p = if p.closed then p else record p { closed = true; closing = true }

unfoldable pub drain : CallbackPool → CallbackPool
drain p = if not p.closing then p else (elim p.queue [
  | [] ↦ record p { closing = false }
  | task ∷ rest ↦ record p { queue = rest; fates = p.fates ++ cancelled task ∷ [] }
])

pub data Step : Type 0 where
  submitted : ℕ → Step
  worked close_begun drained : Step

unfoldable pub step : CallbackPool → Step → CallbackPool
step p (submitted task) = (submit p task).0
step p worked = work p
step p close_begun = begin_close p
step p drained = drain p

unfoldable pub run : CallbackPool → List Step → CallbackPool
run p [] = p
run p (x ∷ xs) = run (step p x) xs

-- Rounds of the loop of `Close`.
unfoldable pub drain_all : ℕ → CallbackPool → CallbackPool
drain_all zero p = p
drain_all (suc fuel) p = drain_all fuel (drain p)
