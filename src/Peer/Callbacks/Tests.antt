-- ===== src/Peer/Callbacks/Tests.antt =====
-- A pool that is closed while a task waits.
use telekit.Common.{◌+◌, List, [], ◌∷◌, length}
use telekit.Peer.Callbacks.{new_callback_pool, begin_close, drain_all, Step, submitted, worked, run}
use telekit.Peer.Callbacks.Order.{IsFinished, drain_all-IsFinished}

abbrev calls : List Step
calls = submitted 4 ∷ submitted 5 ∷ submitted 6 ∷ worked ∷ submitted 7 ∷ []

drain_all-IsFinished_example :
    let p = run (new_callback_pool 2) calls in
    IsFinished (drain_all (length p.queue + 1) (begin_close p))
drain_all-IsFinished_example = drain_all-IsFinished 2 calls
