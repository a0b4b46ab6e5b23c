-- ===== src/Peer/Buffer.antt =====
-- peer/buffer.go: `ByteBudget` and `RecvBuffer`. The buffers of a server share one budget, so an
-- operation of a buffer takes the budget and returns it. Sizes are counts of bytes far below 2^63;
-- a negative limit refuses what the limit 0 refuses. `none` is the panic of `Release`.
pub mod Budget
pub mod Stream
pub mod Shared
use telekit.Common.{
  ℕ, zero, suc, ◌+◌, ◌-◌, ◌*◌, ◌^◌, min, Bool, true, false, not, ◌&&◌, ◌||◌, Option, none, some,
  List, [], ◌∷◌, ◌++◌, ◌==◌, ltb, leb, if◌then◌else◌, length, take, drop,
}

pub record ByteBudget : Type 0 where
  pub limit : ℕ
  pub used : ℕ

-- `DefaultReceiveBufferSize`
abbrev pub default_receive_buffer_size : ℕ
default_receive_buffer_size = 8 * 2 ^ 20

-- A nil budget grants everything; so does a size of 0.
unfoldable pub reserve : Option ByteBudget → ℕ → Option ByteBudget × Bool
reserve none n = (none, true)
reserve (some b) n =
    if n == 0
    then (some b, true)
    else if ltb (b.limit - b.used) n
    then (some b, false)
    else (some (record b { used = b.used + n }), true)

unfoldable pub release : Option ByteBudget → ℕ → Option (Option ByteBudget)
release none n = some none
release (some b) n =
    if n == 0
    then some (some b)
    else if ltb b.used n
    then none
    else some (some (record b { used = b.used - n }))

-- `Used`
unfoldable pub used_bytes : Option ByteBudget → ℕ
used_bytes none = 0
used_bytes (some b) = b.used

-- A deadline is a time, or none when it is the zero time.
pub record RecvBuffer : Type 0 where
  pub buf : List ℕ
  pub closed : Bool
  pub deadline : Option ℕ
  pub limit : ℕ

-- `NewRecvBufferWithLimit`
unfoldable pub new : ℕ → RecvBuffer
new limit = record {
  buf = [];
  closed = false;
  deadline = none;
  limit = if limit == 0 then default_receive_buffer_size else limit;
}

pub data WriteResult : Type 0 where
  written closed_pipe buffer_full : WriteResult

-- The end of `Write`, on what `Reserve` returned. `bytes.Buffer.Write` returns no error.
unfoldable pub store :
    RecvBuffer → List ℕ → Option ByteBudget × Bool → WriteResult × RecvBuffer × Option ByteBudget
store rb bytes (b, true) = (written, record rb { buf = rb.buf ++ bytes }, b)
store rb bytes (b, false) = (buffer_full, rb, b)

unfoldable pub write :
    RecvBuffer → Option ByteBudget → List ℕ → WriteResult × RecvBuffer × Option ByteBudget
write rb b bytes =
    if rb.closed
    then (closed_pipe, rb, b)
    else if ltb (rb.limit - length rb.buf) (length bytes)
    then (buffer_full, rb, b)
    else store rb bytes (reserve b (length bytes))

-- What one look of `Read` at the buffer finds; `wait` goes to sleep until the buffer changes.
pub data ReadResult : Type 0 where
  got : List ℕ → ReadResult
  end_of_file deadline_exceeded wait : ReadResult

-- The loop body of `Read` on an empty buffer, at the time `now`.
unfoldable pub read_empty : RecvBuffer → ℕ → ReadResult
read_empty rb now =
    if rb.closed
    then end_of_file
    else (elim rb.deadline [ none ↦ wait | some d ↦ if leb d now then deadline_exceeded else wait ])

-- `Read` into a slice of `size` bytes, at the time `now`.
unfoldable pub read :
    RecvBuffer → Option ByteBudget → ℕ → ℕ → Option (ReadResult × RecvBuffer × Option ByteBudget)
unfolding read_empty
read rb b size now =
    if length rb.buf == 0
    then some (read_empty rb now, rb, b)
    else (let n = min size (length rb.buf) in
        elim (release b n) [
          | none ↦ none
          | some b' ↦ some (got (take n rb.buf), record rb { buf = drop n rb.buf }, b')
        ])

unfoldable pub reset : RecvBuffer → Option ByteBudget → Option (RecvBuffer × Option ByteBudget)
reset rb b = if rb.closed then some (rb, b) else (elim (release b (length rb.buf)) [
  | none ↦ none
  | some b' ↦ some (record rb { buf = [] }, b')
])

unfoldable pub is_closed : RecvBuffer → Bool
is_closed rb = rb.closed

unfoldable pub set_deadline : RecvBuffer → Option ℕ → RecvBuffer
set_deadline rb deadline = record rb { deadline = deadline }

unfoldable pub close : RecvBuffer → Option ByteBudget → Option (RecvBuffer × Option ByteBudget)
close rb b = if rb.closed then some (rb, b) else (elim (release b (length rb.buf)) [
  | none ↦ none
  | some b' ↦ some (record rb { closed = true; buf = [] }, b')
])
