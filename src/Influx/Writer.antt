-- ===== src/Influx/Writer.antt =====
-- crates/huginn-influx/src/writer.rs: how a write fails, how long the writer waits, and the two
-- tasks of the pipeline around the shared queue. What the server answers, the clock, and which task
-- goes on next are inputs.
pub mod Retry
pub mod Outcome
pub mod Fates
pub mod Accounting
pub mod Order
pub mod Drain
pub mod Abandoned
mod Tests
use huginn_io.Prelude.{
  ℕ, suc, ◌+◌, ◌-◌, ◌*◌, ◌/◌, ◌^◌, min, Bool, true, false, not, ◌&&◌, ◌||◌, List, [], ◌∷◌, Option,
  none, some, ltb, leb, ◌==◌, if◌then◌else◌, Text, trim, u64_mod, byte_len,
}
use huginn_io.Core.Decimal.{parse_unsigned}
use huginn_io.Core.Platform.{Platform}
use huginn_io.Core.Stats.{WriteStats, record_written, record_rejected}
use huginn_io.Influx.Batcher.{Batcher, Event, handle}
use huginn_io.Influx.Queue.{
  Batch, RetryQueue, batch_len, pop_if_front, poll_batch, Waiting, ready, finished, wait,
}

pub data WriteError : Type 0 where
  transport : Text → WriteError
  server : ℕ → Text → Option ℕ → WriteError
  client : ℕ → Text → WriteError

unfoldable pub is_retryable : WriteError → Bool
is_retryable (client status body) = false
is_retryable _ = true

unfoldable pub retry_after_secs : WriteError → Option ℕ
retry_after_secs (server status body after) = after
retry_after_secs _ = none

-- What `send()` came back with: no answer and why, or a status, the `Retry-After` header if it is
-- there and printable, and the body (empty if it could not be read).
pub data Response : Type 0 where
  unsent : Text → Response
  answered : ℕ → Option Text → Text → Response

parse_retry_after : Option Text → Option ℕ
parse_retry_after none = none
parse_retry_after (some header) = parse_unsigned u64_mod (trim header)

-- `write_lines`; no error is `Ok(())`.
unfoldable pub write_lines : Response → Option WriteError
unfolding parse_retry_after
write_lines (unsent why) = some (transport why)
write_lines (answered status header body) =
    if leb 200 status && leb status 299
    then none
    else if leb 500 status || status == 429 || status == 408
    then some (server status body (parse_retry_after header))
    else some (client status body)

-- A `Duration` is its nanoseconds; its seconds are a `u64`.
abbrev pub nanos_per_sec : ℕ
nanos_per_sec = 1000000000

abbrev pub from_millis : ℕ → ℕ
from_millis ms = ms * 1000000

abbrev pub from_secs : ℕ → ℕ
from_secs s = s * nanos_per_sec

-- `Duration::checked_mul`
checked_mul : ℕ → ℕ → Option ℕ
checked_mul d n = if ltb (d * n / nanos_per_sec) u64_mod then some (d * n) else none

-- `1u32.checked_shl(n)`
checked_shl_one : ℕ → Option ℕ
checked_shl_one n = if ltb n 32 then some (2 ^ n) else none

abbrev unwrap_or : Option ℕ → ℕ → ℕ
unwrap_or none d = d
unwrap_or (some n) d = n

unfoldable pub backoff_delay : ℕ → ℕ → ℕ → ℕ
unfolding checked_mul checked_shl_one
backoff_delay initial max attempt =
    min
      (unwrap_or (checked_mul initial (unwrap_or (checked_shl_one (min attempt 31)) 0xffffffff))
        max)
      max

-- The arguments of `run_writer`, in milliseconds.
pub record WriterConfig : Type 0 where
  pub initial_backoff_ms : ℕ
  pub max_backoff_ms : ℕ

unfoldable pub retry_delay : WriterConfig → WriteError → ℕ → ℕ
unfolding backoff_delay retry_after_secs
retry_delay cfg e attempt =
    let initial = from_millis cfg.initial_backoff_ms in
    let max = from_millis cfg.max_backoff_ms in
    min
      (elim (retry_after_secs e) [
        | some secs ↦ from_secs secs
        | none ↦ backoff_delay initial max attempt
      ])
      max

-- Where `run_writer` stands: waiting for a batch, waiting for the answer to one, asleep before the
-- next attempt, or returned, with the queue drained or on the shutdown signal.
pub data Phase : Type 0 where
  waiting : Phase
  writing : Batch → ℕ → Phase
  sleeping : Batch → ℕ → ℕ → Phase
  drained : Phase
  abandoned : Phase

abbrev with_stats : (WriteStats → WriteStats) → RetryQueue → RetryQueue
with_stats f q = record q { stats = f q.stats }

-- The three arms of the inner loop's `match`, at the time `now_unix`.
unfoldable pub on_outcome :
    WriterConfig → ℕ → RetryQueue → Batch → ℕ → Option WriteError → RetryQueue × Phase
on_outcome cfg now_unix q batch attempt none =
    let counted = with_stats (λ s. record_written s (batch_len batch) now_unix) q in
    ((pop_if_front counted batch).0, waiting)
on_outcome cfg now_unix q batch attempt (some e) =
    if not (is_retryable e)
    then ((pop_if_front (with_stats record_rejected q) batch).0, waiting)
    else (q, sleeping batch (min (attempt + 1) 0xffffffff) (retry_delay cfg e attempt))

-- The two tasks and the queue that they share.
pub record Pipeline (p : Platform) : Type 0 where
  pub batcher : Batcher p
  pub phase : Phase

-- What can happen next: the batcher's `select!`, a look at the queue, the server's answer, the end
-- of the writer's sleep, the shutdown signal.
pub data Action (p : Platform) : Type 0 where
  batch_event : Event p → Action p
  poll : Action p
  answer : ℕ → Response → Action p
  wake : Action p
  shutdown : Action p

-- The writer's next phase when it looks at the queue.
on_poll : Waiting → Phase
on_poll (ready b) = writing b 0
on_poll finished = drained
on_poll wait = waiting

module _ {p : Platform} where
  with_queue : Pipeline p → RetryQueue × Phase → Pipeline p
  with_queue s (q, phase) = record s { batcher = record s.batcher { queue = q }; phase = phase }

  step_writer : WriterConfig → Pipeline p → Phase → Action p → Pipeline p
  unfolding with_queue on_poll
  step_writer cfg s waiting poll = record s { phase = on_poll (poll_batch s.batcher.queue) }
  step_writer cfg s (writing batch attempt) (answer now response) =
      with_queue s (on_outcome cfg now s.batcher.queue batch attempt (write_lines response))
  step_writer cfg s (sleeping batch attempt delay) wake = record s { phase = writing batch attempt }
  step_writer cfg s (sleeping batch attempt delay) shutdown = record s { phase = abandoned }
  step_writer cfg s _ _ = s

  -- An action that does not apply where the tasks stand changes nothing.
  unfoldable pub step : ℕ → WriterConfig → Pipeline p → Action p → Pipeline p
  unfolding step_writer
  step batch_size cfg s (batch_event e) =
      if s.batcher.running then record s { batcher = handle batch_size s.batcher e } else s
  step batch_size cfg s a = step_writer cfg s s.phase a

  unfoldable pub run : ℕ → WriterConfig → Pipeline p → List (Action p) → Pipeline p
  run batch_size cfg s [] = s
  run batch_size cfg s (a ∷ as_) = run batch_size cfg (step batch_size cfg s a) as_
