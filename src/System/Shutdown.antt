-- ===== src/System/Shutdown.antt =====
-- huginn/src/main.rs: the stages of the shutdown: `stop_probes`, the drop of the hub, and the
-- window in which the writer drains the queue. Times are in one unit, whichever.
pub mod Deadline
pub mod Window
mod Tests
use Prim.Native.Nat.{max}
use huginn_io.Influx.Batcher.{hub_closed}
use huginn_io.Influx.Writer.{
  Phase, waiting, writing, sleeping, drained, abandoned, Pipeline, Action, batch_event,
  WriterConfig, run,
}
use huginn_io.Core.Platform.{Platform}
use huginn_io.Prelude.{
  ℕ, ◌+◌, Bool, true, false, List, [], ◌∷◌, ◌++◌, Option, none, some, leb, if◌then◌else◌, Text,
  codes,
}

-- The task of a probe loop: when it ends by itself, if it does, and whether it was aborted.
pub record JoinHandle : Type 0 where
  pub ends_at : Option ℕ
  pub aborted : Bool

-- `timeout_at(deadline, handle)`: whether the task ended in time, and the time afterwards.
await_handle : ℕ → ℕ → Option ℕ → Bool × ℕ
await_handle deadline now none = (false, max now deadline)
await_handle deadline now (some at) =
    if leb at deadline then (true, max now at) else (false, max now deadline)

-- The loop over the handles, which breaks at the first that is late: `all_stopped`, and the time.
await_handles : ℕ → ℕ → List JoinHandle → Bool × ℕ
unfolding await_handle
await_handles deadline now [] = (true, now)
await_handles deadline now (handle ∷ handles) =
    let first = await_handle deadline now handle.ends_at in
    let rest = await_handles deadline first.1 handles in if first.0 then rest else first

abort_all : List JoinHandle → List JoinHandle
abort_all [] = []
abort_all (handle ∷ handles) = record handle { aborted = true } ∷ abort_all handles

-- The handles afterwards, whether all stopped by themselves, and the time.
unfoldable pub stop_probes : ℕ → ℕ → List JoinHandle → List JoinHandle × Bool × ℕ
unfolding await_handles abort_all
stop_probes now grace [] = ([], true, now)
stop_probes now grace (handle ∷ handles_) =
    let handles = handle ∷ handles_ in
    let awaited = await_handles (now + grace) now handles in
    (if awaited.0 then handles else abort_all handles, awaited.0, awaited.1)

-- What `timeout(drain, writer_handle)` comes to.
pub data WriterEnd : Type 0 where
  returned : WriterEnd
  panicked : Text → WriterEnd
  overran : WriterEnd

-- What the last lines of `run` log.
pub data Report : Type 0 where
  info : Text → Report
  error : Text → Report
  warn : Text → Report

unfoldable pub report : WriterEnd → Bool → Report
report returned probes_stopped = info (codes "InfluxDB writer drained cleanly")
report (panicked e) probes_stopped = error (codes "InfluxDB writer task failed: " ++ e)
report overran true = warn (codes "InfluxDB unreachable at shutdown — discarding buffered results")
report overran false = warn (
    codes "shutdown drain timed out after probes had to be aborted — buffered results discarded; "
    ++ codes "suspect a probe that outlived its timeout rather than InfluxDB")

-- How the writer's task stands when the window is over.
unfoldable pub writer_end : Phase → WriterEnd
writer_end drained = returned
writer_end abandoned = returned
writer_end _ = overran

-- `drop(hub)`, and what happens within the window.
unfoldable pub drain_window :
    {p : Platform} → ℕ → WriterConfig → Pipeline p → List (Action p) → Pipeline p
drain_window batch_size cfg s actions = run batch_size cfg s (batch_event hub_closed ∷ actions)

-- `PROBE_STOP_GRACE`, in milliseconds.
abbrev pub probe_stop_grace : ℕ
probe_stop_grace = 2000

-- From the shutdown signal to the return of `run`: what it logs last, and where the tasks stand.
unfoldable pub shut_down :
    {p : Platform}
    → ℕ
    → List JoinHandle
    → ℕ
    → WriterConfig
    → Pipeline p
    → List (Action p)
    → Report × Pipeline p
unfolding report writer_end
shut_down now handles batch_size cfg s actions =
    let stopped = stop_probes now probe_stop_grace handles in
    let drained_ = drain_window batch_size cfg s actions in
    (report (writer_end drained_.phase) stopped.1, drained_)
