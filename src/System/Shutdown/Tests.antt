-- ===== src/System/Shutdown/Tests.antt =====
-- The theorems on the shutdown at concrete tasks and answers.
use huginn_io.Core.Samples.{sample_platform, sample_up}
use huginn_io.Core.Stats.{default_stats, set_queue_depth}
use huginn_io.Influx.Batcher.{hub_closed, handle, enqueue}
use huginn_io.Influx.Queue.{Batch, new, push, evict, close}
use huginn_io.Influx.Writer.Drain.{drain}
use huginn_io.Influx.Writer.{
  answered, Response, WriterConfig, Pipeline, waiting, sleeping, shutdown, wake, poll, write_lines,
}
use huginn_io.Prelude.{ℕ, ◌≡◌, refl, true, false, List, [], ◌∷◌, none, some, arith, codes}
use huginn_io.System.Shutdown.Deadline.{Stops, stop_probes-Stops}
use huginn_io.System.Shutdown.Window.{drained_cleanly, drain_window_clean, drain_window_abandoned}
use huginn_io.System.Shutdown.{JoinHandle, stop_probes, report, writer_end, drain_window}

-- One loop that ends in time, and one that does not.
abbrev sample_handles : List JoinHandle
sample_handles =
    record { ends_at = some 105; aborted = false } ∷ record { ends_at = none; aborted = false } ∷ []

stop_probes-Stops_example : Stops 100 2000 sample_handles (stop_probes 100 2000 sample_handles)
stop_probes-Stops_example = stop_probes-Stops 100 2000 sample_handles

abbrev sample_writer : WriterConfig
sample_writer = record { initial_backoff_ms = 500; max_backoff_ms = 30000 }

-- One result is still buffered.
abbrev buffered : Pipeline sample_platform
buffered = record {
  batcher = record {
    queue = new 1000 default_stats;
    buffer = sample_up ∷ [];
    next_id = 0;
    running = true;
  };
  phase = waiting;
}

abbrev one_answer : List (ℕ × Response)
one_answer = (100, answered 204 none []) ∷ []

drain_window_clean_example :
    let s' = drain_window 10 sample_writer buffered (drain one_answer) in
    (report (writer_end s'.phase) true ≡ drained_cleanly)
    × (s'.batcher.buffer ≡ [])
    × (s'.batcher.queue.inner.batches ≡ [])
unfolding handle enqueue new push evict close write_lines set_queue_depth
drain_window_clean_example =
    drain_window_clean 10 sample_writer buffered one_answer true refl refl refl (tt, tt)
      (omega arith)

abbrev held_batch : Batch
held_batch = record { id = 3; lines = codes "abc" }

abbrev retrying : Pipeline sample_platform
retrying = record buffered { phase = sleeping held_batch 1 500 }

drain_window_abandoned_example :
    let s' = drain_window 10 sample_writer retrying (shutdown ∷ wake ∷ poll ∷ []) in
    (report (writer_end s'.phase) false ≡ drained_cleanly)
    × (s'.batcher.queue ≡ (handle 10 retrying.batcher hub_closed).queue)
drain_window_abandoned_example =
    drain_window_abandoned 10 sample_writer retrying held_batch 1 500 (wake ∷ poll ∷ []) false refl
      refl
