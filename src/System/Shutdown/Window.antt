-- ===== src/System/Shutdown/Window.antt =====
-- huginn/src/main.rs: what the last line of `run` says, against what became of the queue.
use huginn_io.Core.Platform.{Platform}
use huginn_io.Influx.Batcher.{hub_closed, handle}
use huginn_io.Influx.Queue.{Batch}
use huginn_io.Influx.Writer.Drain.{Settles, drain, after_close, ended_batches, run-hub_closed-drain}
use huginn_io.Influx.Writer.Abandoned.{run-hub_closed-abandons}
use huginn_io.Influx.Writer.{
  sleeping, Pipeline, Action, shutdown, WriterConfig, Response, write_lines, waiting,
}
use huginn_io.Prelude.{ℕ, ◌+◌, ◌<◌, ◌≡◌, ap, Bool, true, List, [], ◌∷◌, length, All, u64_mod, codes}
use huginn_io.System.Shutdown.{Report, info, report, writer_end, drain_window}

abbrev pub drained_cleanly : Report
drained_cleanly = info (codes "InfluxDB writer drained cleanly")

module _ {p : Platform} where
  -- If, within the drain window, one answer comes for each batch that is queued once the hub has
  -- closed, each a success or a refusal for good, from a running batcher and a waiting writer whose
  -- counters do not wrap, then the program reports a clean drain, and nothing is buffered or
  -- queued.
  pub drain_window_clean :
      (batch_size : ℕ) (cfg : WriterConfig) (s : Pipeline p) (rs : List (ℕ × Response))
      (probes_stopped : Bool)
      → s.batcher.running ≡ true
      → s.phase ≡ waiting
      → length rs ≡ length (after_close batch_size s).batcher.queue.inner.batches
      → All (λ r. Settles (write_lines r.1)) rs
      → ended_batches (after_close batch_size s).batcher.queue + length rs < u64_mod
      → let s' = drain_window batch_size cfg s (drain rs) in
        (report (writer_end s'.phase) probes_stopped ≡ drained_cleanly)
        × (s'.batcher.buffer ≡ [])
        × (s'.batcher.queue.inner.batches ≡ [])
  unfolding drain_window report writer_end
  drain_window_clean batch_size cfg s rs probes_stopped on w n a h =
      let (d, buffer, running) = run-hub_closed-drain batch_size cfg s rs on w n a h in
      (ap (λ phase. report (writer_end phase) probes_stopped) d.returned, buffer, d.empty)

  -- If the shutdown signal reaches the writer in a backoff, then whatever happens later in the
  -- drain window the program reports a clean drain, and every batch that the batcher's last flush
  -- left in the queue is still in it.
  pub drain_window_abandoned :
      (batch_size : ℕ) (cfg : WriterConfig) (s : Pipeline p) (b : Batch) (attempt delay : ℕ)
      (later : List (Action p)) (probes_stopped : Bool)
      → s.batcher.running ≡ true
      → s.phase ≡ sleeping b attempt delay
      → let s' = drain_window batch_size cfg s (shutdown ∷ later) in
        (report (writer_end s'.phase) probes_stopped ≡ drained_cleanly)
        × (s'.batcher.queue ≡ (handle batch_size s.batcher hub_closed).queue)
  unfolding drain_window report writer_end
  drain_window_abandoned batch_size cfg s b attempt delay later probes_stopped on w =
      let e = run-hub_closed-abandons batch_size cfg s b attempt delay later on w in
      (ap (λ t. report (writer_end t.phase) probes_stopped) e, ap (λ t. t.batcher.queue) e)
