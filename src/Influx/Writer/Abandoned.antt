-- ===== src/Influx/Writer/Abandoned.antt =====
-- crates/huginn-influx/src/writer.rs: how `run_writer` returns when the shutdown signal reaches it
-- in a backoff.
use huginn_io.Core.Platform.{Platform}
use huginn_io.Influx.Batcher.{hub_closed}
use huginn_io.Influx.Queue.{Batch}
use huginn_io.Influx.Writer.Drain.{after_close, after_close_lem, run-hub_closed}
use huginn_io.Influx.Writer.{
  Phase, sleeping, abandoned, Pipeline, Action, batch_event, shutdown, WriterConfig, step_writer,
  step, run,
}
use huginn_io.Prelude.{ℕ, ◌≡◌, refl, ap, ◌∙◌, true, false, List, [], ◌∷◌}

module _ {p : Platform} where
  step_writer_abandoned :
      (cfg : WriterConfig) (s : Pipeline p) (phase : Phase) (a : Action p)
      → phase ≡ abandoned
      → step_writer cfg s phase a ≡ s
  unfolding step_writer
  step_writer_abandoned cfg s phase a e = rw e refl

  step_abandoned :
      (batch_size : ℕ) (cfg : WriterConfig) (s : Pipeline p) (a : Action p)
      → s.phase ≡ abandoned
      → s.batcher.running ≡ false
      → step batch_size cfg s a ≡ s
  unfolding step
  step_abandoned batch_size cfg s (batch_event e) w off = simp off
  step_abandoned batch_size cfg s a w off = step_writer_abandoned cfg s s.phase a w

  run_abandoned :
      (batch_size : ℕ) (cfg : WriterConfig) (s : Pipeline p) (as_ : List (Action p))
      → s.phase ≡ abandoned
      → s.batcher.running ≡ false
      → run batch_size cfg s as_ ≡ s
  unfolding run
  run_abandoned batch_size cfg s [] w off = refl
  run_abandoned batch_size cfg s (a ∷ as_) w off =
      ap (λ t. run batch_size cfg t as_) (step_abandoned batch_size cfg s a w off)
      ∙ run_abandoned batch_size cfg s as_ w off

  step_writer_shutdown :
      (cfg : WriterConfig) (s : Pipeline p) (phase : Phase) (b : Batch) (attempt delay : ℕ)
      → phase ≡ sleeping b attempt delay
      → step_writer cfg s phase shutdown ≡ (record s { phase = abandoned })
  unfolding step_writer
  step_writer_shutdown cfg s phase b attempt delay e = rw e refl

  -- If the hub closes and the shutdown signal arrives while the batcher runs and the writer sleeps
  -- before a retry, then whatever happens later the writer has returned, and the queue is what it
  -- was after the batcher's last flush: nothing more of it is written.
  pub run-hub_closed-abandons :
      (batch_size : ℕ) (cfg : WriterConfig) (s : Pipeline p) (b : Batch) (attempt delay : ℕ)
      (later : List (Action p))
      → s.batcher.running ≡ true
      → s.phase ≡ sleeping b attempt delay
      → run batch_size cfg s (batch_event hub_closed ∷ shutdown ∷ later)
        ≡ (record (after_close batch_size s) { phase = abandoned })
  unfolding run step step_writer
  run-hub_closed-abandons batch_size cfg s b attempt delay later on w =
      let closed = after_close batch_size s in
      let left : Pipeline p = record closed { phase = abandoned } in
      run-hub_closed batch_size cfg s (shutdown ∷ later) on
      ∙ ap (λ t. run batch_size cfg t later)
          (step_writer_shutdown cfg closed s.phase b attempt delay w)
      ∙ run_abandoned batch_size cfg left later refl (after_close_lem batch_size s).2
