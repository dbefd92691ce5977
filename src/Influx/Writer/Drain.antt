-- ===== src/Influx/Writer/Drain.antt =====
-- crates/huginn-influx/src/writer.rs: how the queue empties once the hub has closed, as long as the
-- server answers.
use huginn_io.Core.Platform.{Platform}
use huginn_io.Core.Stats.{record_written, record_rejected}
use huginn_io.Influx.Batcher.Delivery.{enqueue_buffer}
use huginn_io.Influx.Batcher.{hub_closed, handle}
use huginn_io.Influx.Queue.Removal.{pop_if_front_same}
use huginn_io.Influx.Queue.{
  Batch, RetryQueue, batch_len, peek, front, poll_batch, close, ready, finished,
}
use huginn_io.Influx.Writer.{
  Response, write_lines, WriteError, WriterConfig, Phase, is_retryable, waiting, writing, drained,
  on_outcome, Pipeline, Action, batch_event, poll, answer, step_writer, step, run, with_queue,
  with_stats, on_poll,
}
use huginn_io.Prelude.{
  ℕ, suc, ◌+◌, ◌<◌, ◌≡◌, ◌⊎◌, inl, inr, refl, ◌∙◌, ap, true, false, List, [], ◌∷◌, Option, none,
  some, arith, length, u64_mod, wrapping_add, All,
}

-- The writer is done with a batch: it was accepted, or refused for good.
abbrev pub Settles : Option WriteError → Type 0
Settles none = Unit {0}
Settles (some e) = is_retryable e ≡ false

-- How many batches the writer has been done with.
abbrev pub ended_batches : RetryQueue → ℕ
ended_batches q = q.stats.written_batches + q.stats.rejected_batches

-- `q'` is `q` without its front, which is counted as written or as rejected.
record IsServed (q : RetryQueue) (rest : List Batch) (q' : RetryQueue) : Type 0 where
  left : q'.inner.batches ≡ rest
  still : q'.closed ≡ q.closed
  counted : ended_batches q' ≡ suc (ended_batches q)

on_outcome-IsServed :
    (cfg : WriterConfig) (now : ℕ) (q : RetryQueue) (b : Batch) (rest : List Batch)
    (outcome : Option WriteError)
    → q.inner.batches ≡ b ∷ rest
    → Settles outcome
    → suc (ended_batches q) < u64_mod
    → let r = on_outcome cfg now q b 0 outcome in IsServed q rest r.0 × (r.1 ≡ waiting)
unfolding on_outcome record_written record_rejected wrapping_add
on_outcome-IsServed cfg now q b rest none e s h =
    let p = pop_if_front_same (with_stats (λ st. record_written st (batch_len b) now) q) b rest e in
    (record { left = p.0; still = p.1; counted = omega (arith, p.2, p.3) }, refl)
on_outcome-IsServed cfg now q b rest (some x) e s h = rw s (
    let p = pop_if_front_same (with_stats record_rejected q) b rest e in
    (record { left = p.0; still = p.1; counted = omega (arith, p.2, p.3) }, refl))

poll_front :
    (q : RetryQueue) (b : Batch) (rest : List Batch)
    → q.inner.batches ≡ b ∷ rest
    → poll_batch q ≡ ready b
unfolding poll_batch peek front
poll_front q b rest e = rw e refl

poll_finished : (q : RetryQueue) → q.inner.batches ≡ [] → q.closed ≡ true → poll_batch q ≡ finished
unfolding poll_batch peek front
poll_finished q e c = ground arith

front_cases : (bs : List Batch) → (bs ≡ []) ⊎ ((b : Batch) × (rest : List Batch) × (bs ≡ b ∷ rest))
front_cases [] = inl refl
front_cases (b ∷ rest) = inr (b, rest, refl)

module _ {p : Platform} where
  -- The writer looks at the queue and gets an answer, once for each of these, and then looks again.
  abbrev pub drain : List (ℕ × Response) → List (Action p)
  drain [] = poll ∷ []
  drain ((now, response) ∷ rs) = poll ∷ answer now response ∷ drain rs

  abbrev served : WriterConfig → Pipeline p → Batch → ℕ → Response → Pipeline p
  served cfg s b now response =
      with_queue s (on_outcome cfg now s.batcher.queue b 0 (write_lines response))

  -- `s'` has nothing left to write, and is done with `n` more batches than `s`.
  pub record IsDrained (s : Pipeline p) (n : ℕ) (s' : Pipeline p) : Type 0 where
    pub returned : s'.phase ≡ drained
    pub empty : s'.batcher.queue.inner.batches ≡ []
    pub ended : ended_batches s'.batcher.queue ≡ ended_batches s.batcher.queue + n
    pub batcher : (s'.batcher.buffer ≡ s.batcher.buffer) × (s'.batcher.running ≡ s.batcher.running)

  step_poll :
      (cfg : WriterConfig) (s : Pipeline p) (phase : Phase) (b : Batch) (rest : List Batch)
      → phase ≡ waiting
      → s.batcher.queue.inner.batches ≡ b ∷ rest
      → step_writer cfg s phase poll ≡ (record s { phase = writing b 0 })
  unfolding step_writer on_poll
  step_poll cfg s phase b rest w e = rw (w, poll_front s.batcher.queue b rest e) refl

  step_last :
      (cfg : WriterConfig) (s : Pipeline p) (phase : Phase)
      → phase ≡ waiting
      → s.batcher.queue.inner.batches ≡ []
      → s.batcher.queue.closed ≡ true
      → step_writer cfg s phase poll ≡ (record s { phase = drained })
  unfolding step_writer on_poll
  step_last cfg s phase w e c = rw (w, poll_finished s.batcher.queue e c) refl

  run_last :
      (batch_size : ℕ) (cfg : WriterConfig) (s : Pipeline p)
      → s.phase ≡ waiting
      → s.batcher.queue.inner.batches ≡ []
      → s.batcher.queue.closed ≡ true
      → run batch_size cfg s (poll ∷ []) ≡ (record s { phase = drained })
  unfolding run step
  run_last batch_size cfg s w e c = step_last cfg s s.phase w e c

  run-served :
      (batch_size : ℕ) (cfg : WriterConfig) (s : Pipeline p) (b : Batch) (rest : List Batch)
      (now : ℕ) (response : Response) (as_ : List (Action p))
      → s.phase ≡ waiting
      → s.batcher.queue.inner.batches ≡ b ∷ rest
      → run batch_size cfg s (poll ∷ answer now response ∷ as_)
        ≡ run batch_size cfg (served cfg s b now response) as_
  unfolding run step step_writer
  run-served batch_size cfg s b rest now response as_ w e =
      ap (λ t. run batch_size cfg (step batch_size cfg t (answer now response)) as_)
        (step_poll cfg s s.phase b rest w e)

  -- From a waiting writer and a closed queue, if one answer comes for each queued batch and each is
  -- a success or a refusal for good, and the counters do not wrap, the writer returns with an empty
  -- queue, and counted each batch.
  pub run-drain :
      (batch_size : ℕ) (cfg : WriterConfig) (s : Pipeline p) (rs : List (ℕ × Response))
      → s.phase ≡ waiting
      → s.batcher.queue.closed ≡ true
      → length rs ≡ length s.batcher.queue.inner.batches
      → All (λ r. Settles (write_lines r.1)) rs
      → ended_batches s.batcher.queue + length rs < u64_mod
      → IsDrained s (length rs) (run batch_size cfg s (drain rs))
  unfolding with_queue on_outcome
  run-drain batch_size cfg s [] w c n a h = elim (front_cases s.batcher.queue.inner.batches) [
    | inl e ↦
        rw (run_last batch_size cfg s w e c)
          (record { returned = refl; empty = e; ended = omega arith; batcher = (refl, refl) })
    | inr (b, rest, e) ↦ absurd (ground (arith, e))
  ]
  run-drain batch_size cfg s ((now, response) ∷ rs) w c n a h =
      elim (front_cases s.batcher.queue.inner.batches) [
        | inl e ↦ absurd (ground (arith, e))
        | inr (b, rest, e) ↦
            let o =
              on_outcome-IsServed cfg now s.batcher.queue b rest (write_lines response) e a.0
                (omega arith) in
            let ih =
              run-drain batch_size cfg (served cfg s b now response) rs o.1 (o.0.still ∙ c)
                (ground (arith, ap length e, ap length o.0.left)) a.1
                (omega (arith, o.0.counted)) in
            rw (run-served batch_size cfg s b rest now response (drain rs) w e) (record {
              returned = ih.returned;
              empty = ih.empty;
              ended = omega (arith, ih.ended, o.0.counted);
              batcher = ih.batcher;
            })
      ]

  -- The pipeline once the hub has closed.
  abbrev pub after_close : ℕ → Pipeline p → Pipeline p
  after_close batch_size s = record s { batcher = handle batch_size s.batcher hub_closed }

  pub run-hub_closed :
      (batch_size : ℕ) (cfg : WriterConfig) (s : Pipeline p) (as_ : List (Action p))
      → s.batcher.running ≡ true
      → run batch_size cfg s (batch_event hub_closed ∷ as_)
        ≡ run batch_size cfg (after_close batch_size s) as_
  unfolding run step
  run-hub_closed batch_size cfg s as_ on = simp on

  pub after_close_lem :
      (batch_size : ℕ) (s : Pipeline p)
      → let b = (after_close batch_size s).batcher in
        (b.queue.closed ≡ true) × (b.buffer ≡ []) × (b.running ≡ false)
  unfolding handle close
  after_close_lem batch_size s = (refl, enqueue_buffer s.batcher, refl)

  -- If the hub closes while the batcher runs and the writer waits, one answer comes for each batch
  -- that is then queued, each a success or a refusal for good, and the counters do not wrap: the
  -- batcher has stopped with nothing buffered, and the writer returns with an empty queue, having
  -- counted each of those batches as written or rejected.
  pub run-hub_closed-drain :
      (batch_size : ℕ) (cfg : WriterConfig) (s : Pipeline p) (rs : List (ℕ × Response))
      → s.batcher.running ≡ true
      → s.phase ≡ waiting
      → length rs ≡ length (after_close batch_size s).batcher.queue.inner.batches
      → All (λ r. Settles (write_lines r.1)) rs
      → ended_batches (after_close batch_size s).batcher.queue + length rs < u64_mod
      → let s' = run batch_size cfg s (batch_event hub_closed ∷ drain rs) in
        IsDrained (after_close batch_size s) (length rs) s'
        × (s'.batcher.buffer ≡ [])
        × (s'.batcher.running ≡ false)
  run-hub_closed-drain batch_size cfg s rs on w n a h =
      let closed = after_close_lem batch_size s in
      let d = run-drain batch_size cfg (after_close batch_size s) rs w closed.0 n a h in
      rw (run-hub_closed batch_size cfg s (drain rs) on)
        (d, d.batcher.0 ∙ closed.1, d.batcher.1 ∙ closed.2)
