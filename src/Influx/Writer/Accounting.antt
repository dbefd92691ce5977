-- ===== src/Influx/Writer/Accounting.antt =====
-- crates/huginn-influx: the counters and the queue against what became of every batch, over runs of
-- both tasks.
use huginn_io.Prelude.{
  ℕ, suc, ◌+◌, ◌≤◌, ◌<◌, ◌≡◌, inl, inr, refl, ap, subst, ◌∙◌, true, ◌||◌, List, [], ◌∷◌, ◌++◌,
  Option, none, some, take, arith, length, length-append, u64_mod, wrapping_add, Bool-cases, leb,
  ltb,
}
use huginn_io.Core.Platform.{Platform}
use huginn_io.Core.Types.{ProbeResult}
use huginn_io.Core.Stats.{record_written, record_rejected, set_queue_depth}
use huginn_io.Influx.Batcher.{
  Batcher, Event, completed, lagged, hub_closed, deadline, handle, enqueue, render,
}
use huginn_io.Influx.Batcher.Delivery.{enqueue_cases, flushed}
use huginn_io.Influx.Queue.{Batch, batch_len, evict, push, push_back, close, pop_if_front}
use huginn_io.Influx.Queue.Removal.{pop_if_front_count}
use huginn_io.Influx.Writer.{
  WriterConfig, WriteError, is_retryable, Phase, waiting, writing, sleeping, drained, abandoned,
  on_outcome, with_stats, Pipeline, Action, batch_event, poll, answer, wake, shutdown, step_writer,
  step, run, write_lines,
}
use huginn_io.Influx.Writer.Fates.{
  Fates, abandoned_fates, answered_fates, both, drained_fates, dropped_between, evict-Gone,
  fates_few, fates_of, has, has-append, ids, ids-append, judged, length-ids, none_dropped,
  popped_kept, take_appended, traced, traced-both, traced_later, unmoved,
}

-- Every batch that `b` had queued or that was queued since is accounted for, the counters grew by
-- the number of batches with each fate, and no more are dropped or in the queue than were queued.
pub record IsAccounted {p : Platform} (b : Batcher p) (f : Fates) (b' : Batcher p) : Type 0 where
  pub kept : (id : ℕ) → has id (ids b.queue.inner.batches) ≡ true → traced id f b'.queue ≡ true
  pub new : (id : ℕ) → b.next_id ≤ id → id < b'.next_id → traced id f b'.queue ≡ true
  pub written : b'.queue.stats.written_batches ≡ b.queue.stats.written_batches + length f.written
  pub rejected :
      b'.queue.stats.rejected_batches ≡ b.queue.stats.rejected_batches + length f.rejected
  pub dropped : b'.queue.stats.dropped_batches ≡ b.queue.stats.dropped_batches + length f.dropped
  pub onward : b.next_id ≤ b'.next_id
  pub few :
      b'.queue.stats.dropped_batches + length b'.queue.inner.batches + b.next_id
      ≤ b.queue.stats.dropped_batches + length b.queue.inner.batches + b'.next_id

module _ {p : Platform} where
  both-IsAccounted :
      (b b1 b2 : Batcher p) (f g : Fates)
      → IsAccounted b f b1
      → IsAccounted b1 g b2
      → IsAccounted b (both f g) b2
  both-IsAccounted b b1 b2 f g x y = record {
    kept = λ id h. traced_later id f g b1.queue b2.queue (x.kept id h) (y.kept id);
    new = λ id h k. elim (Bool-cases (ltb id b1.next_id)) [
      | inl old ↦
          traced_later id f g b1.queue b2.queue (x.new id h (ground (arith, old))) (y.kept id)
      | inr young ↦ traced-both id f g b2.queue ∙ ground (arith, y.new id (ground (arith, young)) k)
    ];
    written = omega (arith, x.written, y.written, length-append f.written g.written);
    rejected = omega (arith, x.rejected, y.rejected, length-append f.rejected g.rejected);
    dropped = omega (arith, x.dropped, y.dropped, length-append f.dropped g.dropped);
    onward = omega (arith, x.onward, y.onward);
    few = omega (arith, x.few, y.few);
  }

  -- What a step of the batcher does to batches.
  abbrev pub drops : Batcher p → Batcher p → Fates
  drops b b' = record { written = []; rejected = []; dropped = dropped_between b.queue b'.queue }

  abbrev Unmoved : Batcher p → Batcher p → Type 0
  Unmoved b b' =
      (b'.queue.inner.batches ≡ b.queue.inner.batches)
      × (b'.queue.stats.dropped_batches ≡ b.queue.stats.dropped_batches)
      × (b'.queue.stats.written_batches ≡ b.queue.stats.written_batches)
      × (b'.queue.stats.rejected_batches ≡ b.queue.stats.rejected_batches)
      × (b'.next_id ≡ b.next_id)

  Unmoved-IsAccounted : (b b' : Batcher p) → Unmoved b b' → IsAccounted b (drops b b') b'
  Unmoved-IsAccounted b b' (same, d, w, r, n) = record {
    kept =
        λ id h. ground (arith, none_dropped b.queue b'.queue d, ap (λ bs. has id (ids bs)) same, h);
    new = λ id h k. absurd (omega (arith, h, k, n));
    written = omega (arith, w);
    rejected = omega (arith, r);
    dropped = omega (arith, d, ap length (none_dropped b.queue b'.queue d));
    onward = omega (arith, n);
    few = omega (arith, d, n, ap length same);
  }

  still : (b : Batcher p) → IsAccounted b (drops b b) b
  still b = Unmoved-IsAccounted b b (refl, refl, refl, refl, refl)

  flushed-IsAccounted :
      (b : Batcher p) (buf : List (ProbeResult p))
      → b.queue.stats.dropped_batches + length b.queue.inner.batches < u64_mod
      → IsAccounted b (drops b (flushed b buf)) (flushed b buf)
  unfolding push push_back set_queue_depth render
  flushed-IsAccounted b buf h =
      let q = b.queue in
      let batch = render b.next_id buf in
      let g =
        evict-Gone q.capacity_bytes (batch_len batch) q.inner.batches q.inner.bytes q.stats h in
      let r = evict q.capacity_bytes (batch_len batch) q.inner.batches q.inner.bytes q.stats in
      let rest = r.0.batches in
      let q' = push q batch in
      let taken : dropped_between q q' ≡ ids g.gone =
        ap (λ k. ids (take k q.inner.batches)) (omega (arith, g.counted))
        ∙ ap (λ bs. ids (take (length g.gone) bs)) g.split
        ∙ ap ids (take_appended g.gone rest) in
      let before : (id : ℕ)
          → has id (ids q.inner.batches) ≡ (has id (ids g.gone) || has id (ids rest)) =
        λ id.
          ap (λ bs. has id (ids bs)) g.split
          ∙ ap (has id) (ids-append g.gone rest)
          ∙ has-append id (ids g.gone) (ids rest) in
      let after : (id : ℕ)
          → has id (ids (rest ++ batch ∷ [])) ≡ (has id (ids rest) || has id (b.next_id ∷ [])) =
        λ id.
          ap (has id) (ids-append rest (batch ∷ [])) ∙ has-append id (ids rest) (b.next_id ∷ []) in
      record {
        kept = λ id k. ground (arith, ap (has id) taken, before id, after id, k);
        new = λ id k l. ground (arith, after id);
        written = omega (arith, g.written);
        rejected = omega (arith, g.rejected);
        dropped = omega (arith, g.counted, ap length taken, length-ids g.gone);
        onward = omega arith;
        few = omega (
          arith,
          g.counted,
          ap length g.split,
          length-append g.gone rest,
          length-append rest (batch ∷ []),
        );
      }

  enqueue-IsAccounted :
      (b : Batcher p)
      → b.queue.stats.dropped_batches + length b.queue.inner.batches < u64_mod
      → IsAccounted b (drops b (enqueue b)) (enqueue b)
  enqueue-IsAccounted b h = elim (enqueue_cases b) [
    | inl (_, e) ↦ rw e (Unmoved-IsAccounted b b (refl, refl, refl, refl, refl))
    | inr (_, e) ↦ rw e (flushed-IsAccounted b b.buffer h)
  ]

  enqueue_paced : (b : Batcher p) → (enqueue b).next_id ≤ suc b.next_id
  enqueue_paced b = elim (enqueue_cases b) [
    | inl (_, e) ↦ rw e (omega arith)
    | inr (_, e) ↦ rw e (omega arith)
  ]

  handle-IsAccounted :
      (batch_size : ℕ) (b : Batcher p) (e : Event p)
      → b.queue.stats.dropped_batches + length b.queue.inner.batches < u64_mod
      → IsAccounted b (drops b (handle batch_size b e)) (handle batch_size b e)
  unfolding handle close
  handle-IsAccounted batch_size b (completed r) h =
      let b1 = record b { buffer = b.buffer ++ r ∷ [] } in
      elim (Bool-cases (leb batch_size (length (b.buffer ++ r ∷ [])))) [
        | inl full ↦
            let a = enqueue-IsAccounted b1 h in
            rw (full, handle)
              (record {
                kept = a.kept;
                new = a.new;
                written = a.written;
                rejected = a.rejected;
                dropped = a.dropped;
                onward = a.onward;
                few = a.few;
              })
        | inr room ↦ rw (room, handle) (Unmoved-IsAccounted b b1 (refl, refl, refl, refl, refl))
      ]
  handle-IsAccounted batch_size b (lagged k) h =
      Unmoved-IsAccounted b b (refl, refl, refl, refl, refl)
  handle-IsAccounted batch_size b hub_closed h =
      let a = enqueue-IsAccounted b h in
      record {
        kept = a.kept;
        new = a.new;
        written = a.written;
        rejected = a.rejected;
        dropped = a.dropped;
        onward = a.onward;
        few = a.few;
      }
  handle-IsAccounted batch_size b deadline h = enqueue-IsAccounted b h

  handle_paced :
      (batch_size : ℕ) (b : Batcher p) (e : Event p)
      → (handle batch_size b e).next_id ≤ suc b.next_id
  unfolding handle
  handle_paced batch_size b (completed r) =
      let b1 = record b { buffer = b.buffer ++ r ∷ [] } in
      elim (Bool-cases (leb batch_size (length (b.buffer ++ r ∷ [])))) [
        | inl full ↦ rw (full, handle) (enqueue_paced b1)
        | inr room ↦ rw (room, handle) (omega arith)
      ]
  handle_paced batch_size b (lagged k) = omega arith
  handle_paced batch_size b hub_closed = enqueue_paced b
  handle_paced batch_size b deadline = enqueue_paced b

  on_outcome-IsAccounted :
      (cfg : WriterConfig) (now attempt : ℕ) (b : Batcher p) (batch : Batch)
      (outcome : Option WriteError)
      → b.queue.stats.written_batches + 1 < u64_mod
      → b.queue.stats.rejected_batches + 1 < u64_mod
      → let q' = (on_outcome cfg now b.queue batch attempt outcome).0 in
        IsAccounted b
          (record (judged batch outcome) { dropped = dropped_between b.queue q' })
          (record b { queue = q' })
  unfolding on_outcome record_written record_rejected wrapping_add
  on_outcome-IsAccounted cfg now attempt b batch none h k =
      let q = with_stats (λ s. record_written s (batch_len batch) now) b.queue in
      let q' = (pop_if_front q batch).0 in
      let c = pop_if_front_count q batch in
      let nothing = none_dropped b.queue q' c.2 in
      record {
        kept = λ id m. ground (arith, popped_kept id q batch m, nothing);
        new = λ id m l. absurd (omega (arith, m, l));
        written = omega (arith, c.3);
        rejected = omega (arith, c.4);
        dropped = omega (arith, c.2, ap length nothing);
        onward = omega arith;
        few = omega (arith, c.0, c.1, c.2);
      }
  on_outcome-IsAccounted cfg now attempt b batch (some e) h k = elim (Bool-cases (is_retryable e)) [
    | inl again ↦ rw (again, on_outcome) (Unmoved-IsAccounted b b (refl, refl, refl, refl, refl))
    | inr never ↦
        let q = with_stats record_rejected b.queue in
        let q' = (pop_if_front q batch).0 in
        let c = pop_if_front_count q batch in
        let nothing = none_dropped b.queue q' c.2 in
        rw (never, on_outcome)
          (record {
            kept = λ id m. ground (arith, popped_kept id q batch m, nothing);
            new = λ id m l. absurd (omega (arith, m, l));
            written = omega (arith, c.3);
            rejected = omega (arith, c.4);
            dropped = omega (arith, c.2, ap length nothing);
            onward = omega arith;
            few = omega (arith, c.0, c.1, c.2);
          })
  ]

  -- The counters of this state have room for so many more.
  abbrev pub HasRoom : ℕ → Batcher p → Type 0
  HasRoom n b =
      (b.queue.stats.written_batches + n < u64_mod)
      × (b.queue.stats.rejected_batches + n < u64_mod)
      × (b.queue.stats.dropped_batches + length b.queue.inner.batches + n < u64_mod)

  step_writer-IsAccounted :
      (cfg : WriterConfig) (s : Pipeline p) (phase : Phase) (a : Action p)
      → HasRoom 1 s.batcher
      → let s' = step_writer cfg s phase a in
        IsAccounted s.batcher
          (record (answered_fates a phase) {
            dropped = dropped_between s.batcher.queue s'.batcher.queue;
          })
          s'.batcher
        × (s'.batcher.next_id ≡ s.batcher.next_id)
  unfolding step_writer
  step_writer-IsAccounted cfg s (writing batch attempt) (answer now response) h =
      (on_outcome-IsAccounted cfg now attempt s.batcher batch (write_lines response) h.0 h.1, refl)
  step_writer-IsAccounted cfg s waiting poll h = (still s.batcher, refl)
  step_writer-IsAccounted cfg s (sleeping batch attempt delay) wake h = (still s.batcher, refl)
  step_writer-IsAccounted cfg s (sleeping batch attempt delay) shutdown h = (still s.batcher, refl)
  step_writer-IsAccounted cfg s drained a h = rw (drained_fates a) (still s.batcher, refl)
  step_writer-IsAccounted cfg s abandoned a h = rw (abandoned_fates a) (still s.batcher, refl)
  step_writer-IsAccounted cfg s _ _ h = (still s.batcher, refl)

  step-IsAccounted :
      (batch_size : ℕ) (cfg : WriterConfig) (s : Pipeline p) (a : Action p)
      → HasRoom 1 s.batcher
      → let s' = step batch_size cfg s a in
        IsAccounted s.batcher
          (record (answered_fates a s.phase) {
            dropped = dropped_between s.batcher.queue s'.batcher.queue;
          })
          s'.batcher
        × (s'.batcher.next_id ≤ suc s.batcher.next_id)
  unfolding step
  step-IsAccounted batch_size cfg s (batch_event e) h = elim (Bool-cases s.batcher.running) [
    | inl on ↦ simp on (
      handle-IsAccounted batch_size s.batcher e (omega (arith, h)),
      handle_paced batch_size s.batcher e,
    )
    | inr off ↦ simp off (still s.batcher, omega arith)
  ]
  step-IsAccounted batch_size cfg s a h =
      let w = step_writer-IsAccounted cfg s s.phase a h in (w.0, omega (arith, w.1))

  -- From a state whose counters have room for the run, after any sequence of events of the batcher
  -- and the writer, whatever the server answers: each batch that was in the queue or was queued
  -- since was written, as its own answer says, or rejected likewise, or dropped by a push from the
  -- front of the queue, or is in the queue; the three counters grew by exactly the number of each;
  -- and no more batches are dropped or in the queue than were or were queued since.
  pub run-IsAccounted :
      (batch_size : ℕ) (cfg : WriterConfig) (s : Pipeline p) (actions : List (Action p))
      → HasRoom (length actions) s.batcher
      → IsAccounted s.batcher
          (fates_of batch_size cfg s actions)
          (run batch_size cfg s actions).batcher
  unfolding run
  run-IsAccounted batch_size cfg s [] h =
      let q = s.batcher.queue in
      subst (λ d. IsAccounted s.batcher (record unmoved { dropped = d }) s.batcher)
        (none_dropped q q refl) (still s.batcher)
  run-IsAccounted batch_size cfg s (a ∷ as_) h =
      let s1 = step batch_size cfg s a in
      let (x, paced) = step-IsAccounted batch_size cfg s a (omega (arith, h)) in
      let fewer = fates_few a s.phase in
      both-IsAccounted s.batcher s1.batcher (run batch_size cfg s1 as_).batcher _ _ x (
        run-IsAccounted batch_size cfg s1 as_
          (omega (arith, h, x.written, x.rejected, x.few, paced, fewer)))
