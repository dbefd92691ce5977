-- ===== src/Influx/Writer/Order.antt =====
-- crates/huginn-influx: the order of the batches in the queue, and the batch that the writer
-- holds, over runs of both tasks.
use huginn_io.Core.Platform.{Platform}
use huginn_io.Core.Stats.{WriteStats}
use huginn_io.Influx.Batcher.Delivery.{enqueue_cases}
use huginn_io.Influx.Batcher.{
  Batcher, Event, completed, lagged, hub_closed, deadline, handle, enqueue, render,
}
use huginn_io.Influx.Queue.{
  Batch, RetryQueue, batch_len, evict, push, close, pop_if_front, peek, poll_batch,
}
use huginn_io.Influx.Queue.Removal.{pop_if_front-Removes}
use huginn_io.Influx.Writer.Outcome.{Ascends}
use huginn_io.Influx.Writer.{
  WriterConfig, WriteError, is_retryable, Phase, waiting, writing, sleeping, on_outcome, Pipeline,
  Action, batch_event, poll, answer, wake, shutdown, step_writer, step, run, write_lines, on_poll,
}
use huginn_io.Prelude.{
  ℕ, suc, ◌≤◌, ◌≡◌, refl, List, [], ◌∷◌, ◌++◌, Option, none, some, arith, length, wrapping_add, ltb,
  leb, Bool-cases, inl, inr,
}

Ascends-weaken : (lo lo' n : ℕ) (bs : List Batch) → lo' ≤ lo → Ascends lo n bs → Ascends lo' n bs
Ascends-weaken lo lo' n [] h a = omega arith
Ascends-weaken lo lo' n (b ∷ bs) h a = (omega arith, a.1)

Ascends-append :
    (lo n : ℕ) (bs : List Batch) (b : Batch)
    → b.id ≡ n
    → Ascends lo n bs
    → Ascends lo (suc n) (bs ++ b ∷ [])
Ascends-append lo n [] b e a = omega arith
Ascends-append lo n (x ∷ bs) b e a = (a.0, Ascends-append (suc x.id) n bs b e a.1)

Ascends-tail : (lo n : ℕ) (b : Batch) (bs : List Batch) → Ascends lo n (b ∷ bs) → Ascends lo n bs
Ascends-tail lo n b bs a = Ascends-weaken (suc b.id) lo n bs (omega arith) a.1

evict-Ascends :
    (lo n capacity len : ℕ) (bs : List Batch) (bytes : ℕ) (s : WriteStats)
    → Ascends lo n bs
    → Ascends lo n (evict capacity len bs bytes s).0.batches
unfolding evict
evict-Ascends lo n capacity len [] bytes s a = a
evict-Ascends lo n capacity len (old ∷ rest) bytes s a =
    elim (Bool-cases (ltb capacity (wrapping_add bytes len))) [
      | inl full ↦
          rw (full, evict) (evict-Ascends lo n capacity len rest _ _ (Ascends-tail lo n old rest a))
      | inr fits ↦ rw (fits, evict) a
    ]

push-Ascends :
    (lo n : ℕ) (q : RetryQueue) (b : Batch)
    → b.id ≡ n
    → Ascends lo n q.inner.batches
    → Ascends lo (suc n) (push q b).inner.batches
unfolding push
push-Ascends lo n q b e a =
    Ascends-append lo n _ b e
      (evict-Ascends lo n q.capacity_bytes (batch_len b) q.inner.batches _ _ a)

pop_if_front-Ascends :
    (lo n : ℕ) (q : RetryQueue) (b : Batch)
    → Ascends lo n q.inner.batches
    → Ascends lo n (pop_if_front q b).0.inner.batches
pop_if_front-Ascends lo n q b a = elim (pop_if_front-Removes q b) [
  | inl (x, split, same, _) ↦ Ascends-tail lo n x _ (rw split at a)
  | inr (other, kept, _) ↦ rw kept a
]

on_outcome-Ascends :
    (cfg : WriterConfig) (now lo n attempt : ℕ) (q : RetryQueue) (batch : Batch)
    (outcome : Option WriteError)
    → Ascends lo n q.inner.batches
    → Ascends lo n (on_outcome cfg now q batch attempt outcome).0.inner.batches
unfolding on_outcome
on_outcome-Ascends cfg now lo n attempt q batch none a = pop_if_front-Ascends lo n _ batch a
on_outcome-Ascends cfg now lo n attempt q batch (some e) a = elim (Bool-cases (is_retryable e)) [
  | inl again ↦ rw (again, on_outcome) a
  | inr never ↦ rw (never, on_outcome) (pop_if_front-Ascends lo n _ batch a)
]

-- The id of the batch that the writer holds, or the least of all ids.
abbrev pub held : Phase → ℕ
held (writing b attempt) = b.id
held (sleeping b attempt delay) = b.id
held _ = 0

on_outcome-held :
    (cfg : WriterConfig) (now attempt : ℕ) (q : RetryQueue) (batch : Batch)
    (outcome : Option WriteError)
    → held (on_outcome cfg now q batch attempt outcome).1 ≤ batch.id
unfolding on_outcome
on_outcome-held cfg now attempt q batch none = omega arith
on_outcome-held cfg now attempt q batch (some e) = elim (Bool-cases (is_retryable e)) [
  | inl again ↦ rw (again, on_outcome) (omega arith)
  | inr never ↦ rw (never, on_outcome) (omega arith)
]

poll-Ascends :
    (n : ℕ) (q : RetryQueue) (bs : List Batch)
    → q.inner.batches ≡ bs
    → Ascends 0 n bs
    → Ascends (held (on_poll (poll_batch q))) n bs
unfolding poll_batch peek on_poll
poll-Ascends n q [] e a = ground arith
poll-Ascends n q (b ∷ bs) e a = ground arith

module _ {p : Platform} where
  -- From `lo` on and below the next id, the ids along the queue ascend.
  abbrev pub InOrder : ℕ → Batcher p → Type 0
  InOrder lo b = Ascends lo b.next_id b.queue.inner.batches

  enqueue-InOrder : (lo : ℕ) (b : Batcher p) → InOrder lo b → InOrder lo (enqueue b)
  enqueue-InOrder lo b a = elim (enqueue_cases b) [
    | inl (_, e) ↦ rw e a
    | inr (_, e) ↦
        rw e
          (push-Ascends lo b.next_id b.queue (render b.next_id b.buffer) (unfold render in refl) a)
  ]

  handle-InOrder :
      (lo batch_size : ℕ) (b : Batcher p) (e : Event p)
      → InOrder lo b
      → InOrder lo (handle batch_size b e)
  unfolding handle close
  handle-InOrder lo batch_size b (completed r) a =
      elim (Bool-cases (leb batch_size (length (b.buffer ++ r ∷ [])))) [
        | inl full ↦
            rw (full, handle) (enqueue-InOrder lo (record b { buffer = b.buffer ++ r ∷ [] }) a)
        | inr room ↦ rw (room, handle) a
      ]
  handle-InOrder lo batch_size b (lagged k) a = a
  handle-InOrder lo batch_size b hub_closed a = enqueue-InOrder lo b a
  handle-InOrder lo batch_size b deadline a = enqueue-InOrder lo b a

  -- Everything in the queue is the batch that the writer holds, or is newer; ids ascend.
  abbrev pub IsInLine : Pipeline p → Type 0
  IsInLine s = InOrder (held s.phase) s.batcher

  step_writer-IsInLine :
      (cfg : WriterConfig) (s : Pipeline p) (phase : Phase) (a : Action p)
      → s.phase ≡ phase
      → IsInLine s
      → IsInLine (step_writer cfg s phase a)
  unfolding step_writer
  step_writer-IsInLine cfg s waiting poll e i =
      poll-Ascends s.batcher.next_id s.batcher.queue s.batcher.queue.inner.batches refl (rw e at i)
  step_writer-IsInLine cfg s (writing batch attempt) (answer now response) e i =
      let q = s.batcher.queue in
      let outcome = write_lines response in
      Ascends-weaken batch.id (held (on_outcome cfg now q batch attempt outcome).1) _ _
        (on_outcome-held cfg now attempt q batch outcome)
        (on_outcome-Ascends cfg now batch.id s.batcher.next_id attempt q batch outcome (rw e at i))
  step_writer-IsInLine cfg s (sleeping batch attempt delay) wake e i = rw e at i
  step_writer-IsInLine cfg s (sleeping batch attempt delay) shutdown e i =
      Ascends-weaken (held s.phase) 0 s.batcher.next_id s.batcher.queue.inner.batches (omega arith)
        i
  step_writer-IsInLine cfg s _ _ e i = i

  step-IsInLine :
      (batch_size : ℕ) (cfg : WriterConfig) (s : Pipeline p) (a : Action p)
      → IsInLine s
      → IsInLine (step batch_size cfg s a)
  unfolding step
  step-IsInLine batch_size cfg s (batch_event e) i = elim (Bool-cases s.batcher.running) [
    | inl on ↦ simp on (handle-InOrder (held s.phase) batch_size s.batcher e i)
    | inr off ↦ simp off i
  ]
  step-IsInLine batch_size cfg s a i = step_writer-IsInLine cfg s s.phase a refl i

  -- If, at the start of a run of both tasks, the ids of the queued batches ascend from the id of
  -- the batch that the writer holds (or from 0) and stay below the next id, then they do after any
  -- sequence of events: each batch is queued once, in order, and what is in the queue is the held
  -- batch or is newer.
  pub run-IsInLine :
      (batch_size : ℕ) (cfg : WriterConfig) (s : Pipeline p) (actions : List (Action p))
      → IsInLine s
      → IsInLine (run batch_size cfg s actions)
  unfolding run
  run-IsInLine batch_size cfg s [] i = i
  run-IsInLine batch_size cfg s (a ∷ as_) i =
      run-IsInLine batch_size cfg (step batch_size cfg s a) as_ (step-IsInLine batch_size cfg s a i)
