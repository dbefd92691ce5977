-- ===== src/Influx/Queue/Removal.antt =====
-- crates/huginn-influx/src/queue.rs: what `pop_if_front` removes, and the end of `wait_for_batch`.
use huginn_io.Core.Stats.{set_queue_depth}
use huginn_io.Prelude.{
  suc, ◌≤◌, length, ◌≡◌, ◌≢◌, refl, Bool, true, false, ◌⊎◌, inl, inr, List, [], ◌∷◌, arith, ◌==◌,
  ◌↔◌, some, Bool-cases, ==_iff,
}
use huginn_io.Influx.Queue.{
  Batch, RetryQueue, pop_front_of, pop_if_front, poll_batch, peek, front, finished,
}

-- Either the front is the batch that was written, and it alone goes; or the front is another batch,
-- or there is none, and the queue stays as it was.
abbrev pub Removes : Batch → RetryQueue → RetryQueue × Bool → Type 0
Removes written q r =
    ((b : Batch) × (q.inner.batches ≡ b ∷ r.0.inner.batches) × (b.id ≡ written.id) × (r.1 ≡ true))
    ⊎ (((b : Batch) → peek q ≡ some b → b.id ≢ written.id) × (r.0 ≡ q) × (r.1 ≡ false))

pop_front_of-Removes :
    (q : RetryQueue) (written : Batch) (bs : List Batch)
    → q.inner.batches ≡ bs
    → Removes written q (pop_front_of q written bs)
unfolding pop_front_of peek front
pop_front_of-Removes q written [] e = inr (λ b h. ground arith, refl, refl)
pop_front_of-Removes q written (b ∷ rest) e = elim (Bool-cases (b.id == written.id)) [
  | inl hit ↦ rw hit (inl (b, e, (==_iff b.id written.id).0 hit, refl))
  | inr miss ↦ rw miss (inr (λ front h. ground arith, refl, refl))
]

-- pop_if_front removes exactly the front batch and returns true if the front has the id of the
-- written batch; otherwise it changes nothing and returns false.
pub pop_if_front-Removes :
    (q : RetryQueue) (written : Batch) → Removes written q (pop_if_front q written)
unfolding pop_if_front
pop_if_front-Removes q written = pop_front_of-Removes q written q.inner.batches refl

-- A waiting writer is told to stop exactly when the queue is closed and empty.
pub poll_batch_finished_iff :
    (q : RetryQueue) → (poll_batch q ≡ finished) ↔ ((q.closed ≡ true) × (q.inner.batches ≡ []))
unfolding poll_batch peek front
poll_batch_finished_iff q = ground arith

pop_front_of_count :
    (q : RetryQueue) (written : Batch) (bs : List Batch)
    → q.inner.batches ≡ bs
    → let r = (pop_front_of q written bs).0 in
      (length q.inner.batches ≤ suc (length r.inner.batches))
      × (length r.inner.batches ≤ length q.inner.batches)
      × (r.stats.dropped_batches ≡ q.stats.dropped_batches)
      × (r.stats.written_batches ≡ q.stats.written_batches)
      × (r.stats.rejected_batches ≡ q.stats.rejected_batches)
unfolding pop_front_of set_queue_depth
pop_front_of_count q written [] e = ground arith
pop_front_of_count q written (b ∷ rest) e = ground arith

-- At most one batch goes, and no counter but the depth moves.
pub pop_if_front_count :
    (q : RetryQueue) (written : Batch)
    → let r = (pop_if_front q written).0 in
      (length q.inner.batches ≤ suc (length r.inner.batches))
      × (length r.inner.batches ≤ length q.inner.batches)
      × (r.stats.dropped_batches ≡ q.stats.dropped_batches)
      × (r.stats.written_batches ≡ q.stats.written_batches)
      × (r.stats.rejected_batches ≡ q.stats.rejected_batches)
unfolding pop_if_front
pop_if_front_count q written = pop_front_of_count q written q.inner.batches refl

pop_front_of_same :
    (q : RetryQueue) (b : Batch) (rest : List Batch)
    → let r = (pop_front_of q b (b ∷ rest)).0 in
      (r.inner.batches ≡ rest)
      × (r.closed ≡ q.closed)
      × (r.stats.written_batches ≡ q.stats.written_batches)
      × (r.stats.rejected_batches ≡ q.stats.rejected_batches)
unfolding pop_front_of set_queue_depth
pop_front_of_same q b rest = ground arith

-- The front itself goes, and no counter but the depth moves.
pub pop_if_front_same :
    (q : RetryQueue) (b : Batch) (rest : List Batch)
    → q.inner.batches ≡ b ∷ rest
    → let r = (pop_if_front q b).0 in
      (r.inner.batches ≡ rest)
      × (r.closed ≡ q.closed)
      × (r.stats.written_batches ≡ q.stats.written_batches)
      × (r.stats.rejected_batches ≡ q.stats.rejected_batches)
unfolding pop_if_front
pop_if_front_same q b rest e = simp e (pop_front_of_same q b rest)
