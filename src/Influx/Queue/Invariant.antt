-- ===== src/Influx/Queue/Invariant.antt =====
-- crates/huginn-influx/src/queue.rs: the well-formedness of the queue, its byte count and the
-- published depth.
use huginn_io.Prelude.{
  ℕ, ◌+◌, ◌≤◌, ◌<◌, ◌≡◌, refl, List, [], ◌∷◌, ◌++◌, arith, length, u64_mod, wrapping_add,
  wrapping_sub, wrapping_add_lem, wrapping_sub_lem,
}
use huginn_io.Core.Stats.{WriteStats, set_queue_depth, record_eviction}
use huginn_io.Influx.Queue.{
  Batch, RetryQueue, batch_len, new, evict, push, pop_front_of, pop_if_front,
}

abbrev pub total : List Batch → ℕ
total [] = 0
total (b ∷ bs) = batch_len b + total bs

pub total-append : (xs ys : List Batch) → total (xs ++ ys) ≡ total xs + total ys
total-append [] ys = omega arith
total-append (x ∷ xs) ys = omega (arith, total-append xs ys)

-- The counters of what was dropped are words.
pub record InRange (s : WriteStats) : Type 0 where
  pub batches : s.dropped_batches < u64_mod
  pub bytes : s.dropped_bytes < u64_mod

pub record IsValid (q : RetryQueue) : Type 0 where
  pub counted : q.inner.bytes ≡ total q.inner.batches
  pub in_range : total q.inner.batches < u64_mod
  pub depth_batches : q.stats.queue_batches ≡ length q.inner.batches
  pub depth_bytes : q.stats.queue_bytes ≡ q.inner.bytes
  pub range : InRange q.stats

pub new-IsValid :
    (capacity : ℕ) (s : WriteStats)
    → s.queue_batches ≡ 0
    → s.queue_bytes ≡ 0
    → InRange s
    → IsValid (new capacity s)
unfolding new
new-IsValid capacity s h k r = omega arith

-- The loop keeps the count exact.
pub evict_counted :
    (capacity len : ℕ) (bs : List Batch) (bytes : ℕ) (s : WriteStats)
    → bytes ≡ total bs
    → total bs < u64_mod
    → let r = evict capacity len bs bytes s in
      (r.0.bytes ≡ total r.0.batches) × (total r.0.batches ≤ total bs)
unfolding evict
evict_counted capacity len [] bytes s h k = omega arith
evict_counted capacity len (old ∷ rest) bytes s h k =
    let e : wrapping_sub bytes (batch_len old) ≡ total rest =
      rw (wrapping_sub_lem bytes (batch_len old) (omega arith) (omega arith)) (omega arith) in
    ground (
      arith,
      evict_counted capacity len rest (wrapping_sub bytes (batch_len old))
          (record_eviction s (batch_len old)) e (omega arith),
    )

-- The counters stay words.
evict_range :
    (capacity len : ℕ) (bs : List Batch) (bytes : ℕ) (s : WriteStats)
    → InRange s
    → InRange (evict capacity len bs bytes s).1
unfolding evict record_eviction wrapping_add
evict_range capacity len [] bytes s h = h
evict_range capacity len (old ∷ rest) bytes s h = ground (
  arith,
  evict_range capacity len rest (wrapping_sub bytes (batch_len old))
      (record_eviction s (batch_len old)),
)

-- If a queue is valid and its bytes with the new batch fit a word, the queue after push is valid:
-- its byte count is the sum over its batches and the published depth is its depth.
pub push-IsValid :
    (q : RetryQueue) (b : Batch)
    → IsValid q
    → total q.inner.batches + batch_len b < u64_mod
    → IsValid (push q b)
unfolding push set_queue_depth
push-IsValid q b v fits =
    let kept =
      evict_counted q.capacity_bytes (batch_len b) q.inner.batches q.inner.bytes q.stats v.counted
        v.in_range in
    let range =
      evict_range q.capacity_bytes (batch_len b) q.inner.batches q.inner.bytes q.stats v.range in
    let r = evict q.capacity_bytes (batch_len b) q.inner.batches q.inner.bytes q.stats in
    omega (
      arith,
      kept.0,
      kept.1,
      range,
      total-append r.0.batches (b ∷ []),
      wrapping_add_lem r.0.bytes (batch_len b),
    )

pop_front_of-IsValid :
    (q : RetryQueue) (written : Batch) (bs : List Batch)
    → q.inner.batches ≡ bs
    → IsValid q
    → IsValid (pop_front_of q written bs).0
unfolding pop_front_of set_queue_depth
pop_front_of-IsValid q written [] e v = v
pop_front_of-IsValid q written (b ∷ rest) e v =
    ground (arith, wrapping_sub_lem q.inner.bytes (batch_len b))

-- pop_if_front of any batch keeps a valid queue valid.
pub pop_if_front-IsValid :
    (q : RetryQueue) (written : Batch) → IsValid q → IsValid (pop_if_front q written).0
unfolding pop_if_front
pop_if_front-IsValid q written v = pop_front_of-IsValid q written q.inner.batches refl v
