-- ===== src/Influx/Queue.antt =====
-- crates/huginn-influx/src/queue.rs: the bounded queue of batches between batcher and writer. Each
-- method runs under the queue's lock, so it is one step; the waiting of `wait_for_batch` is the
-- result `wait`. A warning is only logged.
pub mod Invariant
pub mod Eviction
pub mod Removal
mod Tests
use huginn_io.Prelude.{
  ℕ, suc, ◌+◌, Bool, true, false, List, [], ◌∷◌, ◌++◌, Option, none, some, length, ltb, ◌==◌,
  if◌then◌else◌, Text, byte_len, wrapping_add, wrapping_sub,
}
use huginn_io.Core.Stats.{WriteStats, set_queue_depth, record_eviction}

-- An `Arc<str>`: `id` is the allocation that `Arc::ptr_eq` compares.
pub record Batch : Type 0 where
  pub id : ℕ
  pub lines : Text

unfoldable pub batch_len : Batch → ℕ
batch_len b = byte_len b.lines

pub record Inner : Type 0 where
  pub batches : List Batch
  pub bytes : ℕ

pub record RetryQueue : Type 0 where
  pub inner : Inner
  pub capacity_bytes : ℕ
  pub closed : Bool
  pub stats : WriteStats

unfoldable pub new : ℕ → WriteStats → RetryQueue
new capacity_bytes stats = record {
  inner = record { batches = []; bytes = 0 };
  capacity_bytes = capacity_bytes;
  closed = false;
  stats = stats;
}

-- The `while` loop of `push`: batches leave at the front until the new one fits, or none is left.
unfoldable pub evict : ℕ → ℕ → List Batch → ℕ → WriteStats → Inner × WriteStats
evict capacity len [] bytes stats = (record { batches = []; bytes = bytes }, stats)
evict capacity len (old ∷ rest) bytes stats =
    if ltb capacity (wrapping_add bytes len)
    then evict capacity len rest (wrapping_sub bytes (batch_len old))
        (record_eviction stats (batch_len old))
    else (record { batches = old ∷ rest; bytes = bytes }, stats)

-- What `push` does once there is room.
unfoldable pub push_back : RetryQueue → Batch → Inner × WriteStats → RetryQueue
push_back q batch (inner, stats) =
    let batches = inner.batches ++ batch ∷ [] in
    let bytes = wrapping_add inner.bytes (batch_len batch) in
    record q {
      inner = record { batches = batches; bytes = bytes };
      stats = set_queue_depth stats (length batches) bytes;
    }

unfoldable pub push : RetryQueue → Batch → RetryQueue
unfolding push_back
push q batch =
    push_back q batch
      (evict q.capacity_bytes (batch_len batch) q.inner.batches q.inner.bytes q.stats)

unfoldable pub front : List Batch → Option Batch
front [] = none
front (b ∷ bs) = some b

unfoldable pub peek : RetryQueue → Option Batch
unfolding front
peek q = front q.inner.batches

-- `pop_if_front` on the batches that the lock shows it.
pop_front_of : RetryQueue → Batch → List Batch → RetryQueue × Bool
pop_front_of q written [] = (q, false)
pop_front_of q written (b ∷ rest) =
    let bytes = wrapping_sub q.inner.bytes (batch_len b) in
    if b.id == written.id
    then (
      record q {
        inner = record { batches = rest; bytes = bytes };
        stats = set_queue_depth q.stats (length rest) bytes;
      },
      true,
    )
    else (q, false)

unfoldable pub pop_if_front : RetryQueue → Batch → RetryQueue × Bool
unfolding pop_front_of
pop_if_front q written = pop_front_of q written q.inner.batches

-- What `wait_for_batch` finds when it looks: a batch, the end, or nothing yet.
pub data Waiting : Type 0 where
  ready : Batch → Waiting
  finished : Waiting
  wait : Waiting

-- Both looks of a round, before and after it registers with `notify`, are this one.
unfoldable pub poll_batch : RetryQueue → Waiting
unfolding peek
poll_batch q = elim (peek q) [ some b ↦ ready b | none ↦ if q.closed then finished else wait ]

unfoldable pub close : RetryQueue → RetryQueue
close q = record q { closed = true }

unfoldable pub dropped_batches : RetryQueue → ℕ
dropped_batches q = q.stats.dropped_batches

unfoldable pub dropped_bytes : RetryQueue → ℕ
dropped_bytes q = q.stats.dropped_bytes
