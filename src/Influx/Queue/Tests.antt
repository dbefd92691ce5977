-- ===== src/Influx/Queue/Tests.antt =====
-- The queue's theorems at a small queue: room for ten bytes, with two batches of four.
use huginn_io.Core.Stats.{default_stats}
use huginn_io.Influx.Queue.Eviction.{push_drops_oldest, Needed}
use huginn_io.Influx.Queue.Invariant.{IsValid, push-IsValid, pop_if_front-IsValid, total}
use huginn_io.Influx.Queue.Removal.{Removes, pop_if_front-Removes, poll_batch_finished_iff}
use huginn_io.Influx.Queue.{
  Batch, RetryQueue, push, pop_if_front, poll_batch, finished, batch_len, dropped_batches,
  dropped_bytes,
}
use huginn_io.Prelude.{
  ◌+◌, ◌≤◌, ◌≡◌, ◌↔◌, ◌⊎◌, true, false, List, [], ◌∷◌, ◌++◌, arith, codes, byte_len, len_utf8,
  length, wrapping_add,
}

abbrev first : Batch
first = record { id = 0; lines = codes "aaaa" }

abbrev second : Batch
second = record { id = 1; lines = codes "bbbb" }

abbrev third : Batch
third = record { id = 2; lines = codes "cccccc" }

abbrev two_batches : RetryQueue
two_batches = record {
  inner = record { batches = first ∷ second ∷ []; bytes = 8 };
  capacity_bytes = 10;
  closed = false;
  stats = record default_stats { queue_batches = 2; queue_bytes = 8 };
}

two_batches-IsValid : IsValid two_batches
unfolding batch_len byte_len len_utf8
two_batches-IsValid = omega arith

fits : total two_batches.inner.batches + batch_len third ≤ 14
unfolding batch_len byte_len len_utf8
fits = omega arith

push-IsValid_example : IsValid (push two_batches third)
push-IsValid_example = push-IsValid two_batches third two_batches-IsValid (omega (arith, fits))

pop_if_front-IsValid_example : IsValid (pop_if_front two_batches first).0
pop_if_front-IsValid_example = pop_if_front-IsValid two_batches first two_batches-IsValid

pop_if_front-Removes_example : Removes second two_batches (pop_if_front two_batches second)
pop_if_front-Removes_example = pop_if_front-Removes two_batches second

poll_batch_finished_iff_example :
    (poll_batch two_batches ≡ finished)
    ↔ ((two_batches.closed ≡ true) × (two_batches.inner.batches ≡ []))
poll_batch_finished_iff_example = poll_batch_finished_iff two_batches

push_drops_oldest_example :
    (gone kept : List Batch) × (two_batches.inner.batches ≡ gone ++ kept)
    × ((push two_batches third).inner.batches ≡ kept ++ third ∷ [])
    × ((kept ≡ []) ⊎ (total kept + batch_len third ≤ two_batches.capacity_bytes))
    × Needed two_batches.capacity_bytes (batch_len third) gone kept
    × (dropped_batches (push two_batches third)
        ≡ wrapping_add (dropped_batches two_batches) (length gone))
    × (dropped_bytes (push two_batches third)
        ≡ wrapping_add (dropped_bytes two_batches) (total gone))
push_drops_oldest_example =
    push_drops_oldest two_batches third two_batches-IsValid (omega (arith, fits))
