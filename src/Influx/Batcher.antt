-- ===== src/Influx/Batcher.antt =====
-- crates/huginn-influx/src/writer.rs: `run_batcher` and `enqueue`. What `select!` chooses next, an
-- event of the hub or the flush timer, is an input; the timer's length is not modelled.
pub mod Delivery
mod Tests
use huginn_io.Prelude.{
  ℕ, suc, Bool, true, false, List, [], ◌∷◌, ◌++◌, map, length, leb, if◌then◌else◌,
}
use huginn_io.Core.Platform.{Platform}
use huginn_io.Core.Types.{ProbeResult}
use huginn_io.Influx.LineProtocol.{to_line_protocol, join_lines}
use huginn_io.Influx.Queue.{RetryQueue, Batch, push, close}

-- What wakes the loop: an event received, a lag, the hub's end, or the flush deadline.
pub data Event (p : Platform) : Type 0 where
  completed : ProbeResult p → Event p
  lagged : ℕ → Event p
  hub_closed : Event p
  deadline : Event p

-- `next_id` names the allocation of the next batch; `running` ends with the loop.
pub record Batcher (p : Platform) : Type 0 where
  pub queue : RetryQueue
  pub buffer : List (ProbeResult p)
  pub next_id : ℕ
  pub running : Bool

module _ {p : Platform} where
  unfoldable pub render : ℕ → List (ProbeResult p) → Batch
  render id results = record { id = id; lines = join_lines (map to_line_protocol results) }

  enqueue_results : Batcher p → List (ProbeResult p) → Batcher p
  enqueue_results b [] = b
  enqueue_results b (r ∷ rs) = record b {
    queue = push b.queue (render b.next_id (r ∷ rs));
    buffer = [];
    next_id = suc b.next_id;
  }

  unfoldable pub enqueue : Batcher p → Batcher p
  unfolding enqueue_results
  enqueue b = enqueue_results b b.buffer

  -- One round of the loop.
  unfoldable pub handle : ℕ → Batcher p → Event p → Batcher p
  unfolding enqueue
  handle batch_size b (completed result) =
      let b' = record b { buffer = b.buffer ++ result ∷ [] } in
      if leb batch_size (length b'.buffer) then enqueue b' else b'
  handle batch_size b (lagged n) = b
  handle batch_size b hub_closed =
      let b' = enqueue b in record b' { queue = close b'.queue; running = false }
  handle batch_size b deadline = enqueue b

  unfoldable pub run_batcher : ℕ → Batcher p → List (Event p) → Batcher p
  unfolding handle
  run_batcher batch_size b [] = b
  run_batcher batch_size b (e ∷ es) =
      let rest = run_batcher batch_size (handle batch_size b e) es in if b.running then rest else b
