-- ===== src/Core/Stats.antt =====
-- crates/huginn-core/src/stats.rs: the write-path counters. An atomic is its current value; a
-- `fetch_add` wraps.
use huginn_io.Prelude.{ℕ, wrapping_add}

pub record WriteStats : Type 0 where
  pub queue_batches : ℕ
  pub queue_bytes : ℕ
  pub dropped_batches : ℕ
  pub dropped_bytes : ℕ
  pub rejected_batches : ℕ
  pub written_batches : ℕ
  pub written_bytes : ℕ
  pub last_write_success_unix : ℕ

-- `WriteStats::default()`
abbrev pub default_stats : WriteStats
default_stats = record {
  queue_batches = 0;
  queue_bytes = 0;
  dropped_batches = 0;
  dropped_bytes = 0;
  rejected_batches = 0;
  written_batches = 0;
  written_bytes = 0;
  last_write_success_unix = 0;
}

unfoldable pub set_queue_depth : WriteStats → ℕ → ℕ → WriteStats
set_queue_depth s batches bytes = record s { queue_batches = batches; queue_bytes = bytes }

unfoldable pub record_eviction : WriteStats → ℕ → WriteStats
record_eviction s bytes = record s {
  dropped_batches = wrapping_add s.dropped_batches 1;
  dropped_bytes = wrapping_add s.dropped_bytes bytes;
}

unfoldable pub record_rejected : WriteStats → WriteStats
record_rejected s = record s { rejected_batches = wrapping_add s.rejected_batches 1 }

unfoldable pub record_written : WriteStats → ℕ → ℕ → WriteStats
record_written s bytes at_unix = record s {
  written_batches = wrapping_add s.written_batches 1;
  written_bytes = wrapping_add s.written_bytes bytes;
  last_write_success_unix = at_unix;
}
