-- ===== src/Influx/Writer/Tests.antt =====
-- The writer's theorems at concrete answers, and at a run of both tasks.
use huginn_io.Core.Samples.{sample_platform, sample_up, sample_down}
use huginn_io.Core.Stats.{default_stats}
use huginn_io.Influx.Batcher.{completed, hub_closed}
use huginn_io.Influx.Queue.{Batch, RetryQueue, new, peek}
use huginn_io.Influx.Writer.Accounting.{HasRoom, IsAccounted, run-IsAccounted}
use huginn_io.Influx.Writer.Fates.{fates_of}
use huginn_io.Influx.Writer.Order.{IsInLine, run-IsInLine}
use huginn_io.Influx.Writer.Outcome.{Judges, write_lines-Judges, on_outcome_settles}
use huginn_io.Influx.Writer.Retry.{backoff_delay-eq-min, retry_delay-le, retry_delay_retry_after}
use huginn_io.Influx.Writer.{
  answered, write_lines, server, client, is_retryable, WriterConfig, retry_delay, retry_after_secs,
  backoff_delay, from_millis, from_secs, waiting, on_outcome, Pipeline, Action, batch_event, poll,
  answer, wake, run,
}
use huginn_io.Prelude.{
  ◌*◌, ◌^◌, ◌≤◌, ◌≡◌, ◌≢◌, min, refl, true, false, List, [], ◌∷◌, some, none, arith, codes, length,
}

abbrev sample_writer : WriterConfig
sample_writer = record { initial_backoff_ms = 500; max_backoff_ms = 30000 }

abbrev sample_start : Pipeline sample_platform
sample_start = record {
  batcher = record { queue = new 1000 default_stats; buffer = []; next_id = 0; running = true };
  phase = waiting;
}

-- Two results in batches of one, the first of which is written at the second attempt.
abbrev sample_actions : List (Action sample_platform)
sample_actions =
    batch_event (completed sample_up)
    ∷ poll
    ∷ answer 100 (answered 503 none [])
    ∷ batch_event (completed sample_down)
    ∷ wake
    ∷ answer 101 (answered 204 none [])
    ∷ batch_event hub_closed
    ∷ poll
    ∷ []

sample_start-HasRoom : HasRoom (length sample_actions) sample_start.batcher
unfolding new
sample_start-HasRoom = omega arith

run-IsAccounted_example :
    IsAccounted sample_start.batcher
      (fates_of 1 sample_writer sample_start sample_actions)
      (run 1 sample_writer sample_start sample_actions).batcher
run-IsAccounted_example =
    run-IsAccounted 1 sample_writer sample_start sample_actions sample_start-HasRoom

sample_start-IsInLine : IsInLine sample_start
unfolding new
sample_start-IsInLine = omega arith

run-IsInLine_example : IsInLine (run 1 sample_writer sample_start sample_actions)
run-IsInLine_example =
    run-IsInLine 1 sample_writer sample_start sample_actions sample_start-IsInLine

abbrev one_batch : Batch
one_batch = record { id = 3; lines = codes "abc" }

abbrev next_batch : Batch
next_batch = record { id = 4; lines = codes "de" }

abbrev sample_queue : RetryQueue
sample_queue = record {
  inner = record { batches = one_batch ∷ next_batch ∷ []; bytes = 5 };
  capacity_bytes = 100;
  closed = false;
  stats = record default_stats { queue_batches = 2; queue_bytes = 5 };
}

write_lines-Judges_example : Judges 429 (write_lines (answered 429 (some (codes " 7 ")) []))
write_lines-Judges_example = write_lines-Judges 429 (some (codes " 7 ")) []

backoff_delay-eq-min_example :
    backoff_delay (from_millis 500) (from_millis 30000) 3
    ≡ min (from_millis 500 * 2 ^ min 3 31) (from_millis 30000)
backoff_delay-eq-min_example =
    backoff_delay-eq-min (from_millis 500) (from_millis 30000) 3 (omega arith)

retry_delay-le_example :
    retry_delay sample_writer (server 503 [] (some 90)) 2 ≤ from_millis sample_writer.max_backoff_ms
retry_delay-le_example = retry_delay-le sample_writer (server 503 [] (some 90)) 2

retry_delay_retry_after_example :
    retry_delay sample_writer (server 503 [] (some 9)) 2
    ≡ min (from_secs 9) (from_millis sample_writer.max_backoff_ms)
unfolding retry_after_secs
retry_delay_retry_after_example =
    retry_delay_retry_after sample_writer (server 503 [] (some 9)) 2 9 refl

on_outcome_settles_example :
    let r = on_outcome sample_writer 100 sample_queue one_batch 0 (some (client 400 [])) in
    (r.1 ≡ waiting) × ((b : Batch) → peek r.0 ≡ some b → b.id ≢ one_batch.id)
unfolding is_retryable
on_outcome_settles_example =
    on_outcome_settles sample_writer 100 3 5 0 sample_queue one_batch (some (client 400 []))
      (omega arith) (λ e h. ground arith)
