-- ===== src/Influx/Writer/Outcome.antt =====
-- crates/huginn-influx/src/writer.rs: which failures `write_lines` calls worth another attempt,
-- and what `run_writer` does after each answer.
use huginn_io.Prelude.{
  ℕ, suc, min, ◌+◌, ◌≤◌, ◌<◌, ◌≡◌, ◌≢◌, ◌⊎◌, ◌↔◌, refl, true, false, List, [], ◌∷◌, Option, none,
  some, arith, Text, inl, inr,
}
use huginn_io.Core.Stats.{record_written, record_rejected}
use huginn_io.Influx.Queue.{Batch, RetryQueue, batch_len, pop_if_front, peek}
use huginn_io.Influx.Queue.Removal.{pop_if_front-Removes}
use huginn_io.Influx.Writer.Retry.{retry_delay-le}
use huginn_io.Influx.Writer.{
  WriteError, answered, write_lines, is_retryable, WriterConfig, waiting, sleeping, on_outcome,
  retry_delay, from_millis, with_stats,
}

-- What an answer with this status comes to: no error in 200 to 299, and otherwise an error that is
-- worth another attempt exactly for 408, 429 and from 500 on.
abbrev pub Judges : ℕ → Option WriteError → Type 0
Judges status none = (200 ≤ status) × (status ≤ 299)
Judges status (some e) =
    ((status < 200) ⊎ (299 < status))
    × ((is_retryable e ≡ true) ↔ ((500 ≤ status) ⊎ (status ≡ 429) ⊎ (status ≡ 408)))

-- An answer with a status is a success exactly for 200 to 299, and otherwise an error that is
-- retryable exactly for 408, 429 and from 500 on.
pub write_lines-Judges :
    (status : ℕ) (header : Option Text) (body : Text)
    → Judges status (write_lines (answered status header body))
unfolding write_lines is_retryable
write_lines-Judges status header body = ground arith

-- Ids grow along the queue, from `lo` on and below `n`.
abbrev pub Ascends : ℕ → ℕ → List Batch → Type 0
Ascends lo n [] = lo ≤ n
Ascends lo n (b ∷ bs) = (lo ≤ b.id) × Ascends (suc b.id) n bs

front-Ascends :
    (lo n : ℕ) (b : Batch) (bs : List Batch) (q : RetryQueue)
    → Ascends (suc lo) n bs
    → q.inner.batches ≡ bs
    → peek q ≡ some b
    → b.id ≢ lo
unfolding peek
front-Ascends lo n b [] q a e h = ground arith
front-Ascends lo n b (x ∷ bs) q a e h = ground arith

pop_if_front_front :
    (lo n : ℕ) (q : RetryQueue) (written b : Batch)
    → Ascends lo n q.inner.batches
    → peek (pop_if_front q written).0 ≡ some b
    → b.id ≢ written.id
pop_if_front_front lo n q written b a h = elim (pop_if_front-Removes q written) [
  | inl (x, split, same, _) ↦
      rw (← same) (front-Ascends x.id n b _ (pop_if_front q written).0 ((rw split at a).1) refl h)
  | inr (other, kept, _) ↦ other b (rw kept at h)
]

-- If ids ascend along the queue and the outcome is a success or an error that is not retryable, the
-- writer goes back to waiting and the batch it held is not at the front of the queue.
pub on_outcome_settles :
    (cfg : WriterConfig) (now lo n attempt : ℕ) (q : RetryQueue) (batch : Batch)
    (outcome : Option WriteError)
    → Ascends lo n q.inner.batches
    → ((e : WriteError) → outcome ≡ some e → is_retryable e ≡ false)
    → let r = on_outcome cfg now q batch attempt outcome in
      (r.1 ≡ waiting) × ((b : Batch) → peek r.0 ≡ some b → b.id ≢ batch.id)
unfolding on_outcome
on_outcome_settles cfg now lo n attempt q batch none a h = (
  refl,
  λ b front.
      pop_if_front_front lo n (with_stats (λ s. record_written s (batch_len batch) now) q) batch b a
        front,
)
on_outcome_settles cfg now lo n attempt q batch (some e) a h =
    rw (h e refl)
      (refl, λ b front. pop_if_front_front lo n (with_stats record_rejected q) batch b a front)

-- After a retryable error the queue is unchanged and the writer sleeps before it sends the same
-- batch again, no longer than the ceiling.
pub on_outcome_retries :
    (cfg : WriterConfig) (now attempt : ℕ) (q : RetryQueue) (batch : Batch) (e : WriteError)
    → is_retryable e ≡ true
    → let r = on_outcome cfg now q batch attempt (some e) in
      (again delay : ℕ) × (r ≡ (q, sleeping batch again delay))
      × (delay ≤ from_millis cfg.max_backoff_ms)
unfolding on_outcome
on_outcome_retries cfg now attempt q batch e h =
    (min (attempt + 1) 0xffffffff, retry_delay cfg e attempt, simp h, retry_delay-le cfg e attempt)
