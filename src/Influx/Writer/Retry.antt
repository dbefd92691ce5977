-- ===== src/Influx/Writer/Retry.antt =====
-- crates/huginn-influx/src/writer.rs: how long `run_writer` waits before it tries again.
use huginn_io.Prelude.{ℕ, ◌*◌, ◌/◌, ◌^◌, ◌<◌, ◌≤◌, min, ◌≡◌, some, arith, u64_mod}
use huginn_io.Influx.Writer.{
  WriteError, WriterConfig, backoff_delay, retry_delay, retry_after_secs, nanos_per_sec,
  from_millis, from_secs,
}

-- If the seconds of the ceiling fit a u64, the backoff is the first delay times two to the attempt,
-- the attempt capped at 31, and the whole capped at the ceiling.
pub backoff_delay-eq-min :
    (initial max attempt : ℕ)
    → max / nanos_per_sec < u64_mod
    → backoff_delay initial max attempt ≡ min (initial * 2 ^ min attempt 31) max
unfolding backoff_delay
backoff_delay-eq-min initial max attempt h = ground arith

-- No wait before a retry exceeds the configured ceiling, also when the server asks for a longer
-- one.
pub retry_delay-le :
    (cfg : WriterConfig) (e : WriteError) (attempt : ℕ)
    → retry_delay cfg e attempt ≤ from_millis cfg.max_backoff_ms
unfolding retry_delay
retry_delay-le cfg e attempt = ground arith

-- A `Retry-After` that the ceiling allows is waited out in full.
pub retry_delay_retry_after :
    (cfg : WriterConfig) (e : WriteError) (attempt secs : ℕ)
    → retry_after_secs e ≡ some secs
    → retry_delay cfg e attempt ≡ min (from_secs secs) (from_millis cfg.max_backoff_ms)
unfolding retry_delay
retry_delay_retry_after cfg e attempt secs h = ground arith
