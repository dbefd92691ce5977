-- ===== src/Probes.antt =====
-- crates/huginn-probes/src/lib.rs: the deadline that every probe runs under. What the network does
-- is an input.
pub mod Greeting
pub mod Kinds
pub mod Registry
pub mod Clients
pub mod Tests
use huginn_io.Prelude.{ℕ, ◌++◌, [], ◌∷◌, Text, codes}
use huginn_io.Core.Decimal.{show_nat}

-- How a future ends under `tokio::time::timeout`: with a value, with an error, or not in time.
pub data Timed {ℓ} (A : Type ℓ) : Type ℓ where
  done : A → Timed A
  broke : Text → Timed A
  elapsed : Timed A

-- `Result<T, String>`
pub data Attempt {ℓ} (A : Type ℓ) : Type ℓ where
  got : A → Attempt A
  missed : Text → Attempt A

unfoldable pub with_probe_timeout {ℓ} : {A : Type ℓ} → Text → Timed A → Attempt A
with_probe_timeout timeout_msg (done val) = got val
with_probe_timeout timeout_msg (broke e) = missed e
with_probe_timeout timeout_msg elapsed = missed timeout_msg

-- `timeout after {}s`
unfoldable pub timeout_msg : ℕ → Text
timeout_msg secs = codes "timeout after " ++ (show_nat secs ++ b's' ∷ [])
