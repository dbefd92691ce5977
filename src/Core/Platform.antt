-- ===== src/Core/Platform.antt =====
-- What the crates take from floating point and from chrono. `f64` and `DateTime<Utc>` are types
-- that the model does not look into: every theorem holds for any choice of them and of these
-- operations, unless it names a law that it needs.
use huginn_io.Prelude.{ℕ, Bool, Text}

pub record Platform : Type 1 where
  -- `f64`, with the operations and the formats that the program uses.
  pub F64 : Type 0
  pub of_nat : ℕ → F64
  pub f64_lt : F64 → F64 → Bool
  pub f64_neg : F64 → F64
  pub f64_div : F64 → F64 → F64
  pub is_finite : F64 → Bool
  -- `{}` and `{:.n}`.
  pub show_f64 : F64 → Text
  pub show_fixed : ℕ → F64 → Text
  -- `DateTime<Utc>`; the text of its `timestamp_millis()`, and its `timestamp() as f64`.
  pub Timestamp : Type 0
  pub show_millis : Timestamp → Text
  pub unix_seconds : Timestamp → F64
