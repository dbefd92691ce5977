-- ===== src/Core/Types.antt =====
-- crates/huginn-core/src/types.rs: the result of one probe run, and the escaping of control
-- characters. `Utc::now()` is the argument `now`.
pub mod Escape
pub mod Results
mod Tests
use huginn_io.Prelude.{
  ℕ, ◌+◌, ◌/◌, ◌%◌, ◌-◌, Bool, true, false, not, ◌&&◌, ◌||◌, List, [], ◌∷◌, ◌++◌, Option, none,
  some, ltb, leb, ◌==◌, if◌then◌else◌, Text, codes,
}
use huginn_io.Core.Platform.{Platform}
use huginn_io.Core.BTree

-- `char::is_control`: U+0000 to U+001F and U+007F to U+009F.
unfoldable pub is_control : ℕ → Bool
is_control c = ltb c 0x20 || (leb 0x7f c && ltb c 0xa0)

-- One lower-case hexadecimal digit.
abbrev hex_digit : ℕ → ℕ
hex_digit d = if ltb d 10 then b'0' + d else b'a' + (d - 10)

-- What the loop appends for one character; `{:02x}` of a value below 0x100 is two digits.
escape_char : ℕ → Text
unfolding is_control
escape_char c =
    if c == b'\n'
    then b'\\' ∷ b'n' ∷ []
    else if c == b'\r'
    then b'\\' ∷ b'r' ∷ []
    else if c == b'\t'
    then b'\\' ∷ b't' ∷ []
    else if is_control c
    then b'\\' ∷ b'x' ∷ hex_digit (c / 16) ∷ hex_digit (c % 16) ∷ []
    else c ∷ []

escape_onto : Text → Text → Text
unfolding escape_char
escape_onto out [] = out
escape_onto out (c ∷ s) = escape_onto (out ++ escape_char c) s

-- `s.chars().any(char::is_control)`
pub any_control : Text → Bool
unfolding is_control
any_control [] = false
any_control (c ∷ s) = is_control c || any_control s

unfoldable pub escape_control_chars : Text → Text
unfolding any_control escape_onto
escape_control_chars s = if not (any_control s) then s else escape_onto [] s

pub record ProbeResult (p : Platform) : Type 0 where
  pub probe_name : Text
  pub probe_type : Text
  pub target : Text
  pub up : Bool
  pub response_ms : p.F64
  pub status_code : Option ℕ
  pub error : Option Text
  pub timestamp : p.Timestamp
  pub metrics : List (Text × p.F64)

-- `metric_keys::TLS_CERT_EXPIRY_DAYS`
abbrev pub tls_cert_expiry_days : Text
tls_cert_expiry_days = codes "tls_cert_expiry_days"

module _ {p : Platform} where
  unfoldable pub success : p.Timestamp → Text → Text → Text → p.F64 → Option ℕ → ProbeResult p
  success now name kind target response_ms status_code = record {
    probe_name = name;
    probe_type = kind;
    target = target;
    up = true;
    response_ms = response_ms;
    status_code = status_code;
    error = none;
    timestamp = now;
    metrics = [];
  }

  unfoldable pub failure : p.Timestamp → Text → Text → Text → p.F64 → Text → ProbeResult p
  failure now name kind target response_ms error = record {
    probe_name = name;
    probe_type = kind;
    target = target;
    up = false;
    response_ms = response_ms;
    status_code = none;
    error = some (escape_control_chars error);
    timestamp = now;
    metrics = [];
  }

  unfoldable pub with_metric : ProbeResult p → Text → p.F64 → ProbeResult p
  with_metric r key value = record r { metrics = BTree.insert key value r.metrics }
