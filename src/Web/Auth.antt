-- ===== src/Web/Auth.antt =====
-- crates/huginn-web/src/prometheus.rs: `request_is_authorized` and the handler of `/metrics`. The
-- `Authorization` header is its text, if the request has it and it is visible ASCII.
pub mod Bits
use Prim.Native.Nat.{bit_or, bit_xor}
use huginn_io.Influx.LineProtocol.{utf8}
use huginn_io.Prelude.{
  ℕ, ◌≡◌, ◌↔◌, Bool, true, false, not, List, [], ◌∷◌, ◌++◌, Option, none, some, length, ◌==◌,
  if◌then◌else◌, Text, Bytes, codes, strip_prefix,
}

-- The loop over both slices at once, from the differences found so far.
diff_onto : ℕ → Bytes → Bytes → ℕ
diff_onto diff (x ∷ a) (y ∷ b) = diff_onto (bit_or diff (bit_xor x y)) a b
diff_onto diff _ _ = diff

unfoldable pub constant_time_eq : Bytes → Bytes → Bool
unfolding diff_onto
constant_time_eq a b = if not (length a == length b) then false else diff_onto 0 a b == 0

unfoldable pub request_is_authorized : Option Text → Text → Bool
unfolding constant_time_eq
request_is_authorized none key = false
request_is_authorized (some value) key = elim (strip_prefix (codes "Bearer ") value) [
  | none ↦ false
  | some presented ↦ constant_time_eq (utf8 presented) (utf8 key)
]

-- A status, one header and a body.
pub record Reply : Type 0 where
  pub status : ℕ
  pub header : Text × Text
  pub body : Text

abbrev pub content_type : Text
content_type = codes "text/plain; version=0.0.4; charset=utf-8"

abbrev pub unauthorized : Reply
unauthorized = record {
  status = 401;
  header = (codes "www-authenticate", codes "Bearer");
  body = codes "unauthorized\n";
}

-- The answer with what `render` gave.
abbrev pub exposition : Text → Reply
exposition rendered = record {
  status = 200;
  header = (codes "content-type", content_type);
  body = rendered;
}

unfoldable pub handle_prometheus : Option Text → Option Text → Text → Reply
handle_prometheus none header rendered = exposition rendered
handle_prometheus (some key) header rendered =
    if not (request_is_authorized header key) then unauthorized else exposition rendered
