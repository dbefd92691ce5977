-- ===== src/Influx/LineProtocol.antt =====
-- crates/huginn-influx/src/writer.rs: the InfluxDB line protocol and the query encoding.
pub mod Escape
pub mod Point
pub mod Url
pub mod Tests
use huginn_io.Prelude.{
  ℕ, ◌+◌, ◌-◌, ◌*◌, ◌/◌, ◌%◌, Bool, true, false, ◌&&◌, ◌||◌, List, [], ◌∷◌, ◌++◌, Option, none,
  some, ltb, leb, ◌==◌, if◌then◌else◌, Text, Bytes, codes,
}
use huginn_io.Core.Decimal.{show_nat}
use huginn_io.Core.Platform.{Platform}
use huginn_io.Core.Types.{ProbeResult}

-- `str::replace` of one character by a text.
replace : ℕ → Text → Text → Text
replace from to [] = []
replace from to (c ∷ s) = let rest = replace from to s in if c == from then to ++ rest else c ∷ rest

unfoldable pub escape_tag : Text → Text
unfolding replace
escape_tag s = replace b' ' (b'\\' ∷ b' ' ∷ []) (
    replace b'=' (b'\\' ∷ b'=' ∷ [])
      (replace b',' (b'\\' ∷ b',' ∷ []) (replace b'\\' (b'\\' ∷ b'\\' ∷ []) s)))

unfoldable pub escape_field_str : Text → Text
unfolding replace
escape_field_str s = replace b'\r' (b'\\' ∷ b'r' ∷ []) (
    replace b'\n' (b'\\' ∷ b'n' ∷ [])
      (replace b'"' (b'\\' ∷ b'"' ∷ []) (replace b'\\' (b'\\' ∷ b'\\' ∷ []) s)))

-- `,{key}={value}` for each reading.
pub metric_fields : (p : Platform) → List (Text × p.F64) → Text
metric_fields p [] = []
metric_fields p ((key, value) ∷ ms) =
    b',' ∷ (escape_tag key ++ (b'=' ∷ (p.show_f64 value ++ metric_fields p ms)))

status_field : Option ℕ → Text
status_field none = []
status_field (some code) = codes ",status_code=" ++ (show_nat code ++ b'i' ∷ [])

error_field : Option Text → Text
error_field none = []
error_field (some err) = codes ",error=\"" ++ (escape_field_str err ++ b'"' ∷ [])

module _ {p : Platform} where
  -- The field set and the timestamp, all that follows the tags.
  unfoldable pub line_fields : ProbeResult p → Text
  unfolding metric_fields status_field error_field
  line_fields r =
      codes "up="
      ++ ((if r.up then b'1' ∷ [] else b'0' ∷ [])
          ++ (codes "i,response_ms="
              ++ (p.show_fixed 3 r.response_ms
                  ++ (status_field r.status_code
                      ++ (error_field r.error
                          ++ (metric_fields p r.metrics ++ (b' ' ∷ p.show_millis r.timestamp)))))))

  unfoldable pub to_line_protocol : ProbeResult p → Text
  unfolding line_fields
  to_line_protocol r =
      codes "probe_result,probe_name="
      ++ (escape_tag r.probe_name
          ++ (codes ",probe_type="
              ++ (escape_tag r.probe_type
                  ++ (codes ",target=" ++ (escape_tag r.target ++ (b' ' ∷ line_fields r))))))

-- `.join("\n")`
unfoldable pub join_lines : List Text → Text
join_lines [] = []
join_lines (x ∷ []) = x
join_lines (x ∷ y ∷ xs) = x ++ (b'\n' ∷ join_lines (y ∷ xs))

-- `s.bytes()`: the UTF-8 encoding of one character, and of a text.
utf8_char : ℕ → Bytes
utf8_char c =
    if ltb c 0x80
    then c ∷ []
    else if ltb c 0x800
    then (0xc0 + c / 64) ∷ (0x80 + c % 64) ∷ []
    else if ltb c 0x10000
    then (0xe0 + c / 4096) ∷ (0x80 + c / 64 % 64) ∷ (0x80 + c % 64) ∷ []
    else (0xf0 + c / 262144) ∷ (0x80 + c / 4096 % 64) ∷ (0x80 + c / 64 % 64) ∷ (0x80 + c % 64) ∷ []

unfoldable pub utf8 : Text → Bytes
unfolding utf8_char
utf8 [] = []
utf8 (c ∷ s) = utf8_char c ++ utf8 s

-- The bytes that stand for themselves in a query.
unfoldable pub is_unreserved : ℕ → Bool
is_unreserved b =
    (leb b'A' b && leb b b'Z')
    || (leb b'a' b && leb b b'z')
    || (leb b'0' b && leb b b'9')
    || b == b'-'
    || b == b'_'
    || b == b'.'
    || b == b'~'

-- One upper-case hexadecimal digit.
hex_upper : ℕ → ℕ
hex_upper d = if ltb d 10 then b'0' + d else b'A' + (d - 10)

encode_byte : ℕ → Text
unfolding is_unreserved hex_upper
encode_byte b =
    if is_unreserved b then b ∷ [] else b'%' ∷ hex_upper (b / 16) ∷ hex_upper (b % 16) ∷ []

encode_bytes : Bytes → Text
unfolding encode_byte
encode_bytes [] = []
encode_bytes (b ∷ bs) = encode_byte b ++ encode_bytes bs

unfoldable pub urlencode : Text → Text
unfolding encode_bytes utf8
urlencode s = encode_bytes (utf8 s)
