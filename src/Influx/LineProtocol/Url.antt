-- ===== src/Influx/LineProtocol/Url.antt =====
-- crates/huginn-influx/src/writer.rs: `urlencode`, against a decoder.
use huginn_io.Prelude.{
  ℕ, ◌+◌, ◌-◌, ◌*◌, ◌/◌, ◌%◌, ◌<◌, ◌≡◌, refl, ap, ◌∙◌, true, false, ◌||◌, [], ◌∷◌, ◌++◌, arith,
  ◌==◌, leb, if◌then◌else◌, Text, Bytes, All, All-append, Bool-cases, inl, inr,
}
use huginn_io.Influx.LineProtocol.{
  is_unreserved, hex_upper, encode_byte, encode_bytes, utf8_char, utf8, urlencode,
}

hex_value : ℕ → ℕ
hex_value c = if leb c b'9' then c - b'0' else c - b'A' + 10

-- A decoder of percent triplets.
unfoldable pub urldecode : Text → Bytes
unfolding hex_value
urldecode [] = []
urldecode (c ∷ []) = c ∷ []
urldecode (c ∷ d ∷ []) = c ∷ d ∷ []
urldecode (c ∷ d ∷ e ∷ s) =
    let triplet = urldecode s in
    let plain = urldecode (d ∷ e ∷ s) in
    if c == b'%' then (hex_value d * 16 + hex_value e) ∷ triplet else c ∷ plain

hex_value-hex_upper : (d : ℕ) → d < 16 → hex_value (hex_upper d) ≡ d
unfolding hex_value hex_upper
hex_value-hex_upper d h = ground arith

urldecode_plain : (c : ℕ) (s : Text) → (c == b'%') ≡ false → urldecode (c ∷ s) ≡ c ∷ urldecode s
unfolding urldecode
urldecode_plain c [] h = refl
urldecode_plain c (d ∷ []) h = refl
urldecode_plain c (d ∷ e ∷ s) h = rw h

urldecode-encode_byte :
    (b : ℕ) (s : Text) → b < 256 → urldecode (encode_byte b ++ s) ≡ b ∷ urldecode s
unfolding encode_byte is_unreserved
urldecode-encode_byte b s h = elim (Bool-cases (is_unreserved b)) [
  | inl plain ↦ rw (plain, encode_byte) (urldecode_plain b s (ground arith))
  | inr other ↦
      rw (other, encode_byte)
        (unfold urldecode in
          ground (arith, hex_value-hex_upper (b / 16), hex_value-hex_upper (b % 16)))
]

-- The bytes that UTF-8 uses for a text of Unicode scalar values.
abbrev AreBytes : Bytes → Type 0
AreBytes = All (λ b. b < 256)

urldecode-encode_bytes : (bs : Bytes) → AreBytes bs → urldecode (encode_bytes bs) ≡ bs
unfolding encode_bytes
urldecode-encode_bytes [] h = unfold urldecode in refl
urldecode-encode_bytes (b ∷ bs) h =
    urldecode-encode_byte b (encode_bytes bs) h.0 ∙ ap (◌∷◌ b) (urldecode-encode_bytes bs h.1)

utf8_char-AreBytes : (c : ℕ) → c < 0x110000 → AreBytes (utf8_char c)
unfolding utf8_char
utf8_char-AreBytes c h = ground arith

-- No character is beyond Unicode's last code point.
abbrev pub IsUnicode : Text → Type 0
IsUnicode = All (λ c. c < 0x110000)

utf8-AreBytes : (s : Text) → IsUnicode s → AreBytes (utf8 s)
unfolding utf8
utf8-AreBytes [] h = tt
utf8-AreBytes (c ∷ s) h =
    All-append (λ b. b < 256) (utf8_char c) (utf8 s) (utf8_char-AreBytes c h.0)
      (utf8-AreBytes s h.1)

-- For a text of Unicode characters, decoding the percent triplets of what urlencode wrote gives the
-- UTF-8 bytes of the text.
pub urldecode-urlencode : (s : Text) → IsUnicode s → urldecode (urlencode s) ≡ utf8 s
unfolding urlencode
urldecode-urlencode s h = urldecode-encode_bytes (utf8 s) (utf8-AreBytes s h)

abbrev pub IsQuerySafe : Text → Type 0
IsQuerySafe = All (λ c. (is_unreserved c || c == b'%') ≡ true)

hex_upper_unreserved : (d : ℕ) → d < 16 → is_unreserved (hex_upper d) ≡ true
unfolding is_unreserved hex_upper
hex_upper_unreserved d h = ground arith

encode_byte-IsQuerySafe : (b : ℕ) → b < 256 → IsQuerySafe (encode_byte b)
unfolding encode_byte
encode_byte-IsQuerySafe b h =
    ground (arith, hex_upper_unreserved (b / 16), hex_upper_unreserved (b % 16))

encode_bytes-IsQuerySafe : (bs : Bytes) → AreBytes bs → IsQuerySafe (encode_bytes bs)
unfolding encode_bytes
encode_bytes-IsQuerySafe [] h = tt
encode_bytes-IsQuerySafe (b ∷ bs) h =
    All-append (λ c. (is_unreserved c || c == b'%') ≡ true) (encode_byte b) (encode_bytes bs)
      (encode_byte-IsQuerySafe b h.0) (encode_bytes-IsQuerySafe bs h.1)

-- For a text of Unicode characters, urlencode writes unreserved characters and percent signs only.
pub urlencode-IsQuerySafe : (s : Text) → IsUnicode s → IsQuerySafe (urlencode s)
unfolding urlencode
urlencode-IsQuerySafe s h = encode_bytes-IsQuerySafe (utf8 s) (utf8-AreBytes s h)
