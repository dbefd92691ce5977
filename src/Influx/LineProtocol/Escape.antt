-- ===== src/Influx/LineProtocol/Escape.antt =====
-- crates/huginn-influx/src/writer.rs: the chains of `replace`, character by character, against
-- readers of the format.
use huginn_io.Prelude.{
  ℕ, ◌≡◌, refl, ap, ◌∙◌, Bool, true, false, ◌||◌, [], ◌∷◌, ◌++◌, arith, ◌==◌, if◌then◌else◌, Text,
  append_assoc, list_laws, All, All-append,
}
use huginn_io.Influx.LineProtocol.{replace, escape_tag, escape_field_str}

replace-append :
    (from : ℕ) (to s t : Text) → replace from to (s ++ t) ≡ replace from to s ++ replace from to t
unfolding replace
replace-append from to [] t = refl
replace-append from to (c ∷ s) t =
    ground
      (arith, replace-append from to s t, append_assoc to (replace from to s) (replace from to t))

-- No line ends inside: the text has no line feed.
abbrev pub IsOneLine : Text → Type 0
IsOneLine = All (λ c. (c == b'\n') ≡ false)

-- What becomes of one character of a tag: a backslash before the four special ones.
abbrev tag_piece : ℕ → Text
tag_piece c = if c == b'\\' || c == b',' || c == b'=' || c == b' ' then b'\\' ∷ c ∷ [] else c ∷ []

escape_tag_one : (c : ℕ) → escape_tag (c ∷ []) ≡ tag_piece c
unfolding escape_tag
escape_tag_one c = ground arith

escape_tag-append : (s t : Text) → escape_tag (s ++ t) ≡ escape_tag s ++ escape_tag t
unfolding escape_tag
escape_tag-append s t = simp replace-append

pub escape_tag-cons : (c : ℕ) (s : Text) → escape_tag (c ∷ s) ≡ tag_piece c ++ escape_tag s
escape_tag-cons c s = escape_tag-append (c ∷ []) s ∙ ap (λ t. t ++ escape_tag s) (escape_tag_one c)

-- What ends a tag's value where it stands alone: a comma, an equals sign or a space.
abbrev pub is_delimiter : ℕ → Bool
is_delimiter c = c == b',' || c == b'=' || c == b' '

-- A reader of tags: a backslash takes the next character as it is; the value ends before the first
-- delimiter that no backslash takes, and before a line feed in any case, since that ends the point.
unfoldable pub read_tag : Bool → Text → Text × Text
read_tag escaped [] = ([], [])
read_tag true (c ∷ s) =
    let taken = read_tag false s in if c == b'\n' then ([], c ∷ s) else (c ∷ taken.0, taken.1)
read_tag false (c ∷ s) =
    let plain = read_tag false s in
    let quoted = read_tag true s in
    if c == b'\\'
    then quoted
    else if is_delimiter c || c == b'\n'
    then ([], c ∷ s)
    else (c ∷ plain.0, plain.1)

read_tag-tag_piece :
    (c : ℕ) (t : Text)
    → (c == b'\n') ≡ false
    → read_tag false (tag_piece c ++ t) ≡ (let r = read_tag false t in (c ∷ r.0, r.1))
unfolding read_tag
read_tag-tag_piece c t h = ground arith

-- A reader of tags finds an escaped value again, and what follows it, if the value has no line feed
-- and a comma, an equals sign or a space follows.
pub read_tag-escape_tag :
    (s : Text) (d : ℕ) (rest : Text)
    → IsOneLine s
    → is_delimiter d ≡ true
    → read_tag false (escape_tag s ++ d ∷ rest) ≡ (s, d ∷ rest)
unfolding read_tag
read_tag-escape_tag [] d rest o h = unfold escape_tag in ground arith
read_tag-escape_tag (c ∷ s) d rest o h = rw (escape_tag-cons c s) (
    ap (read_tag false) (append_assoc (tag_piece c) (escape_tag s) (d ∷ rest))
    ∙ read_tag-tag_piece c (escape_tag s ++ d ∷ rest) o.0
    ∙ ap (λ r. (c ∷ r.0, r.1)) (read_tag-escape_tag s d rest o.1 h))

-- What becomes of one character of a quoted field.
abbrev field_piece : ℕ → Text
field_piece c =
    if c == b'\\' || c == b'"'
    then b'\\' ∷ c ∷ []
    else if c == b'\n'
    then b'\\' ∷ b'n' ∷ []
    else if c == b'\r'
    then b'\\' ∷ b'r' ∷ []
    else c ∷ []

escape_field_str_one : (c : ℕ) → escape_field_str (c ∷ []) ≡ field_piece c
unfolding escape_field_str
escape_field_str_one c = ground arith

escape_field_str-append :
    (s t : Text) → escape_field_str (s ++ t) ≡ escape_field_str s ++ escape_field_str t
unfolding escape_field_str
escape_field_str-append s t = simp replace-append

pub escape_field_str-cons :
    (c : ℕ) (s : Text) → escape_field_str (c ∷ s) ≡ field_piece c ++ escape_field_str s
escape_field_str-cons c s =
    escape_field_str-append (c ∷ []) s ∙ ap (λ t. t ++ escape_field_str s) (escape_field_str_one c)

-- A reader of quoted fields, which stops before the closing quote and reads `\n` and `\r` as the
-- characters that they name.
unfoldable pub read_field : Bool → Text → Text × Text
read_field escaped [] = ([], [])
read_field true (c ∷ s) =
    let r = read_field false s in
    ((if c == b'n' then b'\n' else if c == b'r' then b'\r' else c) ∷ r.0, r.1)
read_field false (c ∷ s) =
    let plain = read_field false s in
    let quoted = read_field true s in
    if c == b'\\' then quoted else if c == b'"' then ([], c ∷ s) else (c ∷ plain.0, plain.1)

read_field-field_piece :
    (c : ℕ) (t : Text)
    → read_field false (field_piece c ++ t) ≡ (let r = read_field false t in (c ∷ r.0, r.1))
unfolding read_field
read_field-field_piece c t = ground arith

-- A reader of quoted fields finds an escaped text again, up to the closing quote, and what follows
-- it.
pub read_field-escape_field_str :
    (s rest : Text) → read_field false (escape_field_str s ++ b'"' ∷ rest) ≡ (s, b'"' ∷ rest)
unfolding read_field
read_field-escape_field_str [] rest = unfold escape_field_str in refl
read_field-escape_field_str (c ∷ s) rest =
    simp
      (list_laws, escape_field_str-cons, read_field-field_piece, read_field-escape_field_str s rest)

pub escape_tag-IsOneLine : (s : Text) → IsOneLine s → IsOneLine (escape_tag s)
escape_tag-IsOneLine [] h = unfold escape_tag in tt
escape_tag-IsOneLine (c ∷ s) h =
    rw (escape_tag-cons c s)
      (All-append _ (tag_piece c) (escape_tag s) (ground arith) (escape_tag-IsOneLine s h.1))

-- A field's text may hold line feeds and carriage returns; what is written has none.
pub escape_field_str-IsOneLine : (s : Text) → IsOneLine (escape_field_str s)
escape_field_str-IsOneLine [] = unfold escape_field_str in tt
escape_field_str-IsOneLine (c ∷ s) = rw (escape_field_str-cons c s) (
    All-append _ (field_piece c) (escape_field_str s) (ground arith) (escape_field_str-IsOneLine s))
