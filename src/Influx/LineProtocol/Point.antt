-- ===== src/Influx/LineProtocol/Point.antt =====
-- crates/huginn-influx/src/writer.rs: whole points and batches of them, against a reader of the
-- format.
use huginn_io.Prelude.{
  ℕ, ◌≡◌, refl, ap, ◌∙◌, Bool, true, false, List, [], ◌∷◌, ◌++◌, Option, none, some, arith, ◌==◌,
  map, if◌then◌else◌, Text, codes, All, All-append, strip_prefix, ◌>>=◌,
}
use huginn_io.Core.Decimal.{show_nat, show_nat-IsDigitText, is_digit}
use huginn_io.Core.Platform.{Platform}
use huginn_io.Core.Types.{ProbeResult}
use huginn_io.Influx.LineProtocol.Escape.{
  read_tag, read_tag-escape_tag, IsOneLine, escape_tag-IsOneLine, escape_field_str-IsOneLine,
}
use huginn_io.Influx.LineProtocol.{
  escape_tag, escape_field_str, metric_fields, status_field, error_field, line_fields,
  to_line_protocol, join_lines,
}

-- A reader of points: the three tags, and what follows them.
unfoldable pub read_point : Text → Option (Text × Text × Text × Text)
unfolding read_tag
read_point line = do
  at_name ← strip_prefix (codes "probe_result,probe_name=") line
  let name = read_tag false at_name
  at_type ← strip_prefix (codes ",probe_type=") name.1
  let kind = read_tag false at_type
  at_target ← strip_prefix (codes ",target=") kind.1
  let target = read_tag false at_target
  some (name.0, kind.0, target.0, target.1)

module _ {p : Platform} where
  -- If the probe name, type and target of a result have no line feed, a reader of the line
  -- protocol, for which an unescaped comma, equals sign or space ends a tag and any line feed ends
  -- the point, finds exactly these three in the rendered point, followed by a space and the field
  -- set, whatever other characters they hold.
  pub read_point-to_line_protocol :
      (r : ProbeResult p)
      → IsOneLine r.probe_name
      → IsOneLine r.probe_type
      → IsOneLine r.target
      → read_point (to_line_protocol r)
        ≡ some (r.probe_name, r.probe_type, r.target, b' ' ∷ line_fields r)
  unfolding read_point to_line_protocol strip_prefix
  read_point-to_line_protocol r h k l = simp (
    λ (t : Text). read_tag-escape_tag r.probe_name b',' t h refl,
    λ (t : Text). read_tag-escape_tag r.probe_type b',' t k refl,
    λ (t : Text). read_tag-escape_tag r.target b' ' t l refl,
  )

-- The formats of numbers and times that the line protocol uses print no line feed.
pub record PrintsOneLine (p : Platform) : Type 0 where
  pub f64 : (x : p.F64) → IsOneLine (p.show_f64 x)
  pub fixed : (n : ℕ) (x : p.F64) → IsOneLine (p.show_fixed n x)
  pub millis : (t : p.Timestamp) → IsOneLine (p.show_millis t)

-- The texts that go into tags have no line feed. The error may have any.
pub record TagsOneLine {p : Platform} (r : ProbeResult p) : Type 0 where
  pub name : IsOneLine r.probe_name
  pub kind : IsOneLine r.probe_type
  pub target : IsOneLine r.target
  pub keys : All (λ m. IsOneLine m.0) r.metrics

pub digits-IsOneLine : (s : Text) → All (λ c. is_digit c ≡ true) s → IsOneLine s
digits-IsOneLine [] h = tt
digits-IsOneLine (c ∷ s) h = (ground arith, digits-IsOneLine s h.1)

join2 : (s t : Text) → IsOneLine s → IsOneLine t → IsOneLine (s ++ t)
join2 s t h k = All-append _ s t h k

metric_fields-IsOneLine :
    {p : Platform} (o : PrintsOneLine p) (ms : List (Text × p.F64))
    → All (λ m. IsOneLine m.0) ms
    → IsOneLine (metric_fields p ms)
unfolding metric_fields
metric_fields-IsOneLine o [] h = tt
metric_fields-IsOneLine {p} o ((key, value) ∷ ms) h = (
  refl,
  join2 (escape_tag key) (b'=' ∷ (p.show_f64 value ++ metric_fields p ms))
      (escape_tag-IsOneLine key h.0)
      (
        refl,
        join2 (p.show_f64 value) (metric_fields p ms) (o.f64 value)
            (metric_fields-IsOneLine o ms h.1),
      ),
)

status_field-IsOneLine : (s : Option ℕ) → IsOneLine (status_field s)
unfolding status_field
status_field-IsOneLine none = tt
status_field-IsOneLine (some code) =
    join2 (codes ",status_code=") _ (ground arith) (
      join2 (show_nat code) (b'i' ∷ []) (digits-IsOneLine _ (show_nat-IsDigitText code)) (refl, tt))

error_field-IsOneLine : (e : Option Text) → IsOneLine (error_field e)
unfolding error_field
error_field-IsOneLine none = tt
error_field-IsOneLine (some err) =
    join2 (codes ",error=\"") _ (ground arith)
      (join2 (escape_field_str err) (b'"' ∷ []) (escape_field_str-IsOneLine err) (refl, tt))

up_value-IsOneLine : (up : Bool) → IsOneLine (if up then b'1' ∷ [] else b'0' ∷ [])
up_value-IsOneLine true = (refl, tt)
up_value-IsOneLine false = (refl, tt)

module _ {p : Platform} (o : PrintsOneLine p) (r : ProbeResult p) where
  line_fields-IsOneLine : All (λ m. IsOneLine m.0) r.metrics → IsOneLine (line_fields r)
  unfolding line_fields
  line_fields-IsOneLine keys = join2 (codes "up=") _ (ground arith) (
      join2 _ _ (up_value-IsOneLine r.up) (
        join2 (codes "i,response_ms=") _ (ground arith) (
          join2 _ _ (o.fixed 3 r.response_ms) (
            join2 _ _ (status_field-IsOneLine r.status_code) (
              join2 _ _ (error_field-IsOneLine r.error) (
                join2 _ _ (metric_fields-IsOneLine o r.metrics keys)
                  (refl, o.millis r.timestamp)))))))

  -- A point is one line, whatever the error's text holds.
  pub to_line_protocol-IsOneLine : TagsOneLine r → IsOneLine (to_line_protocol r)
  unfolding to_line_protocol
  to_line_protocol-IsOneLine t = join2 (codes "probe_result,probe_name=") _ (ground arith) (
      join2 _ _ (escape_tag-IsOneLine _ t.name) (
        join2 (codes ",probe_type=") _ (ground arith) (
          join2 _ _ (escape_tag-IsOneLine _ t.kind) (
            join2 (codes ",target=") _ (ground arith)
              (join2 _ _ (escape_tag-IsOneLine _ t.target) (refl, line_fields-IsOneLine t.keys))))))

-- `split('\n')`
pub split_lines : Text → List Text
split_lines [] = [] ∷ []
split_lines (c ∷ s) = let rest = split_lines s in if c == b'\n' then [] ∷ rest else prepend c rest
  where
    prepend : ℕ → List Text → List Text
    prepend c [] = (c ∷ []) ∷ []
    prepend c (l ∷ ls) = (c ∷ l) ∷ ls

split_lines-append :
    (x : Text) (s : Text) → IsOneLine x → split_lines (x ++ (b'\n' ∷ s)) ≡ x ∷ split_lines s
unfolding split_lines
split_lines-append [] s h = refl
split_lines-append (c ∷ x) s h = ground (arith, split_lines-append x s h.1)

split_lines_one : (x : Text) → IsOneLine x → split_lines x ≡ x ∷ []
unfolding split_lines
split_lines_one [] h = refl
split_lines_one (c ∷ x) h = ground (arith, split_lines_one x h.1)

split_lines-join_lines :
    (x : Text) (xs : List Text)
    → All IsOneLine (x ∷ xs)
    → split_lines (join_lines (x ∷ xs)) ≡ x ∷ xs
unfolding join_lines
split_lines-join_lines x [] h = split_lines_one x h.0
split_lines-join_lines x (y ∷ xs) h =
    split_lines-append x (join_lines (y ∷ xs)) h.0 ∙ ap (◌∷◌ x) (split_lines-join_lines y xs h.1)

module _ {p : Platform} (o : PrintsOneLine p) where
  points-IsOneLine :
      (rs : List (ProbeResult p)) → All TagsOneLine rs → All IsOneLine (map to_line_protocol rs)
  points-IsOneLine [] h = tt
  points-IsOneLine (r ∷ rs) h = (to_line_protocol-IsOneLine o r h.0, points-IsOneLine rs h.1)

  -- If the platform formats numbers and times without line feeds and no tag or reading key holds
  -- one, splitting a batch at line feeds gives back the rendered points, one line each.
  pub split_lines-batch :
      (r : ProbeResult p) (rs : List (ProbeResult p))
      → All TagsOneLine (r ∷ rs)
      → split_lines (join_lines (map to_line_protocol (r ∷ rs))) ≡ map to_line_protocol (r ∷ rs)
  split_lines-batch r rs h =
      split_lines-join_lines (to_line_protocol r) (map to_line_protocol rs)
        (points-IsOneLine (r ∷ rs) h)
