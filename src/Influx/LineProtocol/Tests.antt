-- ===== src/Influx/LineProtocol/Tests.antt =====
-- The theorems on the line protocol at texts that need its escapes.
use huginn_io.Core.Decimal.{show_nat, show_nat-IsDigitText}
use huginn_io.Core.Samples.{sample_platform, sample_up, sample_down}
use huginn_io.Influx.LineProtocol.Escape.{
  read_tag, read_tag-escape_tag, read_field, read_field-escape_field_str,
}
use huginn_io.Influx.LineProtocol.Point.{
  read_point, read_point-to_line_protocol, PrintsOneLine, TagsOneLine, digits-IsOneLine,
  split_lines, split_lines-batch,
}
use huginn_io.Influx.LineProtocol.Url.{
  urldecode, urldecode-urlencode, IsUnicode, IsQuerySafe, urlencode-IsQuerySafe,
}
use huginn_io.Influx.LineProtocol.{
  escape_tag, escape_field_str, line_fields, to_line_protocol, join_lines, utf8, urlencode,
}
use huginn_io.Prelude.{◌++◌, ◌≡◌, refl, false, [], ◌∷◌, map, some, arith, Text, codes}

abbrev tag_text : Text
tag_text = codes "a, b\\=c"

read_tag-escape_tag_example :
    read_tag false (escape_tag tag_text ++ b' ' ∷ codes "up=1i") ≡ (tag_text, b' ' ∷ codes "up=1i")
read_tag-escape_tag_example = read_tag-escape_tag tag_text b' ' (codes "up=1i") (ground arith) refl

read_field-escape_field_str_example :
    read_field false (escape_field_str (codes "x\"\n\\") ++ b'"' ∷ codes " 9")
    ≡ (codes "x\"\n\\", b'"' ∷ codes " 9")
read_field-escape_field_str_example = read_field-escape_field_str (codes "x\"\n\\") (codes " 9")

read_point-to_line_protocol_example :
    read_point (to_line_protocol sample_up)
    ≡ some (codes "a b", codes "tcp", codes "h,1", b' ' ∷ line_fields sample_up)
read_point-to_line_protocol_example =
    read_point-to_line_protocol sample_up (ground arith) (ground arith) (ground arith)

pub sample-PrintsOneLine : PrintsOneLine sample_platform
sample-PrintsOneLine = record {
  f64 = λ x. digits-IsOneLine (show_nat x) (show_nat-IsDigitText x);
  fixed = λ n x. digits-IsOneLine (show_nat x) (show_nat-IsDigitText x);
  millis = λ t. digits-IsOneLine (show_nat t) (show_nat-IsDigitText t);
}

sample_up-TagsOneLine : TagsOneLine sample_up
sample_up-TagsOneLine = ground arith

sample_down-TagsOneLine : TagsOneLine sample_down
sample_down-TagsOneLine = ground arith

split_lines-batch_example :
    split_lines (join_lines (map to_line_protocol (sample_up ∷ sample_down ∷ [])))
    ≡ map to_line_protocol (sample_up ∷ sample_down ∷ [])
split_lines-batch_example =
    split_lines-batch sample-PrintsOneLine sample_up (sample_down ∷ [])
      (sample_up-TagsOneLine, (sample_down-TagsOneLine, tt))

abbrev bucket_text : Text
bucket_text = codes "a&b=é"

bucket_text-IsUnicode : IsUnicode bucket_text
bucket_text-IsUnicode = ground arith

urldecode-urlencode_example : urldecode (urlencode bucket_text) ≡ utf8 bucket_text
urldecode-urlencode_example = urldecode-urlencode bucket_text bucket_text-IsUnicode

urlencode-IsQuerySafe_example : IsQuerySafe (urlencode bucket_text)
urlencode-IsQuerySafe_example = urlencode-IsQuerySafe bucket_text bucket_text-IsUnicode
