-- ===== src/System/Output.antt =====
-- huginn/src/main.rs: `resolve_output_format` and `print_result`. Colours and padding are kept
-- apart from the texts that they apply to; the clock, serde_json and `to_uppercase` are parameters.
pub mod Precedence
pub mod Console
mod Tests
use huginn_io.Core.Config.{LogFormat, pretty, json}
use huginn_io.Core.Decimal.{show_nat}
use huginn_io.Core.Platform.{Platform}
use huginn_io.Core.Types.{ProbeResult}
use huginn_io.Prelude.{
  ℕ, ◌+◌, Bool, true, false, ◌&&◌, List, [], ◌∷◌, ◌++◌, map, Option, none, some, leb, if◌then◌else◌,
  Text, codes, text_eq,
}

-- `u8::to_ascii_lowercase`, and `eq_ignore_ascii_case`.
unfoldable pub to_ascii_lowercase : ℕ → ℕ
to_ascii_lowercase c = if leb b'A' c && leb c b'Z' then c + 32 else c

unfoldable pub eq_ignore_ascii_case : Text → Text → Bool
unfolding to_ascii_lowercase
eq_ignore_ascii_case s t = text_eq (map to_ascii_lowercase s) (map to_ascii_lowercase t)

is_json : LogFormat → Bool
is_json json = true
is_json pretty = false

unknown_format : Text → Text
unknown_format other =
    codes "--output/HUGINN_LOG_FORMAT='"
    ++ (other
        ++ (codes "' is not a known format "
            ++ codes "(expected json/pretty) — falling back to the config file"))

-- Whether to print JSON, and the warnings from now on.
unfoldable pub resolve_output_format : Option Text → LogFormat → List Text → Bool × List Text
unfolding is_json unknown_format
resolve_output_format none cfg_format warnings = (is_json cfg_format, warnings)
resolve_output_format (some s) cfg_format warnings =
    if eq_ignore_ascii_case s (codes "json")
    then (true, warnings)
    else if eq_ignore_ascii_case s (codes "pretty")
    then (false, warnings)
    else (is_json cfg_format, warnings ++ unknown_format s ∷ [])

-- How a text is shown.
pub data Style : Type 0 where
  plain green_bold red_bold cyan yellow white dimmed red : Style

-- A text, its style, and the width that it is padded to.
pub record Segment : Type 0 where
  pub style : Style
  pub width : ℕ
  pub text : Text

abbrev pub segment : Style → ℕ → Text → Segment
segment style width text = record { style = style; width = width; text = text }

-- `Local::now()` as it prints, `str::to_uppercase`, and `serde_json::to_string`.
pub record Terminal (p : Platform) : Type 0 where
  pub timestamp : Text
  pub to_uppercase : Text → Text
  pub to_json : ProbeResult p → Option Text

pub or_empty : Option Text → Text
or_empty none = []
or_empty (some t) = t

extra : Option ℕ → Option Text → List Segment
extra (some code) err = segment dimmed 0 (codes "  HTTP " ++ show_nat code) ∷ []
extra none (some err) = segment red 0 (codes "  " ++ err) ∷ []
extra none none = []

module _ {p : Platform} where
  status_mark : ProbeResult p → Segment
  status_mark r = if r.up then segment green_bold 0 (codes "✅") else segment red_bold 0 (codes "❌")

  -- The line that is printed, in its parts.
  unfoldable pub print_result : Terminal p → ProbeResult p → Bool → List Segment
  unfolding or_empty extra status_mark
  print_result t r true = segment plain 0 (or_empty (t.to_json r)) ∷ []
  print_result t r false =
      segment plain 0 (b'[' ∷ (t.timestamp ++ codes "]  "))
      ∷ status_mark r
      ∷ segment plain 0 (codes "  ")
      ∷ segment cyan 28 r.probe_name
      ∷ segment plain 0 (codes " ")
      ∷ segment yellow 6 (t.to_uppercase r.probe_type)
      ∷ segment plain 0 (codes "  ")
      ∷ segment white 0 (p.show_fixed 1 r.response_ms ++ codes "ms")
      ∷ extra r.status_code r.error
