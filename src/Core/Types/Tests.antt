-- ===== src/Core/Types/Tests.antt =====
-- The theorems on results and escaping at concrete texts.
use huginn_io.Core.Types.Escape.{
  IsPlain, escape_control_chars-IsPlain, escape_control_chars-pieces, pieces,
}
use huginn_io.Core.Types.{escape_control_chars}
use huginn_io.Prelude.{◌≡◌, ◌∷◌, Text, codes}

abbrev terminal_text : Text
terminal_text = 0x1b ∷ codes "[2J\nx"

escape_control_chars-IsPlain_example : IsPlain (escape_control_chars terminal_text)
escape_control_chars-IsPlain_example = escape_control_chars-IsPlain terminal_text

escape_control_chars-pieces_example : escape_control_chars terminal_text ≡ pieces terminal_text
escape_control_chars-pieces_example = escape_control_chars-pieces terminal_text
