-- ===== src/Core/Types/Escape.antt =====
-- crates/huginn-core/src/types.rs: `escape_control_chars`, against the pieces of single
-- characters.
use huginn_io.Prelude.{
  ℕ, ◌≡◌, refl, sym, false, inl, inr, ◌↔◌, [], ◌∷◌, ◌++◌, arith, Text, Bool-cases, All, All-append,
  list_laws,
}
use huginn_io.Core.Types.{is_control, escape_char, escape_onto, any_control, escape_control_chars}

-- No character of the text is a control character.
abbrev pub IsPlain : Text → Type 0
IsPlain = All (λ c. is_control c ≡ false)

any_control_iff : (s : Text) → (any_control s ≡ false) ↔ IsPlain s
unfolding any_control
any_control_iff [] = (λ _. tt, λ _. refl)
any_control_iff (c ∷ s) = ground (arith, any_control_iff s)

escape_char-IsPlain : (c : ℕ) → IsPlain (escape_char c)
unfolding escape_char
escape_char-IsPlain c = ground arith

escape_onto-IsPlain : (out s : Text) → IsPlain out → IsPlain (escape_onto out s)
unfolding escape_onto
escape_onto-IsPlain out [] h = h
escape_onto-IsPlain out (c ∷ s) h =
    escape_onto-IsPlain (out ++ escape_char c) s
      (All-append _ out (escape_char c) h (escape_char-IsPlain c))

-- Whatever the text, escape_control_chars leaves no control character in it.
pub escape_control_chars-IsPlain : (s : Text) → IsPlain (escape_control_chars s)
unfolding escape_control_chars
escape_control_chars-IsPlain s = elim (Bool-cases (any_control s)) [
  | inl some_ ↦ rw (some_, escape_control_chars) (escape_onto-IsPlain [] s tt)
  | inr none_ ↦ rw (none_, escape_control_chars) ((any_control_iff s).0 none_)
]

pub escape_control_chars_plain : (s : Text) → IsPlain s → escape_control_chars s ≡ s
unfolding escape_control_chars
escape_control_chars_plain s h = rw ((any_control_iff s).1 h)

-- escape_control_chars returns a text unchanged exactly when it holds no control character.
pub escape_control_chars_fixed_iff : (s : Text) → (escape_control_chars s ≡ s) ↔ IsPlain s
escape_control_chars_fixed_iff s =
    (λ e. rw e at (escape_control_chars-IsPlain s), escape_control_chars_plain s)

-- The fast path gives what the loop would give: the pieces of all characters, one after another.
pub pieces : Text → Text
pieces [] = []
pieces (c ∷ s) = escape_char c ++ pieces s

escape_onto-pieces : (out s : Text) → escape_onto out s ≡ out ++ pieces s
unfolding escape_onto pieces
escape_onto-pieces out [] = simp list_laws
escape_onto-pieces out (c ∷ s) = simp (list_laws, escape_onto-pieces (out ++ escape_char c) s)

pieces_plain : (s : Text) → IsPlain s → pieces s ≡ s
unfolding pieces escape_char is_control
pieces_plain [] h = refl
pieces_plain (c ∷ s) h = ground (arith, pieces_plain s h.1)

-- The fast path changes nothing: the result of escape_control_chars is the pieces of all
-- characters, one after another.
pub escape_control_chars-pieces : (s : Text) → escape_control_chars s ≡ pieces s
unfolding escape_control_chars
escape_control_chars-pieces s = elim (Bool-cases (any_control s)) [
  | inl some_ ↦ rw (some_, escape_control_chars) (escape_onto-pieces [] s)
  | inr none_ ↦
      rw (none_, escape_control_chars) (sym (pieces_plain s ((any_control_iff s).0 none_)))
]
