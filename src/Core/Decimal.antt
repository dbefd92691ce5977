-- ===== src/Core/Decimal.antt =====
-- Decimal numerals: `{}` on an unsigned integer, and `str::parse::<u16>`.
use huginn_io.Prelude.{
  ℕ, zero, suc, ◌+◌, ◌-◌, ◌*◌, ◌/◌, ◌%◌, ◌<◌, ◌≡◌, Bool, true, ◌&&◌, [], ◌∷◌, Option, none, some,
  arith, ltb, leb, ◌==◌, if◌then◌else◌, Text, inl, inr, Bool-cases, u16_mod, All,
}

-- The digits of `n` in front of `acc`, with fuel.
show_onto : ℕ → ℕ → Text → Text
show_onto zero n acc = acc
show_onto (suc f) n acc =
    let rest = show_onto f (n / 10) ((b'0' + n % 10) ∷ acc) in
    if ltb n 10 then (b'0' + n) ∷ acc else rest

-- `n + 1` rounds suffice: each but the last makes `n` smaller.
unfoldable pub show_nat : ℕ → Text
unfolding show_onto
show_nat n = show_onto (suc n) n []

abbrev pub is_digit : ℕ → Bool
is_digit c = leb b'0' c && leb c b'9'

-- The value of a row of digits that goes on from `acc`; `none` at another byte, and as soon as the
-- value leaves the type's range.
unfoldable pub parse_digits : ℕ → ℕ → Text → Option ℕ
parse_digits bound acc [] = some acc
parse_digits bound acc (c ∷ s) =
    let next = acc * 10 + (c - b'0') in
    let rest = parse_digits bound next s in if is_digit c && ltb next bound then rest else none

-- An empty text is refused; one leading `+` is taken.
unfoldable pub parse_unsigned : ℕ → Text → Option ℕ
unfolding parse_digits
parse_unsigned bound [] = none
parse_unsigned bound (c ∷ []) = if is_digit c && ltb (c - b'0') bound then some (c - b'0') else none
parse_unsigned bound (c ∷ d ∷ s) =
    if c == b'+' then parse_digits bound 0 (d ∷ s) else parse_digits bound 0 (c ∷ d ∷ s)

abbrev pub parse_u16 : Text → Option ℕ
parse_u16 = parse_unsigned u16_mod

-- A parsed value lies in the range.
pub parse_digits-lt :
    (bound acc : ℕ) (s : Text) {n : ℕ} → acc < bound → parse_digits bound acc s ≡ some n → n < bound
unfolding parse_digits
parse_digits-lt bound acc [] h e = ground arith
parse_digits-lt bound acc (c ∷ s) {n} h e =
    ground (arith, parse_digits-lt bound (acc * 10 + (c - b'0')) s {n = n})

pub parse_unsigned-lt :
    (bound : ℕ) (s : Text) {n : ℕ} → 0 < bound → parse_unsigned bound s ≡ some n → n < bound
unfolding parse_unsigned
parse_unsigned-lt bound [] h e = cc
parse_unsigned-lt bound (c ∷ []) h e = ground arith
parse_unsigned-lt bound (c ∷ d ∷ s) {n} h e =
    ground
      (arith, parse_digits-lt bound 0 (d ∷ s) {n = n}, parse_digits-lt bound 0 (c ∷ d ∷ s) {n = n})

-- With fuel above `n`, reading back what was printed goes on from `acc` with all of `n`'s digits.
abbrev IsDigitText : Text → Type 0
IsDigitText = All (λ c. is_digit c ≡ true)

show_onto-IsDigitText : (f n : ℕ) (acc : Text) → IsDigitText acc → IsDigitText (show_onto f n acc)
unfolding show_onto
show_onto-IsDigitText zero n acc h = h
show_onto-IsDigitText (suc f) n acc h = elim (Bool-cases (ltb n 10)) [
  | inl e ↦ rw (e, show_onto) (ground arith, h)
  | inr e ↦ rw (e, show_onto) (show_onto-IsDigitText f (n / 10) _ (ground arith, h))
]

-- A number is printed in digits only.
pub show_nat-IsDigitText : (n : ℕ) → All (λ c. is_digit c ≡ true) (show_nat n)
unfolding show_nat
show_nat-IsDigitText n = show_onto-IsDigitText (suc n) n [] tt
