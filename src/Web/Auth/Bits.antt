-- ===== src/Web/Auth/Bits.antt =====
-- crates/huginn-web/src/prometheus.rs: `constant_time_eq` and the answers of the metrics endpoint.
use Prim.Native.Nat.{
  bit_or, bit_xor, bit_or-bitwise, bit_xor-bitwise, digits, differ, max, ◌/◌, ◌%◌,
}
use huginn_io.Influx.LineProtocol.{utf8}
use huginn_io.Prelude.{
  ℕ, zero, suc, ◌≤◌, ◌≡◌, ◌↔◌, ◌⊎◌, refl, ap, true, [], ◌∷◌, ◌++◌, Option, none, some, arith, ◌==◌,
  length, Text, Bytes, codes, strip_prefix_iff, strip_prefix, Bool-cases, Option-cases, inl, inr,
}
use huginn_io.Web.Auth.{
  diff_onto, constant_time_eq, request_is_authorized, handle_prometheus, exposition, unauthorized,
}

value_of : Text → Option Text → Text
value_of d none = d
value_of d (some t) = t

some-injective : (s t : Text) → some s ≡ some t → s ≡ t
unfolding value_of
some-injective s t e = ap (value_of s) e

differ_bits : (x y : ℕ) → x ≤ 1 → y ≤ 1 → (differ x y ≡ 0) ↔ (x ≡ y)
differ_bits zero y h k = ground arith
differ_bits (suc zero) zero h k = ground arith
differ_bits (suc zero) (suc zero) h k = ground arith
differ_bits (suc zero) (suc (suc y)) h k = ground arith
differ_bits (suc (suc x)) y h k = ground arith

digits-differ : (n a b : ℕ) → a ≤ n → (digits (λ b. b) differ n a b ≡ 0) ↔ (a ≡ b)
digits-differ zero zero b h = ground arith
digits-differ zero (suc a) b h = ground arith
digits-differ (suc n) zero b h = ground arith
digits-differ (suc n) (suc a) b h =
    let ih = digits-differ n (suc a / 2) (b / 2) (omega arith) in
    let bits = differ_bits (suc a % 2) (b % 2) (omega arith) (omega arith) in
    ground (arith, ih, bits)

digits-max : (n a b : ℕ) → a ≤ n → (digits (λ b. b) max n a b ≡ 0) ↔ ((a ≡ 0) × (b ≡ 0))
digits-max zero zero b h = ground arith
digits-max zero (suc a) b h = ground arith
digits-max (suc n) zero b h = ground arith
digits-max (suc n) (suc a) b h =
    let ih = digits-max n (suc a / 2) (b / 2) (omega arith) in ground (arith, ih)

bit_xor-digits : (a b : ℕ) → bit_xor a b ≡ digits (λ b. b) differ a a b
bit_xor-digits a b = λ i. bit_xor-bitwise a b i

bit_or-digits : (a b : ℕ) → bit_or a b ≡ digits (λ b. b) max a a b
bit_or-digits a b = λ i. bit_or-bitwise a b i

bit_xor_zero_iff : (a b : ℕ) → (bit_xor a b ≡ 0) ↔ (a ≡ b)
bit_xor_zero_iff a b = rw (bit_xor-digits a b) (digits-differ a a b (omega arith))

bit_or_zero_iff : (a b : ℕ) → (bit_or a b ≡ 0) ↔ ((a ≡ 0) × (b ≡ 0))
bit_or_zero_iff a b = rw (bit_or-digits a b) (digits-max a a b (omega arith))

diff_onto_zero_iff :
    (d : ℕ) (a b : Bytes) → length a ≡ length b → (diff_onto d a b ≡ 0) ↔ ((d ≡ 0) × (a ≡ b))
unfolding diff_onto
diff_onto_zero_iff d [] [] h = ground arith
diff_onto_zero_iff d [] (y ∷ b) h = ground arith
diff_onto_zero_iff d (x ∷ a) [] h = ground arith
diff_onto_zero_iff d (x ∷ a) (y ∷ b) h = ground (
  arith,
  diff_onto_zero_iff (bit_or d (bit_xor x y)) a b (omega arith),
  bit_or_zero_iff d (bit_xor x y),
  bit_xor_zero_iff x y,
)

pub constant_time_eq_iff : (a b : Bytes) → (constant_time_eq a b ≡ true) ↔ (a ≡ b)
unfolding constant_time_eq
constant_time_eq_iff a b = elim (Bool-cases (length a == length b)) [
  | inl same ↦ ground (arith, same, diff_onto_zero_iff 0 a b)
  | inr other ↦ (λ h. ground arith, λ h. ground (arith, ap length h))
]

-- The header's text is the scheme and then a text with the bytes of the key.
abbrev pub Presents : Option Text → Text → Type 0
Presents header key =
    (presented : Text) × (header ≡ some (codes "Bearer " ++ presented))
    × (utf8 presented ≡ utf8 key)

request_is_authorized_iff :
    (header : Option Text) (key : Text)
    → (request_is_authorized header key ≡ true) ↔ Presents header key
unfolding request_is_authorized
request_is_authorized_iff none key = (λ h. cc, λ (t, e, _). cc)
request_is_authorized_iff (some value) key =
    elim (Option-cases (strip_prefix (codes "Bearer ") value)) [
      | inl e ↦ (
        λ h. ground (arith, e),
        λ (t, f, _).
            ground
              (arith, e, (strip_prefix_iff (codes "Bearer ") value t).1 (some-injective value _ f)),
      )
      | inr (t, e) ↦
          let eq = constant_time_eq_iff (utf8 t) (utf8 key) in
          (
            λ h. (
              t,
              ap some ((strip_prefix_iff (codes "Bearer ") value t).0 e),
              eq.0 (ground (arith, e)),
            ),
            λ (u, f, g).
                let same =
                  (strip_prefix_iff (codes "Bearer ") value u).1 (some-injective value _ f) in
                ground (arith, e, same, eq.1),
          )
    ]

-- No key is set, or the request presents it.
abbrev pub Opens : Option Text → Option Text → Type 0
Opens none header = Unit {0}
Opens (some key) header = Presents header key

-- The metrics endpoint answers with the exposition if no key is set or the Authorization header is
-- Bearer, a space and a text whose bytes are those of the key, and with 401 in every other case.
pub handle_prometheus_cases :
    (key header : Option Text) (rendered : Text)
    → (Opens key header × (handle_prometheus key header rendered ≡ exposition rendered))
      ⊎ ((¬ Opens key header) × (handle_prometheus key header rendered ≡ unauthorized))
unfolding handle_prometheus
handle_prometheus_cases none header rendered = inl (tt, refl)
handle_prometheus_cases (some key) header rendered =
    let iff = request_is_authorized_iff header key in
    elim (Bool-cases (request_is_authorized header key)) [
      | inl hit ↦ inl (iff.0 hit, ground (arith, hit))
      | inr miss ↦ inr (λ p. ground (arith, miss, iff.1 p), ground (arith, miss))
    ]
