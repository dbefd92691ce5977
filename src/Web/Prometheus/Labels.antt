-- ===== src/Web/Prometheus/Labels.antt =====
-- crates/huginn-web/src/prometheus.rs: what stands between the quotes of a label, and what a
-- metric's name is made of.
use huginn_io.Prelude.{
  ℕ, ◌≡◌, Bool, true, false, [], ◌∷◌, ◌++◌, arith, Text, All, list_laws, ◌==◌, if◌then◌else◌,
}
use huginn_io.Web.Prometheus.{escape_label_char, escape_label, is_name_char, sanitize_metric_name}

-- A reader of label values, which stops before the closing quote: `\\n` is a line feed, and a
-- backslash takes any other character as it is.
unfoldable pub read_label : Bool → Text → Text × Text
read_label escaped [] = ([], [])
read_label true (c ∷ s) =
    let r = read_label false s in ((if c == b'n' then b'\n' else c) ∷ r.0, r.1)
read_label false (c ∷ s) =
    let taken = read_label true s in
    let plain = read_label false s in
    if c == b'\\' then taken else if c == b'"' then ([], c ∷ s) else (c ∷ plain.0, plain.1)

read_label_piece :
    (c : ℕ) (t : Text)
    → read_label false (escape_label_char c ++ t) ≡ (let r = read_label false t in (c ∷ r.0, r.1))
unfolding read_label escape_label_char
read_label_piece c t = ground arith

-- A reader of label values finds an escaped value again, up to the closing quote, and what follows
-- it.
pub read_label-escape_label :
    (s rest : Text) → read_label false (escape_label s ++ b'"' ∷ rest) ≡ (s, b'"' ∷ rest)
unfolding read_label escape_label
read_label-escape_label [] rest = ground arith
read_label-escape_label (c ∷ s) rest =
    simp (list_laws, read_label_piece, read_label-escape_label s rest)

pub sanitize_metric_name-All :
    (key : Text) → All (λ c. is_name_char c ≡ true) (sanitize_metric_name key)
unfolding sanitize_metric_name
sanitize_metric_name-All [] = tt
sanitize_metric_name-All (c ∷ key) = (ground arith, sanitize_metric_name-All key)
