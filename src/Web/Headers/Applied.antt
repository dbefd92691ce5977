-- ===== src/Web/Headers/Applied.antt =====
-- crates/huginn-web/src/headers.rs: what a response has after `apply_security_headers`.
use huginn_io.Prelude.{
  ℕ, ◌≡◌, refl, ap, subst, ◌∙◌, Bool, true, false, ◌&&◌, ◌||◌, List, [], ◌∷◌, some, leb, ◌==◌,
  arith, Text, All, is_empty, text_eq, text_eq_iff, if◌then◌else◌, Bool-cases, inl, inr,
}
use huginn_io.Web.Headers.{
  HeaderApi, security_headers, insert_converted, apply_headers, apply_security_headers,
}

-- Lower-case letters and dashes make a header name, and printable ASCII a value.
abbrev pub is_name_byte : ℕ → Bool
is_name_byte c = (leb b'a' c && leb c b'z') || c == b'-'

abbrev pub is_value_byte : ℕ → Bool
is_value_byte c = leb b' ' c && leb c b'~'

abbrev pub AllTrue : (ℕ → Bool) → Text → Type 0
AllTrue test = All (λ c. test c ≡ true)

-- What the http crate documents: such texts convert to a name and a value with that text, `insert`
-- leaves one value under its name and nothing else changed.
pub record HeaderLaws (api : HeaderApi) : Type 0 where
  pub name_converts :
      (s : Text)
      → is_empty s ≡ false
      → AllTrue is_name_byte s
      → (name : api.HeaderName) × (api.name_from_bytes s ≡ some name) × (api.name_text name ≡ s)
  pub value_converts :
      (s : Text)
      → AllTrue is_value_byte s
      → (value : api.HeaderValue) × (api.value_from_str s ≡ some value) × (api.value_text value ≡ s)
  pub inserted :
      (name : api.HeaderName) (value : api.HeaderValue) (headers : api.HeaderMap)
      → api.get_all (api.name_text name) (api.insert name value headers) ≡ api.value_text value ∷ []
  pub others :
      (key : Text) (name : api.HeaderName) (value : api.HeaderValue) (headers : api.HeaderMap)
      → text_eq (api.name_text name) key ≡ false
      → api.get_all key (api.insert name value headers) ≡ api.get_all key headers

-- What a table of headers leaves under a name where there was `before`: the last of its entries.
abbrev pub override : Text → List Text → List (Text × Text) → List Text
override key before [] = before
override key before ((name, value) ∷ rest) =
    override key (if text_eq name key then value ∷ [] else before) rest

Convertible : Text × Text → Type 0
Convertible (name, value) =
    (is_empty name ≡ false) × AllTrue is_name_byte name × AllTrue is_value_byte value

module _ (api : HeaderApi) (laws : HeaderLaws api) where
  insert_converted_lem :
      (key name value : Text) (headers : api.HeaderMap)
      → Convertible (name, value)
      → api.get_all key
          (insert_converted api (api.name_from_bytes name) (api.value_from_str value) headers)
        ≡ (if text_eq name key then value ∷ [] else api.get_all key headers)
  unfolding insert_converted Convertible
  insert_converted_lem key name value headers c =
      let (n, named, n_text) = laws.name_converts name c.0 c.1 in
      let (v, valued, v_text) = laws.value_converts value c.2 in
      elim (Bool-cases (text_eq name key)) [
        | inl same ↦
            rw (named, valued, same)
              (subst (λ k. api.get_all k (api.insert n v headers) ≡ value ∷ [])
                (n_text ∙ (text_eq_iff name key).0 same)
                (laws.inserted n v headers ∙ ap (λ t. t ∷ []) v_text))
        | inr other ↦
            rw (named, valued, other)
              (laws.others key n v headers (ap (λ t. text_eq t key) n_text ∙ other))
      ]

  apply_headers_lem :
      (key : Text) (table : List (Text × Text)) (headers : api.HeaderMap)
      → All Convertible table
      → api.get_all key (apply_headers api table headers)
        ≡ override key (api.get_all key headers) table
  unfolding apply_headers
  apply_headers_lem key [] headers c = refl
  apply_headers_lem key ((name, value) ∷ rest) headers c =
      apply_headers_lem key rest _ c.1
      ∙ ap (λ b. override key b rest) (insert_converted_lem key name value headers c.0)

security_headers-Convertible : All Convertible security_headers
unfolding security_headers Convertible is_empty
security_headers-Convertible = ground arith

-- The table has no entry of this name.
abbrev pub Unnamed : Text → List (Text × Text) → Type 0
Unnamed key = All (λ e. text_eq e.0 key ≡ false)

override-Unnamed :
    (key : Text) (before : List Text) (table : List (Text × Text))
    → Unnamed key table
    → override key before table ≡ before
override-Unnamed key before [] h = refl
override-Unnamed key before ((name, value) ∷ rest) h = rw h.0 (override-Unnamed key before rest h.1)

-- No entry is overridden by a later one.
override_own :
    (before : (key : Text) → List Text)
    → All (λ e. override e.0 (before e.0) security_headers ≡ e.1 ∷ []) security_headers
unfolding security_headers text_eq
override_own before = (refl, (refl, (refl, (refl, (refl, tt)))))

All-map :
    {A : Type 0} (P Q : A → Type 0) (xs : List A) → ((a : A) → P a → Q a) → All P xs → All Q xs
All-map P Q [] f h = tt
All-map P Q (x ∷ xs) f h = (f x h.0, All-map P Q xs f h.1)

-- If header names and values convert and are inserted as the http crate documents, then after
-- apply_security_headers, whatever headers a response had, each of the five security headers has
-- exactly its configured value, and every other header is as it was.
pub apply_security_headers_lem :
    (api : HeaderApi) (laws : HeaderLaws api) (headers : api.HeaderMap)
    → All (λ e. api.get_all e.0 (apply_security_headers api headers) ≡ e.1 ∷ []) security_headers
      × ((key : Text)
          → Unnamed key security_headers
          → api.get_all key (apply_security_headers api headers) ≡ api.get_all key headers)
unfolding apply_security_headers
apply_security_headers_lem api laws headers =
    let lem : (key : Text)
        → api.get_all key (apply_headers api security_headers headers)
          ≡ override key (api.get_all key headers) security_headers =
      λ key. apply_headers_lem api laws key security_headers headers security_headers-Convertible in
    (
      All-map (λ e. override e.0 (api.get_all e.0 headers) security_headers ≡ e.1 ∷ [])
          (λ e. api.get_all e.0 (apply_headers api security_headers headers) ≡ e.1 ∷ [])
          security_headers (λ e own. lem e.0 ∙ own) (override_own (λ key. api.get_all key headers)),
      λ key h. lem key ∙ override-Unnamed key (api.get_all key headers) security_headers h,
    )
