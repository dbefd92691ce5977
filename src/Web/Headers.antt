-- ===== src/Web/Headers.antt =====
-- crates/huginn-web/src/headers.rs: the security headers. The header map of the http crate is a
-- parameter, with what the code relies on.
pub mod Applied
pub mod Tests
use huginn_io.Prelude.{
  ℕ, ◌≤◌, ◌≡◌, Bool, true, false, ◌&&◌, ◌||◌, List, [], ◌∷◌, ◌++◌, Option, none, some, leb, ◌==◌,
  Text, Bytes, All, codes,
}

-- `HeaderName`, `HeaderValue` and `HeaderMap`.
pub record HeaderApi : Type 1 where
  pub HeaderName : Type 0
  pub HeaderValue : Type 0
  pub HeaderMap : Type 0
  pub name_from_bytes : Bytes → Option HeaderName
  pub value_from_str : Text → Option HeaderValue
  pub insert : HeaderName → HeaderValue → HeaderMap → HeaderMap
  pub name_text : HeaderName → Text
  pub value_text : HeaderValue → Text
  -- `headers.get_all(name)`, as texts.
  pub get_all : Text → HeaderMap → List Text

csp : Text
csp =
    codes "default-src 'none'; script-src 'self'; style-src 'self'; "
    ++ (codes "connect-src 'self'; img-src 'none'; base-uri 'none'; form-action 'none'; "
        ++ codes "frame-ancestors 'none'")

unfoldable pub security_headers : List (Text × Text)
unfolding csp
security_headers =
    (codes "content-security-policy", csp)
    ∷ (codes "x-content-type-options", codes "nosniff")
    ∷ (codes "x-frame-options", codes "DENY")
    ∷ (codes "referrer-policy", codes "no-referrer")
    ∷ (codes "cache-control", codes "no-store")
    ∷ []

module _ (api : HeaderApi) where
  -- One round of the loop, which skips a name or a value that does not convert.
  insert_converted : Option api.HeaderName → Option api.HeaderValue → api.HeaderMap → api.HeaderMap
  insert_converted (some name) (some value) headers = api.insert name value headers
  insert_converted _ _ headers = headers

  apply_headers : List (Text × Text) → api.HeaderMap → api.HeaderMap
  unfolding insert_converted
  apply_headers [] headers = headers
  apply_headers ((name, value) ∷ rest) headers =
      apply_headers rest
        (insert_converted (api.name_from_bytes name) (api.value_from_str value) headers)

  unfoldable pub apply_security_headers : api.HeaderMap → api.HeaderMap
  unfolding apply_headers security_headers
  apply_security_headers headers = apply_headers security_headers headers
