-- ===== src/Web/Headers/Tests.antt =====
-- A header map that is a function of the names.
use huginn_io.Prelude.{refl, List, [], ◌∷◌, some, Text, if◌then◌else◌, text_eq, text_eq_iff}
use huginn_io.Web.Headers.Applied.{HeaderLaws}
use huginn_io.Web.Headers.{HeaderApi}

-- Every text is a name and a value, and a map is a function.
abbrev pub text_api : HeaderApi
text_api = record {
  HeaderName = Text;
  HeaderValue = Text;
  HeaderMap = Text → List Text;
  name_from_bytes = λ s. some s;
  value_from_str = λ s. some s;
  insert = λ name value headers key. if text_eq name key then value ∷ [] else headers key;
  name_text = λ s. s;
  value_text = λ s. s;
  get_all = λ key headers. headers key;
}

pub text_laws : HeaderLaws text_api
text_laws = record {
  name_converts = λ s h k. (s, refl, refl);
  value_converts = λ s h. (s, refl, refl);
  inserted = λ name value headers. rw ((text_eq_iff name name).1 refl) refl;
  others = λ key name value headers h. rw h refl;
}
