-- ===== src/Core/Config/Secrets/Closed.antt =====
-- crates/huginn-core/src/config.rs: `read_token` and `read_api_key` against the files' contents.
use huginn_io.Core.Config.Secrets.{read_secret, api_key_of, read_token, read_api_key}
use huginn_io.Core.Config.{InfluxConfig, MetricsConfig}
use huginn_io.Core.Error.{Foreign, value, failed, ok, ◌>>=◌}
use huginn_io.Prelude.{◌≡◌, ◌↔◌, false, Option, none, some, arith, Text, is_empty, trim}

-- The file holds this secret: its text without the spaces around it, which is not empty.
abbrev pub Holds : Foreign Text → Text → Type 0
Holds (failed e) found = ⊥
Holds (value content) found = (trim content ≡ found) × (is_empty found ≡ false)

read_secret_iff :
    (path empty found : Text) (file : Foreign Text)
    → (read_secret path empty file ≡ ok found) ↔ Holds file found
unfolding read_secret
read_secret_iff path empty found (failed e) = ground arith
read_secret_iff path empty found (value content) = ground arith

-- read_token returns a token exactly when the token file could be read and the token is its text
-- without surrounding whitespace, and not empty.
pub read_token_iff :
    (files : Text → Foreign Text) (c : InfluxConfig) (token : Text)
    → (read_token files c ≡ ok token) ↔ Holds (files c.token_file) token
unfolding read_token
read_token_iff files c token = read_secret_iff c.token_file _ token (files c.token_file)

-- What the endpoint is then guarded with.
abbrev pub Guards : (Text → Foreign Text) → Option Text → Option Text → Type 0
Guards files none key = key ≡ none
Guards files (some path) none = ⊥
Guards files (some path) (some found) = Holds (files path) found

-- What the key is, once the file was looked at.
abbrev Found : Foreign Text → Option Text → Type 0
Found file none = ⊥
Found file (some found) = Holds file found

opened_key_iff :
    (path empty : Text) (file : Foreign Text) (key : Option Text)
    → ((read_secret path empty file >>= λ found. ok (some found)) ≡ ok key) ↔ Found file key
unfolding read_secret
opened_key_iff path empty (failed e) none = ground arith
opened_key_iff path empty (failed e) (some found) = ground arith
opened_key_iff path empty (value content) none = ground arith
opened_key_iff path empty (value content) (some found) = ground arith

api_key_of_iff :
    (files : Text → Foreign Text) (path key : Option Text)
    → (api_key_of files path ≡ ok key) ↔ Guards files path key
unfolding api_key_of
api_key_of_iff files none key = ground arith
api_key_of_iff files (some path) none = opened_key_iff path _ (files path) none
api_key_of_iff files (some path) (some found) = opened_key_iff path _ (files path) (some found)

-- read_api_key returns no key exactly when no key file is configured, and a key exactly when the
-- configured file could be read and the key is its text without surrounding whitespace, and not
-- empty; in every other case it is an error.
pub read_api_key_iff :
    (files : Text → Foreign Text) (c : MetricsConfig) (key : Option Text)
    → (read_api_key files c ≡ ok key) ↔ Guards files c.api_key_file key
unfolding read_api_key
read_api_key_iff files c key = api_key_of_iff files c.api_key_file key
