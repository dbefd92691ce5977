-- ===== src/Core/Config/Secrets.antt =====
-- crates/huginn-core/src/config.rs: `read_token` and `read_api_key`. The file system says what each
-- path reads as; the warning about a file's mode is only logged.
pub mod Closed
use huginn_io.Core.Config.{InfluxConfig, MetricsConfig}
use huginn_io.Core.Error.{Foreign, value, failed, Result, ok, err, secret, ◌>>=◌}
use huginn_io.Prelude.{Bool, Option, none, some, if◌then◌else◌, Text, codes, is_empty, trim}

-- The part that both have in common: a file that cannot be read, or holds nothing, is an error.
read_secret : Text → Text → Foreign Text → Result Text
read_secret path empty (failed e) = err (secret path e)
read_secret path empty (value content) =
    if is_empty (trim content) then err (secret path empty) else ok (trim content)

unfoldable pub read_token : (Text → Foreign Text) → InfluxConfig → Result Text
unfolding read_secret
read_token files c =
    read_secret c.token_file (codes "InfluxDB token file is empty") (files c.token_file)

-- `let Some(path) = &self.api_key_file else { return Ok(None) }`, and then the file.
api_key_of : (Text → Foreign Text) → Option Text → Result (Option Text)
unfolding read_secret
api_key_of files none = ok none
api_key_of files (some path) =
    read_secret path (codes "metrics API key file is empty") (files path) >>= λ key. ok (some key)

unfoldable pub read_api_key : (Text → Foreign Text) → MetricsConfig → Result (Option Text)
unfolding api_key_of
read_api_key files c = api_key_of files c.api_key_file
