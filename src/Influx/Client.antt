-- ===== src/Influx/Client.antt =====
-- crates/huginn-influx/src/writer.rs: `InfluxWriter` and `InfluxWriter::new`. Whether reqwest can
-- build a client is an input.
pub mod Query
pub mod Ready
mod Tests
use huginn_io.Core.Config.Secrets.{read_token}
use huginn_io.Core.Config.{InfluxConfig}
use huginn_io.Core.Error.{Foreign, value, failed, Result, ok, err, influx, ◌>>=◌, ◌>>◌}
use huginn_io.Influx.LineProtocol.{urlencode}
use huginn_io.Prelude.{◌++◌, Text, codes, trim_end_matches}

pub record InfluxWriter : Type 0 where
  pub write_url : Text
  pub token : Text

unfoldable pub write_url_of : InfluxConfig → Text
write_url_of c =
    trim_end_matches b'/' c.url
    ++ (codes "/api/v2/write?org="
        ++ (urlencode c.org ++ (codes "&bucket=" ++ (urlencode c.bucket ++ codes "&precision=ms"))))

-- `.build().map_err(|e| HuginError::Influx(..))`
build_client : Foreign (Unit {0}) → Result (Unit {0})
build_client (value client) = ok tt
build_client (failed e) = err (influx e)

unfoldable pub new_writer :
    (Text → Foreign Text) → Foreign (Unit {0}) → InfluxConfig → Result InfluxWriter
unfolding build_client
new_writer files client c = do
  token ← read_token files c
  build_client client
  ok (record { write_url = write_url_of c; token = token })
