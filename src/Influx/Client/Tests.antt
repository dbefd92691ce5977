-- ===== src/Influx/Client/Tests.antt =====
-- The theorem on the write URL at a configuration whose names hold reserved characters.
use huginn_io.Core.Config.{InfluxConfig, default_influx}
use huginn_io.Prelude.{codes}

abbrev reserved : InfluxConfig
reserved = record default_influx {
  url = codes "http://db:8086/";
  org = codes "a&b=c";
  bucket = codes "ü probes";
}
