-- ===== src/Core/Samples.antt =====
-- Concrete stand-ins for what the crates take from outside, and data for the tests.
use huginn_io.Core.Config.Address.{Parsers, v4}
use huginn_io.Core.Config.Target.{has_port_suffix}
use huginn_io.Core.Config.{
  ProbeConfig, AppConfig, default_influx, default_ui, default_metrics, default_health, default_log,
  default_probe, default_hub_capacity,
}
use huginn_io.Core.Decimal.{show_nat}
use huginn_io.Core.Platform.{Platform}
use huginn_io.Core.Types.{ProbeResult}
use huginn_io.Prelude.{ℕ, ◌/◌, true, [], ◌∷◌, some, none, ltb, if◌then◌else◌, codes, text_eq}

-- Natural numbers in place of floating point and of times.
abbrev pub sample_platform : Platform
sample_platform = record {
  F64 = ℕ;
  of_nat = λ n. n;
  f64_lt = ltb;
  f64_neg = λ x. x;
  f64_div = ◌/◌;
  is_finite = λ x. true;
  show_f64 = show_nat;
  show_fixed = λ n x. show_nat x;
  Timestamp = ℕ;
  show_millis = show_nat;
  unix_seconds = λ t. t;
}

-- It reads the loopback address only.
abbrev pub sample_parsers : Parsers
sample_parsers = record {
  parse_ip = λ t. if text_eq t (codes "127.0.0.1") then some (v4 0x7f000001) else none;
  is_socket_addr = has_port_suffix;
}

abbrev pub mail_probe : ProbeConfig sample_platform
mail_probe = record (default_probe sample_platform) {
  name = codes "mail";
  target = codes "mail:25";
}

abbrev pub sample_config : AppConfig sample_platform
sample_config = record {
  influx = record default_influx {
    url = codes "http://db";
    org = codes "org";
    bucket = codes "probes";
  };
  probes = mail_probe ∷ [];
  ui = default_ui;
  metrics = default_metrics;
  health = default_health;
  log = default_log;
  event_hub_capacity = default_hub_capacity;
}

-- An up and a down, whose error holds a line feed.
abbrev pub sample_up : ProbeResult sample_platform
sample_up = record {
  probe_name = codes "a b";
  probe_type = codes "tcp";
  target = codes "h,1";
  up = true;
  response_ms = 7;
  status_code = none;
  error = none;
  timestamp = 9;
  metrics = [];
}

abbrev pub sample_down : ProbeResult sample_platform
sample_down = record sample_up { error = some (codes "one\ntwo"); status_code = some 503 }
