-- ===== src/Core/Config.antt =====
-- crates/huginn-core/src/config.rs: the configuration's records and their defaults.
pub mod Address
pub mod Target
pub mod Messages
pub mod Validate
pub mod Env
pub mod Load
pub mod Secrets
pub mod Tests
use huginn_io.Prelude.{ℕ, ◌*◌, Bool, true, false, List, [], Option, none, Text, codes}
use huginn_io.Core.Platform.{Platform}

pub record InfluxConfig : Type 0 where
  pub url : Text
  pub org : Text
  pub bucket : Text
  pub token_file : Text
  pub batch_size : ℕ
  pub batch_timeout_ms : ℕ
  pub max_buffered_bytes : ℕ
  pub retry_initial_backoff_ms : ℕ
  pub retry_max_backoff_ms : ℕ
  pub shutdown_drain_timeout_ms : ℕ

abbrev pub default_influx : InfluxConfig
default_influx = record {
  url = [];
  org = [];
  bucket = [];
  token_file = codes "/run/secrets/influx_token";
  batch_size = 10;
  batch_timeout_ms = 1000;
  max_buffered_bytes = 8 * 1024 * 1024;
  retry_initial_backoff_ms = 500;
  retry_max_backoff_ms = 30000;
  shutdown_drain_timeout_ms = 5000;
}

pub record UiConfig : Type 0 where
  pub enabled : Bool
  pub bind : Text
  pub port : ℕ

abbrev pub default_ui : UiConfig
default_ui = record { enabled = false; bind = codes "127.0.0.1"; port = 9116 }

pub record MetricsConfig : Type 0 where
  pub enabled : Bool
  pub bind : Text
  pub port : ℕ
  pub api_key_file : Option Text

abbrev pub default_metrics : MetricsConfig
default_metrics = record {
  enabled = false;
  bind = codes "127.0.0.1";
  port = 9464;
  api_key_file = none;
}

pub record HealthConfig : Type 0 where
  pub enabled : Bool
  pub port : ℕ

abbrev pub default_health : HealthConfig
default_health = record { enabled = true; port = 9115 }

pub data LogFormat : Type 0 where
  pretty json : LogFormat

pub record LogConfig : Type 0 where
  pub format : LogFormat
  pub level : Text

abbrev pub default_log : LogConfig
default_log = record { format = pretty; level = codes "info" }

pub data ProbeType : Type 0 where
  tcp http https smtp imap udp dns tls : ProbeType

-- `Display for ProbeType`
unfoldable pub show_probe_type : ProbeType → Text
show_probe_type tcp = codes "tcp"
show_probe_type http = codes "http"
show_probe_type https = codes "https"
show_probe_type smtp = codes "smtp"
show_probe_type imap = codes "imap"
show_probe_type udp = codes "udp"
show_probe_type dns = codes "dns"
show_probe_type tls = codes "tls"

pub record ProbeConfig (p : Platform) : Type 0 where
  pub name : Text
  pub probe_type : ProbeType
  pub target : Text
  pub interval_secs : ℕ
  pub timeout_secs : ℕ
  pub expected_status : Option ℕ
  pub dns_query : Option Text
  pub dns_expected_ip : Option Text
  pub tls_expiry_fail_days : Option p.F64

abbrev pub default_probe : (p : Platform) → ProbeConfig p
default_probe p = record {
  name = [];
  probe_type = tcp;
  target = [];
  interval_secs = 30;
  timeout_secs = 5;
  expected_status = none;
  dns_query = none;
  dns_expected_ip = none;
  tls_expiry_fail_days = none;
}

pub record AppConfig (p : Platform) : Type 0 where
  pub influx : InfluxConfig
  pub probes : List (ProbeConfig p)
  pub ui : UiConfig
  pub metrics : MetricsConfig
  pub health : HealthConfig
  pub log : LogConfig
  pub event_hub_capacity : ℕ

abbrev pub default_hub_capacity : ℕ
default_hub_capacity = 256
