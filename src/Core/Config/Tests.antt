-- ===== src/Core/Config/Tests.antt =====
-- The theorems on the configuration at a small one.
use huginn_io.Core.Config.Address.{IpAddr, v4, v6, Serves, addresses_contend, addresses_contend_iff}
use huginn_io.Core.Config.Env.Overrides.{Overridden, apply_env_overrides-Overridden}
use huginn_io.Core.Config.Env.{
  Env, apply_env_overrides, env_influx, env_ui, env_metrics, env_log, take_parsed,
}
use huginn_io.Core.Config.Load.Safe.{IsPrintable, load_with_warnings-IsValid}
use huginn_io.Core.Config.Load.{
  load_with_warnings, prepare, escape_control_chars_in_names, escape_probes,
}
use huginn_io.Core.Config.Secrets.Closed.{Guards, read_api_key_iff}
use huginn_io.Core.Config.Secrets.{read_api_key}
use huginn_io.Core.Config.{MetricsConfig, default_metrics}
use huginn_io.Core.Config.Target.Split.{SplitsInto, split_host_port_iff}
use huginn_io.Core.Config.Target.Ports.{
  Lacks, HostPort, has_port_suffix_iff, split_host_port_brackets,
}
use huginn_io.Core.Config.Target.{
  has_port_suffix, split_host_port, validate_target, rsplit_once, is_absolute_url,
}
use huginn_io.Core.Config.Validate.Whole.{IsValid, validate_iff}
use huginn_io.Core.Config.Validate.{
  validate, validate_influx, validate_listeners, validate_probes, validate_probe, contains,
}
use huginn_io.Core.Decimal.{parse_u16, parse_unsigned, parse_digits}
use huginn_io.Core.Error.{Foreign, value, failed, ok}
use huginn_io.Core.Samples.{sample_parsers, sample_config}
use huginn_io.Core.Types.{escape_control_chars}
use huginn_io.Prelude.{
  Text, starts_with, ◌≡◌, ◌↔◌, refl, true, false, [], none, some, arith, codes, All, is_empty,
  text_eq, if◌then◌else◌,
}

addresses_contend_iff_example :
    (addresses_contend (v4 5) (v6 0) ≡ true) ↔ ((d : IpAddr) × Serves (v4 5) d × Serves (v6 0) d)
addresses_contend_iff_example = addresses_contend_iff (v4 5) (v6 0)

has_port_suffix_iff_example :
    (has_port_suffix (codes "mail:25") ≡ true) ↔ HostPort (codes "mail:25")
has_port_suffix_iff_example = has_port_suffix_iff (codes "mail:25")

port_443 : parse_u16 (codes "443") ≡ some 443
unfolding parse_unsigned parse_digits
port_443 = refl

port_443-Lacks : Lacks b':' (codes "443")
port_443-Lacks = ground arith

brackets_nonempty : is_empty (codes "[]") ≡ false
unfolding is_empty
brackets_nonempty = refl

abbrev bare_brackets : HostPort (codes "[]:443")
bare_brackets = record {
  host = codes "[]";
  port = codes "443";
  number = 443;
  split = refl;
  last = port_443-Lacks;
  nonempty = brackets_nonempty;
  reads = port_443;
}

split_host_port_iff_example :
    (split_host_port (codes "[::1]:443") ≡ some (codes "::1", 443))
    ↔ SplitsInto (codes "[::1]:443") (codes "::1") 443
split_host_port_iff_example = split_host_port_iff (codes "[::1]:443") (codes "::1") 443

split_host_port_brackets_example : split_host_port (codes "[::1]:443") ≡ some (codes "::1", 443)
split_host_port_brackets_example =
    split_host_port_brackets (codes "::1") (codes "443") 443 (λ e. cc) (ground arith) port_443

validate_iff_example :
    (validate sample_parsers sample_config ≡ ok tt) ↔ IsValid sample_parsers sample_config
validate_iff_example = validate_iff sample_parsers sample_config

abbrev sample_env : Env
sample_env name =
    if text_eq name (codes "HUGINN_UI_PORT")
    then some (codes "9200")
    else if text_eq name (codes "HUGINN_UI_ENABLED")
    then some (codes "yes")
    else none

apply_env_overrides-Overridden_example :
    Overridden sample_parsers sample_env sample_config
      (apply_env_overrides sample_parsers sample_env sample_config)
apply_env_overrides-Overridden_example =
    apply_env_overrides-Overridden sample_parsers sample_env sample_config

abbrev pub no_env : Env
no_env name = none

pub sample_load :
    load_with_warnings sample_parsers no_env (codes "c.yaml") (value []) (λ t. value sample_config)
    ≡ ok (sample_config, [])
unfolding load_with_warnings prepare escape_control_chars_in_names escape_probes
    escape_control_chars apply_env_overrides env_influx env_ui env_metrics env_log take_parsed
    validate validate_influx validate_listeners validate_probes validate_probe validate_target
    contains has_port_suffix rsplit_once parse_unsigned parse_digits is_absolute_url is_empty
    starts_with text_eq addresses_contend
sample_load = refl

load_with_warnings-IsValid_example :
    IsValid sample_parsers sample_config × All IsPrintable sample_config.probes
load_with_warnings-IsValid_example =
    load_with_warnings-IsValid sample_parsers no_env (codes "c.yaml") (value [])
      (λ t. value sample_config) {r = (sample_config, [])} sample_load

-- One file, which holds a secret and a line end.
abbrev sample_files : Text → Foreign Text
sample_files path =
    if text_eq path (codes "key") then value (codes "s3\n") else failed (codes "no such file")

abbrev keyed_metrics : MetricsConfig
keyed_metrics = record default_metrics { api_key_file = some (codes "key") }

read_api_key_iff_example :
    (read_api_key sample_files keyed_metrics ≡ ok (some (codes "s3")))
    ↔ Guards sample_files keyed_metrics.api_key_file (some (codes "s3"))
read_api_key_iff_example = read_api_key_iff sample_files keyed_metrics (some (codes "s3"))
