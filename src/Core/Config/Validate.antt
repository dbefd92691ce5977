-- ===== src/Core/Config/Validate.antt =====
-- crates/huginn-core/src/config.rs: `AppConfig::validate`, part by part in the order of the source.
pub mod Sound
pub mod Probes
pub mod Whole
use huginn_io.Prelude.{
  ℕ, Bool, true, false, not, ◌&&◌, ◌||◌, List, [], ◌∷◌, Option, none, some, ltb, leb, ◌==◌,
  if◌then◌else◌, Text, codes, is_empty, text_eq,
}
use huginn_io.Core.Config.Address.{Parsers, IpAddr, addresses_contend, health_addr}
use huginn_io.Core.Config.Messages
use huginn_io.Core.Config.Target.{validate_target, is_absolute_url}
use huginn_io.Core.Config.{
  InfluxConfig, UiConfig, MetricsConfig, HealthConfig, ProbeConfig, AppConfig,
}
use huginn_io.Core.Error.{Result, ok, err, ◌>>=◌, ◌>>◌, refuse_if, or_refuse}
use huginn_io.Core.Platform.{Platform}

unfoldable pub validate_influx : InfluxConfig → Result (Unit {0})
validate_influx c = do
  refuse_if (is_empty c.url) Messages.url_empty
  refuse_if (not (is_absolute_url c.url)) (Messages.url_relative c.url)
  refuse_if (is_empty c.org) Messages.org_empty
  refuse_if (is_empty c.bucket) Messages.bucket_empty
  refuse_if (c.batch_size == 0) Messages.batch_size_zero
  refuse_if (c.batch_timeout_ms == 0) Messages.batch_timeout_zero
  refuse_if (c.max_buffered_bytes == 0) Messages.max_buffered_zero
  refuse_if (c.retry_initial_backoff_ms == 0) Messages.initial_backoff_zero
  refuse_if (c.retry_max_backoff_ms == 0) Messages.max_backoff_zero
  refuse_if (ltb c.retry_max_backoff_ms c.retry_initial_backoff_ms)
      (Messages.ceiling_below_first c.retry_max_backoff_ms c.retry_initial_backoff_ms)

-- `if let Some(path)`: an empty path is refused.
key_file_empty : Option Text → Bool
key_file_empty none = false
key_file_empty (some path) = is_empty path

-- One round of the loop over the listeners that the health listener could collide with.
refuse_health_collision : HealthConfig → Text → Bool → Text → IpAddr → ℕ → Result (Unit {0})
refuse_health_collision health name enabled bind addr port =
    refuse_if (enabled && (port == health.port && addresses_contend addr health_addr))
      (Messages.health_collides name bind port)

validate_health : HealthConfig → UiConfig → MetricsConfig → IpAddr → IpAddr → Result (Unit {0})
unfolding refuse_health_collision
validate_health health ui metrics ui_addr metrics_addr =
    if health.enabled
    then (do
      refuse_health_collision health (codes "ui") ui.enabled ui.bind ui_addr ui.port
      refuse_health_collision health (codes "metrics") metrics.enabled metrics.bind metrics_addr
          metrics.port)
    else ok tt

unfoldable pub validate_listeners :
    Parsers → UiConfig → MetricsConfig → HealthConfig → Result (Unit {0})
unfolding key_file_empty validate_health
validate_listeners n ui metrics health = do
  ui_addr ← or_refuse (n.parse_ip ui.bind) (Messages.bind_not_ip (codes "ui") ui.bind)
  metrics_addr ←
      or_refuse (n.parse_ip metrics.bind) (Messages.bind_not_ip (codes "metrics") metrics.bind)
  refuse_if (ui.enabled && ui.port == 0) (Messages.port_zero (codes "ui"))
  refuse_if (metrics.enabled && metrics.port == 0) (Messages.port_zero (codes "metrics"))
  refuse_if (key_file_empty metrics.api_key_file) Messages.api_key_file_empty
  refuse_if
      (ui.enabled
        && (metrics.enabled && (addresses_contend ui_addr metrics_addr && ui.port == metrics.port)))
      (Messages.ui_metrics_collide ui.bind ui.port)
  validate_health health ui metrics ui_addr metrics_addr

-- `HashSet::contains`; `insert` says whether the name is new.
unfoldable pub contains : List Text → Text → Bool
contains [] name = false
contains (x ∷ xs) name = text_eq x name || contains xs name

module _ {p : Platform} (n : Parsers) where
  validate_fail_days : ProbeConfig p → Option p.F64 → Result (Unit {0})
  validate_fail_days c none = ok tt
  validate_fail_days c (some days) = do
    refuse_if (not (p.is_finite days))
        (Messages.of_probe c.name (Messages.fail_days_not_finite (p.show_f64 days)))
    refuse_if (p.f64_lt days (p.of_nat 0)) (Messages.of_probe c.name Messages.fail_days_negative)

  validate_status : ProbeConfig p → Option ℕ → Result (Unit {0})
  validate_status c none = ok tt
  validate_status c (some status) =
      refuse_if (not (leb 100 status && leb status 599))
        (Messages.of_probe c.name (Messages.status_out_of_range status))

  validate_expected_ip : ProbeConfig p → Option Text → Result (Unit {0})
  validate_expected_ip c none = ok tt
  validate_expected_ip c (some ip) = do
    addr ← or_refuse (n.parse_ip ip) (Messages.of_probe c.name (Messages.expected_ip_invalid ip))
    ok tt

  -- One round of the loop over the probes, with the names seen before.
  unfoldable pub validate_probe : List Text → ProbeConfig p → Result (Unit {0})
  unfolding validate_fail_days validate_status validate_expected_ip
  validate_probe seen c = do
    refuse_if (is_empty c.name) Messages.probe_name_empty
    refuse_if (contains seen c.name) (Messages.duplicate_name c.name)
    refuse_if (is_empty c.target) (Messages.of_probe c.name Messages.target_empty)
    refuse_if (c.interval_secs == 0) (Messages.of_probe c.name Messages.interval_zero)
    refuse_if (c.timeout_secs == 0) (Messages.of_probe c.name Messages.timeout_zero)
    validate_fail_days c c.tls_expiry_fail_days
    validate_status c c.expected_status
    validate_expected_ip c c.dns_expected_ip
    validate_target n c

  unfoldable pub validate_probes : List Text → List (ProbeConfig p) → Result (Unit {0})
  validate_probes seen [] = ok tt
  validate_probes seen (c ∷ cs) = do validate_probe seen c; validate_probes (c.name ∷ seen) cs

  unfoldable pub validate : AppConfig p → Result (Unit {0})
  validate cfg = do
    validate_influx cfg.influx
    refuse_if (cfg.event_hub_capacity == 0) Messages.hub_capacity_zero
    validate_listeners n cfg.ui cfg.metrics cfg.health
    validate_probes [] cfg.probes
