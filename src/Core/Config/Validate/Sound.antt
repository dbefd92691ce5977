-- ===== src/Core/Config/Validate/Sound.antt =====
-- crates/huginn-core/src/config.rs: the conditions that `validate` checks on the InfluxDB section
-- and on the listeners.
use huginn_io.Prelude.{
  ℕ, ◌≤◌, ◌<◌, ◌≡◌, ◌≢◌, ◌↔◌, refl, Bool, true, false, ◌&&◌, [], ◌∷◌, Option, none, some, arith,
  Text, is_empty, starts_with, ◌==◌, Bool-cases, Option-cases, inl, inr,
}
use huginn_io.Core.Config.Address.{
  Parsers, IpAddr, Serves, addresses_contend, addresses_contend_iff, health_addr,
}
use huginn_io.Core.Config.Target.{is_absolute_url}
use huginn_io.Core.Config.Validate.{
  validate_influx, validate_listeners, validate_health, key_file_empty,
}
use huginn_io.Core.Config.{InfluxConfig, UiConfig, MetricsConfig, HealthConfig}
use huginn_io.Core.Error.{ok}

pub record InfluxOk (c : InfluxConfig) : Type 0 where
  pub url : is_absolute_url c.url ≡ true
  pub org : is_empty c.org ≡ false
  pub bucket : is_empty c.bucket ≡ false
  pub batch_size : 0 < c.batch_size
  pub batch_timeout : 0 < c.batch_timeout_ms
  pub max_buffered : 0 < c.max_buffered_bytes
  pub first_delay : 0 < c.retry_initial_backoff_ms
  pub ceiling : c.retry_initial_backoff_ms ≤ c.retry_max_backoff_ms

absolute_nonempty : (t : Text) → is_absolute_url t ≡ true → is_empty t ≡ false
unfolding is_absolute_url starts_with is_empty
absolute_nonempty [] h = cc
absolute_nonempty (c ∷ t) h = refl

pub validate_influx_iff : (c : InfluxConfig) → (validate_influx c ≡ ok tt) ↔ InfluxOk c
unfolding validate_influx
validate_influx_iff c = (λ h. ground arith, λ i. ground (arith, absolute_nonempty c.url))

-- Two listeners that are both on and share a port have no address in common.
abbrev pub Apart : Bool → ℕ → IpAddr → Bool → ℕ → IpAddr → Type 0
Apart on port addr on' port' addr' =
    on ≡ true → on' ≡ true → port ≡ port' → (d : IpAddr) → Serves addr d → ¬ Serves addr' d

collide : (on : Bool) (port : ℕ) (addr : IpAddr) (on' : Bool) (port' : ℕ) (addr' : IpAddr) → Bool
collide on port addr on' port' addr' =
    on && (on' && (addresses_contend addr addr' && port == port'))

Apart-iff :
    (on : Bool) (port : ℕ) (addr : IpAddr) (on' : Bool) (port' : ℕ) (addr' : IpAddr)
    → (collide on port addr on' port' addr' ≡ false) ↔ Apart on port addr on' port' addr'
unfolding collide
Apart-iff on port addr on' port' addr' = (
  λ h a b e d s t. ground (arith, (addresses_contend_iff addr addr').1 (d, s, t)),
  λ h. elim (Bool-cases (collide on port addr on' port' addr')) [
    | inl bad ↦
        let common = (addresses_contend_iff addr addr').0 (ground (arith, bad)) in
        absurd (h (ground arith) (ground arith) (ground arith) common.0 common.1 common.2)
    | inr fine ↦ fine
  ],
)

-- The listeners' tests, with the addresses that were read.
record ListenerTests (n : Parsers) (ui : UiConfig) (metrics : MetricsConfig) (health : HealthConfig)
    : Type 0 where
  ui_addr : IpAddr
  metrics_addr : IpAddr
  ui_reads : n.parse_ip ui.bind ≡ some ui_addr
  metrics_reads : n.parse_ip metrics.bind ≡ some metrics_addr
  ui_port : ui.enabled ≡ true → ui.port ≢ 0
  metrics_port : metrics.enabled ≡ true → metrics.port ≢ 0
  key_file : key_file_empty metrics.api_key_file ≡ false
  apart : collide ui.enabled ui.port ui_addr metrics.enabled metrics.port metrics_addr ≡ false
  ui_health : collide ui.enabled ui.port ui_addr health.enabled health.port health_addr ≡ false
  metrics_health :
      collide metrics.enabled metrics.port metrics_addr health.enabled health.port health_addr
      ≡ false

validate_listeners_tests :
    (n : Parsers) (ui : UiConfig) (metrics : MetricsConfig) (health : HealthConfig)
    → validate_listeners n ui metrics health ≡ ok tt
    → ListenerTests n ui metrics health
unfolding validate_listeners validate_health collide
validate_listeners_tests n ui metrics health h = elim (Option-cases (n.parse_ip ui.bind)) [
  | inl e ↦ absurd (ground (arith, e))
  | inr (a, e) ↦ elim (Option-cases (n.parse_ip metrics.bind)) [
    | inl f ↦ absurd (ground (arith, e, f))
    | inr (b, f) ↦ record {
      ui_addr = a;
      metrics_addr = b;
      ui_reads = e;
      metrics_reads = f;
      ui_port = ground arith;
      metrics_port = ground arith;
      key_file = ground arith;
      apart = ground arith;
      ui_health = ground arith;
      metrics_health = ground arith;
    }
  ]
]

tests_validate_listeners :
    (n : Parsers) (ui : UiConfig) (metrics : MetricsConfig) (health : HealthConfig)
    → ListenerTests n ui metrics health
    → validate_listeners n ui metrics health ≡ ok tt
unfolding validate_listeners validate_health collide
tests_validate_listeners n ui metrics health t = ground arith

-- Both bind texts are addresses, a listener that is on has a port, a key file is named if it is
-- given, and no two of the three listeners that are on would serve one address on one port.
pub record ListenersOk (n : Parsers) (ui : UiConfig) (metrics : MetricsConfig)
    (health : HealthConfig) : Type 0 where
  pub ui_addr : IpAddr
  pub metrics_addr : IpAddr
  pub ui_reads : n.parse_ip ui.bind ≡ some ui_addr
  pub metrics_reads : n.parse_ip metrics.bind ≡ some metrics_addr
  pub ui_port : ui.enabled ≡ true → ui.port ≢ 0
  pub metrics_port : metrics.enabled ≡ true → metrics.port ≢ 0
  pub key_file : (path : Text) → metrics.api_key_file ≡ some path → is_empty path ≡ false
  pub apart : Apart ui.enabled ui.port ui_addr metrics.enabled metrics.port metrics_addr
  pub ui_health : Apart ui.enabled ui.port ui_addr health.enabled health.port health_addr
  pub metrics_health :
      Apart metrics.enabled metrics.port metrics_addr health.enabled health.port health_addr

key_file_empty_iff :
    (o : Option Text)
    → (key_file_empty o ≡ false) ↔ ((path : Text) → o ≡ some path → is_empty path ≡ false)
unfolding key_file_empty
key_file_empty_iff none = (λ _ path e. cc, λ _. refl)
key_file_empty_iff (some x) = (λ h path e. ground arith, λ h. h x refl)

pub validate_listeners_iff :
    (n : Parsers) (ui : UiConfig) (metrics : MetricsConfig) (health : HealthConfig)
    → (validate_listeners n ui metrics health ≡ ok tt) ↔ ListenersOk n ui metrics health
validate_listeners_iff n ui metrics health = (there, back)
  where
    there : validate_listeners n ui metrics health ≡ ok tt → ListenersOk n ui metrics health
    there h =
        let t = validate_listeners_tests n ui metrics health h in
        record {
          ui_addr = t.ui_addr;
          metrics_addr = t.metrics_addr;
          ui_reads = t.ui_reads;
          metrics_reads = t.metrics_reads;
          ui_port = t.ui_port;
          metrics_port = t.metrics_port;
          key_file = (key_file_empty_iff metrics.api_key_file).0 t.key_file;
          apart = (Apart-iff _ _ _ _ _ _).0 t.apart;
          ui_health = (Apart-iff _ _ _ _ _ _).0 t.ui_health;
          metrics_health = (Apart-iff _ _ _ _ _ _).0 t.metrics_health;
        }

    back : ListenersOk n ui metrics health → validate_listeners n ui metrics health ≡ ok tt
    back o = tests_validate_listeners n ui metrics health (record {
      ui_addr = o.ui_addr;
      metrics_addr = o.metrics_addr;
      ui_reads = o.ui_reads;
      metrics_reads = o.metrics_reads;
      ui_port = o.ui_port;
      metrics_port = o.metrics_port;
      key_file = (key_file_empty_iff metrics.api_key_file).1 o.key_file;
      apart = (Apart-iff _ _ _ _ _ _).1 o.apart;
      ui_health = (Apart-iff _ _ _ _ _ _).1 o.ui_health;
      metrics_health = (Apart-iff _ _ _ _ _ _).1 o.metrics_health;
    })
