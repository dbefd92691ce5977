-- ===== src/Core/Config/Validate/Whole.antt =====
-- crates/huginn-core/src/config.rs: `AppConfig::validate` as a whole, against the conditions on
-- each part.
use huginn_io.Prelude.{◌<◌, ◌≡◌, ◌↔◌, arith, All}
use huginn_io.Core.Config.Address.{Parsers}
use huginn_io.Core.Config.Validate.Probes.{ProbeOk, Distinct, validate_probes_iff}
use huginn_io.Core.Config.Validate.Sound.{
  InfluxOk, ListenersOk, validate_influx_iff, validate_listeners_iff,
}
use huginn_io.Core.Config.Validate.{validate}
use huginn_io.Core.Config.{AppConfig}
use huginn_io.Core.Error.{ok}
use huginn_io.Core.Platform.{Platform}

pub record IsValid {p : Platform} (n : Parsers) (cfg : AppConfig p) : Type 0 where
  pub influx : InfluxOk cfg.influx
  pub hub_capacity : 0 < cfg.event_hub_capacity
  pub listeners : ListenersOk n cfg.ui cfg.metrics cfg.health
  pub probes : All (ProbeOk n) cfg.probes
  pub distinct : Distinct n cfg.probes

module _ {p : Platform} (n : Parsers) (cfg : AppConfig p) where
  there : validate n cfg ≡ ok tt → IsValid n cfg
  unfolding validate
  there h =
      let probes = (validate_probes_iff n cfg.probes).0 (ground arith) in
      record {
        influx = (validate_influx_iff cfg.influx).0 (ground arith);
        hub_capacity = ground arith;
        listeners = (validate_listeners_iff n cfg.ui cfg.metrics cfg.health).0 (ground arith);
        probes = probes.0;
        distinct = probes.1;
      }

  back : IsValid n cfg → validate n cfg ≡ ok tt
  unfolding validate
  back v = ground (
    arith,
    (validate_influx_iff cfg.influx).1 v.influx,
    (validate_listeners_iff n cfg.ui cfg.metrics cfg.health).1 v.listeners,
    (validate_probes_iff n cfg.probes).1 (v.probes, v.distinct),
  )

  -- validate accepts a configuration exactly when the InfluxDB section, the hub capacity, the
  -- listeners and every probe are in order and the probe names are distinct.
  pub validate_iff : (validate n cfg ≡ ok tt) ↔ IsValid n cfg
  validate_iff = (there, back)
