-- ===== src/Probes/Registry.antt =====
-- crates/huginn-probes/src/registry.rs: the probe for each type, and huginn/src/scheduler.rs:
-- `execute_probe`, which runs it. What a log line says is not modelled.
pub mod Contract
pub mod Verdicts
use huginn_io.Prelude.{ℕ, List, Option, none, some, ◌++◌, Text, Bytes, codes}
use huginn_io.Core.Config.Address.{Parsers, IpAddr}
use huginn_io.Core.Config.Target.{split_host_port}
use huginn_io.Core.Config.{ProbeConfig, ProbeType, tcp, http, https, smtp, imap, udp, dns, tls}
use huginn_io.Core.Error.{Foreign}
use huginn_io.Core.Platform.{Platform}
use huginn_io.Core.Types.{ProbeResult}
use huginn_io.Probes.Greeting.{Read}
use huginn_io.Probes.Kinds.{
  UdpSteps, greeting, tcp_probe, http_probe, smtp_probe, imap_probe, udp_probe, dns_probe,
  tls_probe,
}
use huginn_io.Probes.{Timed, broke}

-- What the outside gives to one run of a probe, by the kind of probe that looks at it.
pub record World (p : Platform) : Type 0 where
  pub tcp_connect : Timed (Unit {0})
  -- SMTP and IMAP.
  pub connect : Foreign (Unit {0})
  pub reads : List Read
  pub from_utf8_lossy : Bytes → Text
  -- HTTP and HTTPS.
  pub http_client : Foreign (Unit {0})
  pub http_status : Timed ℕ
  pub udp_steps : UdpSteps
  -- DNS.
  pub nameserver : Foreign (Unit {0})
  pub resolver : Foreign (Unit {0})
  pub lookup : Timed (List IpAddr)
  pub explain : IpAddr → List IpAddr → Text
  -- TLS.
  pub tls_config : Foreign (Unit {0})
  pub handshake : Text → Timed Bytes
  pub cert_expiry_days : Bytes → Foreign p.F64

-- The handshake with the host that the target names.
unfoldable pub fetch_peer_certificate : Text → (Text → Timed Bytes) → Timed Bytes
fetch_peer_certificate target handshake = elim (split_host_port target) [
  | none ↦ broke (codes "target '" ++ (target ++ codes "' must be host:port"))
  | some (host, port) ↦ handshake host
]

module _ {p : Platform} (n : Parsers) (w : World p) (now : p.Timestamp) (ms : p.F64) where
  run_kind : ProbeConfig p → ProbeType → ProbeResult p
  unfolding fetch_peer_certificate
  run_kind c tcp = tcp_probe now ms c w.tcp_connect
  run_kind c http = http_probe now ms c w.http_client w.http_status
  run_kind c https = http_probe now ms c w.http_client w.http_status
  run_kind c smtp = smtp_probe now ms c (greeting w.from_utf8_lossy w.connect w.reads)
  run_kind c imap = imap_probe now ms c (greeting w.from_utf8_lossy w.connect w.reads)
  run_kind c udp = udp_probe now ms c w.udp_steps
  run_kind c dns = dns_probe now ms c n w.explain w.nameserver w.resolver w.lookup
  run_kind c tls =
      tls_probe now ms c w.tls_config (fetch_peer_certificate c.target w.handshake)
        w.cert_expiry_days

  unfoldable pub execute_probe : ProbeConfig p → ProbeResult p
  unfolding run_kind
  execute_probe c = run_kind c c.probe_type
