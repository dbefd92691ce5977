-- ===== src/Probes/Kinds.antt =====
-- crates/huginn-probes/src/{tcp,http,smtp,imap,udp,dns,tls}.rs: what each probe makes of what the
-- network gave it. `now` is the result's time, `elapsed` the reading of the stopwatch that goes
-- into it.
use huginn_io.Prelude.{
  ℕ, Bool, false, ◌||◌, List, [], ◌∷◌, ◌++◌, Option, none, some, ◌==◌, ltb, if◌then◌else◌, Text,
  Bytes, codes, is_empty, starts_with, trim,
}
use huginn_io.Core.Config.Address.{Parsers, IpAddr, v4, v6, ip_eq}
use huginn_io.Core.Config.{ProbeConfig, show_probe_type}
use huginn_io.Core.Decimal.{show_nat}
use huginn_io.Core.Error.{Foreign, value, failed}
use huginn_io.Core.Platform.{Platform}
use huginn_io.Core.Types.{ProbeResult, success, failure, with_metric, tls_cert_expiry_days}
use huginn_io.Probes.Greeting.{Read, line, io_error, pending, read_greeting_line}
use huginn_io.Probes.{
  Timed, done, broke, elapsed, Attempt, got, missed, with_probe_timeout, timeout_msg,
}

unexpected : Text → Text → Text
unexpected what text = codes "unexpected " ++ (what ++ (codes ": " ++ trim text))

unexpected_status : ℕ → ℕ → Text
unexpected_status status expected =
    codes "unexpected status " ++ (show_nat status ++ (codes ", expected " ++ show_nat expected))

unfoldable pub unwrap_or {ℓ} : {A : Type ℓ} → Option A → A → A
unwrap_or none d = d
unwrap_or (some a) d = a

-- Connecting and then reading the greeting, under one deadline; `lossy` is `from_utf8_lossy`.
unfoldable pub greeting : (Bytes → Text) → Foreign (Unit {0}) → List Read → Timed Text
greeting lossy (failed e) reads = broke e
greeting lossy (value connected) reads = elim (read_greeting_line reads) [
  | line l ↦ done (lossy l)
  | io_error e ↦ broke e
  | pending ↦ elapsed
]

-- `iter().collect().contains()`
unfoldable pub member : IpAddr → List IpAddr → Bool
member ip [] = false
member ip (a ∷ as_) = ip_eq a ip || member ip as_

-- What the sockets of one UDP probe give, step by step: the lookup's addresses, and then whether
-- binding a local address, connecting to an address and sending a datagram go through, and the size
-- of the answer.
pub record UdpSteps : Type 0 where
  pub resolved : Timed (List IpAddr)
  pub bound : Text → Foreign (Unit {0})
  pub connected : IpAddr → Foreign (Unit {0})
  pub sent : Bytes → Foreign (Unit {0})
  pub answered : Timed ℕ

-- `bind_addr`: any port, for the family of the address.
unfoldable pub bind_addr : IpAddr → Text
bind_addr (v6 a) = codes "[::]:0"
bind_addr (v4 a) = codes "0.0.0.0:0"

-- A DNS query for the root, type A: its header, an empty name, the type and the class.
abbrev pub dns_query : Bytes
dns_query = 0xAA ∷ 0xBB ∷ 1 ∷ 0 ∷ 0 ∷ 1 ∷ 0 ∷ 0 ∷ 0 ∷ 0 ∷ 0 ∷ 0 ∷ 0 ∷ 0 ∷ 1 ∷ 0 ∷ 1 ∷ []

module _ {p : Platform} (now : p.Timestamp) (ms : p.F64) (cfg : ProbeConfig p) where
  unfoldable pub up : Text → Option ℕ → ProbeResult p
  up kind status = success {p = p} now cfg.name kind cfg.target ms status

  unfoldable pub down : Text → Text → ProbeResult p
  down kind error = failure {p = p} now cfg.name kind cfg.target ms error

  -- A failure before the stopwatch was started, or without it: `0.0`.
  down_at_once : Text → Text → ProbeResult p
  down_at_once kind error = failure {p = p} now cfg.name kind cfg.target (p.of_nat 0) error

  -- Under the probe's deadline.
  deadline {ℓ} : {A : Type ℓ} → Timed A → Attempt A
  deadline outcome = with_probe_timeout (timeout_msg cfg.timeout_secs) outcome

  unfoldable pub tcp_probe : Timed (Unit {0}) → ProbeResult p
  unfolding up down deadline
  tcp_probe outcome = elim (deadline outcome) [
    | got connected ↦ up (codes "tcp") none
    | missed msg ↦ down (codes "tcp") msg
  ]

  unfoldable pub smtp_probe : Timed Text → ProbeResult p
  unfolding up down deadline unexpected
  smtp_probe outcome = elim (deadline outcome) [
    | got banner ↦
        if starts_with (codes "220") banner
        then up (codes "smtp") none
        else if is_empty banner
        then down (codes "smtp") (codes "empty banner")
        else down (codes "smtp") (unexpected (codes "banner") banner)
    | missed msg ↦ down (codes "smtp") msg
  ]

  unfoldable pub imap_probe : Timed Text → ProbeResult p
  unfolding up down deadline unexpected
  imap_probe outcome = elim (deadline outcome) [
    | got text ↦
        if starts_with (codes "* OK") text
        then up (codes "imap") none
        else if is_empty text
        then down (codes "imap") (codes "empty greeting")
        else down (codes "imap") (unexpected (codes "greeting") text)
    | missed msg ↦ down (codes "imap") msg
  ]

  -- The client, if it could be built, and the status of the answer.
  unfoldable pub http_probe : Foreign (Unit {0}) → Timed ℕ → ProbeResult p
  unfolding up down down_at_once deadline unwrap_or unexpected_status
  http_probe (failed msg) outcome =
      down_at_once (show_probe_type cfg.probe_type)
        (codes "could not build an HTTP client: " ++ msg)
  http_probe (value client) outcome =
      let expected = unwrap_or cfg.expected_status 200 in
      let kind = show_probe_type cfg.probe_type in
      elim (deadline outcome) [
        | got status ↦
            if status == expected
            then up kind (some status)
            else down kind (unexpected_status status expected)
        | missed msg ↦ down kind msg
      ]

  unfoldable pub udp_answer : Timed ℕ → ProbeResult p
  unfolding up down deadline
  udp_answer outcome = elim (deadline outcome) [
    | got n ↦ if ltb 0 n then up (codes "udp") none else down (codes "udp") (codes "empty response")
    | missed msg ↦ down (codes "udp") msg
  ]

  -- A step that went through, and what then follows.
  unfoldable pub udp_step : Foreign (Unit {0}) → ProbeResult p → ProbeResult p
  unfolding down
  udp_step (failed e) next = down (codes "udp") e
  udp_step (value _) next = next

  unfoldable pub udp_probe : UdpSteps → ProbeResult p
  unfolding down deadline udp_step udp_answer bind_addr
  udp_probe steps = elim (deadline steps.resolved) [
    | got [] ↦ down (codes "udp") (codes "no address resolved")
    | got (addr ∷ more) ↦ udp_step (steps.bound (bind_addr addr)) (
        udp_step (steps.connected addr)
          (udp_step (steps.sent dns_query) (udp_answer steps.answered)))
    | missed msg ↦ down (codes "udp") msg
  ]

  unfoldable pub expected_answer :
      Parsers → (IpAddr → List IpAddr → Text) → List IpAddr → Option Text → ProbeResult p
  unfolding up down member
  expected_answer n explain resolved none = up (codes "dns") none
  expected_answer n explain resolved (some expected) = elim (n.parse_ip expected) [
    | none ↦ down (codes "dns") (codes "invalid dns_expected_ip: " ++ expected)
    | some ip ↦
        if member ip resolved
        then up (codes "dns") none
        else down (codes "dns") (explain ip resolved)
  ]

  -- Whether the target is a nameserver's address, the resolver, if it could be set up, and the
  -- lookup's answer; `explain` prints the addresses in a failure's text.
  unfoldable pub dns_probe :
      Parsers
      → (IpAddr → List IpAddr → Text)
      → Foreign (Unit {0})
      → Foreign (Unit {0})
      → Timed (List IpAddr)
      → ProbeResult p
  unfolding down down_at_once deadline expected_answer
  dns_probe n explain (failed e) resolver outcome =
      down_at_once (codes "dns") (codes "invalid target address: " ++ e)
  dns_probe n explain (value nameserver) (failed e) outcome =
      down_at_once (codes "dns") (codes "resolver setup failed: " ++ e)
  dns_probe n explain (value nameserver) (value resolver) outcome = elim (deadline outcome) [
    | got resolved ↦ expected_answer n explain resolved cfg.dns_expected_ip
    | missed msg ↦ down (codes "dns") msg
  ]

  -- No text if the certificate has at least `threshold` days left.
  unfoldable pub expiry_verdict : p.F64 → p.F64 → Option Text
  expiry_verdict days threshold =
      if p.f64_lt days (p.of_nat 0)
      then some
          (codes "certificate expired " ++ (p.show_fixed 1 (p.f64_neg days) ++ codes " days ago"))
      else if p.f64_lt days threshold
      then some (
          codes "certificate expires in "
          ++ (p.show_fixed 1 days
              ++ (codes " days (tls_expiry_fail_days: " ++ (p.show_f64 threshold ++ b')' ∷ []))))
      else none

  unfoldable pub judge_days : p.F64 → ProbeResult p
  unfolding up down expiry_verdict unwrap_or
  judge_days days =
      let threshold = unwrap_or cfg.tls_expiry_fail_days (p.of_nat 0) in
      elim (expiry_verdict days threshold) [
        | none ↦ with_metric (up (codes "tls") none) tls_cert_expiry_days days
        | some why ↦ with_metric (down (codes "tls") why) tls_cert_expiry_days days
      ]

  -- The TLS configuration, if it could be built, the peer's certificate, and the days that parsing
  -- finds in it.
  unfoldable pub tls_probe :
      Foreign (Unit {0}) → Timed Bytes → (Bytes → Foreign p.F64) → ProbeResult p
  unfolding down down_at_once deadline judge_days
  tls_probe (failed msg) outcome cert_expiry_days =
      down_at_once (codes "tls") (codes "could not build a TLS client: " ++ msg)
  tls_probe (value config) outcome cert_expiry_days = elim (deadline outcome) [
    | got der ↦ elim (cert_expiry_days der) [
      | value days ↦ judge_days days
      | failed e ↦ down (codes "tls") e
    ]
    | missed msg ↦ down (codes "tls") msg
  ]
