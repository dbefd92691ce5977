-- ===== src/Probes/Registry/Verdicts.antt =====
-- crates/huginn-probes: what each type of probe asks of the network, and the field `up` of its
-- result.
use huginn_io.Core.Config.Address.{Parsers, IpAddr}
use huginn_io.Core.Config.{ProbeConfig, ProbeType, tcp, http, https, smtp, imap, udp, dns, tls}
use huginn_io.Core.Error.{Foreign, value, failed}
use huginn_io.Core.Platform.{Platform}
use huginn_io.Core.Types.{ProbeResult, success, failure, with_metric}
use huginn_io.Prelude.{
  ℕ, ◌<◌, ◌≡◌, ◌↔◌, true, false, List, [], ◌∷◌, ◌++◌, Option, none, some, arith, Text, Bytes, codes,
  starts_with, if◌then◌else◌,
}
use huginn_io.Probes.Kinds.{
  unwrap_or, udp_answer, udp_step, expected_answer, judge_days, up, down, member, UdpSteps,
  bind_addr, dns_query, greeting, tcp_probe, http_probe, smtp_probe, imap_probe, udp_probe,
  dns_probe, tls_probe, expiry_verdict,
}
use huginn_io.Probes.Registry.{World, execute_probe, run_kind, fetch_peer_certificate}
use huginn_io.Probes.{Timed, done, broke, elapsed, with_probe_timeout}

-- The network answered in time, with something that fits.
abbrev pub Ready {ℓ} : {A : Type ℓ} → (A → Type 0) → Timed A → Type 0
Ready Fits (done a) = Fits a
Ready Fits (broke e) = ⊥
Ready Fits elapsed = ⊥

-- The call went through, with something that fits.
abbrev pub Works {ℓ} : {A : Type ℓ} → (A → Type 0) → Foreign A → Type 0
Works Fits (value a) = Fits a
Works Fits (failed e) = ⊥

abbrev pub Connects : Foreign (Unit {0}) → Type 0
Connects = Works (λ _. Unit {0})

abbrev pub Greets : Text → Timed Text → Type 0
Greets start = Ready (λ banner. starts_with start banner ≡ true)

-- The socket can be bound for the first of these addresses, connected to it and sent the query.
abbrev pub Sends : UdpSteps → List IpAddr → Type 0
Sends s [] = ⊥
Sends s (addr ∷ more) =
    Connects (s.bound (bind_addr addr)) × Connects (s.connected addr) × Connects (s.sent dns_query)

abbrev pub UdpAnswers : UdpSteps → Type 0
UdpAnswers s = Ready (Sends s) s.resolved × Ready (λ n. 0 < n) s.answered

-- The text was an address, and it is among those found.
abbrev pub Among : List IpAddr → Option IpAddr → Type 0
Among ips none = ⊥
Among ips (some ip) = member ip ips ≡ true

-- No address is expected, or the expected one is among those found.
abbrev pub Expected : Parsers → Option Text → List IpAddr → Type 0
Expected n none ips = Unit {0}
Expected n (some want) ips = Among ips (n.parse_ip want)

-- The certificate is not expired and has at least the days that are asked for.
abbrev pub StaysValid : {p : Platform} → ProbeConfig p → p.F64 → Type 0
StaysValid {p} c days =
    (p.f64_lt days (p.of_nat 0) ≡ false)
    × (p.f64_lt days (unwrap_or c.tls_expiry_fail_days (p.of_nat 0)) ≡ false)

module _ {p : Platform} (now : p.Timestamp) (ms : p.F64) (c : ProbeConfig p) where
  tcp_up_iff : (o : Timed (Unit {0})) → ((tcp_probe now ms c o).up ≡ true) ↔ Ready (λ _. Unit {0}) o
  unfolding tcp_probe with_probe_timeout success failure
  tcp_up_iff (done tt) = ground arith
  tcp_up_iff (broke e) = ground arith
  tcp_up_iff elapsed = ground arith

  smtp_up_iff : (o : Timed Text) → ((smtp_probe now ms c o).up ≡ true) ↔ Greets (codes "220") o
  unfolding smtp_probe with_probe_timeout success failure
  smtp_up_iff (done t) = ground arith
  smtp_up_iff (broke e) = ground arith
  smtp_up_iff elapsed = ground arith

  imap_up_iff : (o : Timed Text) → ((imap_probe now ms c o).up ≡ true) ↔ Greets (codes "* OK") o
  unfolding imap_probe with_probe_timeout success failure
  imap_up_iff (done t) = ground arith
  imap_up_iff (broke e) = ground arith
  imap_up_iff elapsed = ground arith

  pub http_up_iff :
      (client : Foreign (Unit {0})) (o : Timed ℕ)
      → ((http_probe now ms c client o).up ≡ true)
        ↔ (Connects client × Ready (λ status. status ≡ unwrap_or c.expected_status 200) o)
  unfolding http_probe with_probe_timeout success failure
  http_up_iff (failed e) o = ground arith
  http_up_iff (value _) (done status) = ground arith
  http_up_iff (value _) (broke e) = ground arith
  http_up_iff (value _) elapsed = ground arith

  udp_answer_up_iff : (o : Timed ℕ) → ((udp_answer now ms c o).up ≡ true) ↔ Ready (λ n. 0 < n) o
  unfolding udp_answer with_probe_timeout success failure
  udp_answer_up_iff (done n) = ground arith
  udp_answer_up_iff (broke e) = ground arith
  udp_answer_up_iff elapsed = ground arith

  udp_step_up_iff :
      (step : Foreign (Unit {0})) (next : ProbeResult p)
      → ((udp_step now ms c step next).up ≡ true) ↔ (Connects step × (next.up ≡ true))
  unfolding udp_step failure
  udp_step_up_iff (failed e) next = ground arith
  udp_step_up_iff (value _) next = (λ h. (tt, h), λ h. h.1)

  udp_up_iff :
      (s : UdpSteps) (o : Timed (List IpAddr))
      → ((udp_probe now ms c (record s { resolved = o })).up ≡ true)
        ↔ UdpAnswers (record s { resolved = o })
  unfolding udp_probe with_probe_timeout failure
  udp_up_iff s (done []) = ground arith
  udp_up_iff s (done (addr ∷ more)) =
      let end = udp_answer_up_iff s.answered in
      let send = udp_step_up_iff (s.sent dns_query) (udp_answer now ms c s.answered) in
      let third = udp_step now ms c (s.sent dns_query) (udp_answer now ms c s.answered) in
      let connect = udp_step_up_iff (s.connected addr) third in
      let bind =
        udp_step_up_iff (s.bound (bind_addr addr)) (udp_step now ms c (s.connected addr) third) in
      (
        λ h.
            let x = bind.0 h in
            let y = connect.0 x.1 in let z = send.0 y.1 in ((x.0, y.0, z.0), end.0 z.1),
        λ ((b, k, e), n). bind.1 (b, connect.1 (k, send.1 (e, end.1 n))),
      )
  udp_up_iff s (broke e) = ground arith
  udp_up_iff s elapsed = ground arith

  parsed_ip_iff :
      (explain : IpAddr → List IpAddr → Text) (ips : List IpAddr) (want : Text) (o : Option IpAddr)
      → let r : ProbeResult p = elim o [
        | none ↦ down now ms c (codes "dns") (codes "invalid dns_expected_ip: " ++ want)
        | some ip ↦
            if member ip ips
            then up now ms c (codes "dns") none
            else down now ms c (codes "dns") (explain ip ips)
      ] in
        (r.up ≡ true) ↔ Among ips o
  unfolding up down success failure
  parsed_ip_iff explain ips want none = ground arith
  parsed_ip_iff explain ips want (some ip) = ground arith

  answer_up_iff :
      (n : Parsers) (explain : IpAddr → List IpAddr → Text) (ips : List IpAddr) (e : Option Text)
      → ((expected_answer now ms c n explain ips e).up ≡ true) ↔ Expected n e ips
  unfolding expected_answer success failure
  answer_up_iff n explain ips none = ground arith
  answer_up_iff n explain ips (some want) = parsed_ip_iff explain ips want (n.parse_ip want)

  pub dns_up_iff :
      (n : Parsers) (explain : IpAddr → List IpAddr → Text)
      (nameserver resolver : Foreign (Unit {0})) (o : Timed (List IpAddr))
      → ((dns_probe now ms c n explain nameserver resolver o).up ≡ true)
        ↔ (Connects nameserver × Connects resolver × Ready (Expected n c.dns_expected_ip) o)
  unfolding dns_probe with_probe_timeout failure
  dns_up_iff n explain (failed e) r o = ground arith
  dns_up_iff n explain (value _) (failed e) o = ground arith
  dns_up_iff n explain (value _) (value _) (done ips) =
      let expected = answer_up_iff n explain ips c.dns_expected_ip in
      (λ h. (tt, tt, expected.0 h), λ h. expected.1 h.2)
  dns_up_iff n explain (value _) (value _) (broke e) = ground arith
  dns_up_iff n explain (value _) (value _) elapsed = ground arith

  judge_days_up_iff : (days : p.F64) → ((judge_days now ms c days).up ≡ true) ↔ StaysValid c days
  unfolding judge_days expiry_verdict success failure with_metric
  judge_days_up_iff days = ground arith

  parsed_up_iff :
      (days : Foreign p.F64)
      → let r : ProbeResult p = elim days [
        | value d ↦ judge_days now ms c d
        | failed e ↦ down now ms c (codes "tls") e
      ] in
        (r.up ≡ true) ↔ Works (StaysValid c) days
  unfolding down failure
  parsed_up_iff (value d) = judge_days_up_iff d
  parsed_up_iff (failed e) = ground arith

  tls_up_iff :
      (config : Foreign (Unit {0})) (o : Timed Bytes) (parse : Bytes → Foreign p.F64)
      → ((tls_probe now ms c config o parse).up ≡ true)
        ↔ (Connects config × Ready (λ der. Works (StaysValid c) (parse der)) o)
  unfolding tls_probe with_probe_timeout failure
  tls_up_iff (failed e) o parse = ground arith
  tls_up_iff (value _) (done der) parse =
      let judged = parsed_up_iff (parse der) in (λ h. (tt, judged.0 h), λ h. judged.1 h.1)
  tls_up_iff (value _) (broke e) parse = ground arith
  tls_up_iff (value _) elapsed parse = ground arith

module _ {p : Platform} (n : Parsers) (w : World p) where
  -- What the network must give to a probe of this type.
  abbrev pub Succeeds : ProbeConfig p → ProbeType → Type 0
  Succeeds c tcp = Ready (λ _. Unit {0}) w.tcp_connect
  Succeeds c http =
      Connects w.http_client
      × Ready (λ status. status ≡ unwrap_or c.expected_status 200) w.http_status
  Succeeds c https =
      Connects w.http_client
      × Ready (λ status. status ≡ unwrap_or c.expected_status 200) w.http_status
  Succeeds c smtp = Greets (codes "220") (greeting w.from_utf8_lossy w.connect w.reads)
  Succeeds c imap = Greets (codes "* OK") (greeting w.from_utf8_lossy w.connect w.reads)
  Succeeds c udp = UdpAnswers w.udp_steps
  Succeeds c dns =
      Connects w.nameserver × Connects w.resolver × Ready (Expected n c.dns_expected_ip) w.lookup
  Succeeds c tls =
      Connects w.tls_config
      × Ready (λ der. Works (StaysValid c) (w.cert_expiry_days der))
          (fetch_peer_certificate c.target w.handshake)

  run_kind_up_iff :
      (now : p.Timestamp) (ms : p.F64) (c : ProbeConfig p) (t : ProbeType)
      → ((run_kind n w now ms c t).up ≡ true) ↔ Succeeds c t
  unfolding run_kind
  run_kind_up_iff now ms c tcp = tcp_up_iff now ms c w.tcp_connect
  run_kind_up_iff now ms c http = http_up_iff now ms c w.http_client w.http_status
  run_kind_up_iff now ms c https = http_up_iff now ms c w.http_client w.http_status
  run_kind_up_iff now ms c smtp = smtp_up_iff now ms c _
  run_kind_up_iff now ms c imap = imap_up_iff now ms c _
  run_kind_up_iff now ms c udp = udp_up_iff now ms c w.udp_steps w.udp_steps.resolved
  run_kind_up_iff now ms c dns = dns_up_iff now ms c n w.explain w.nameserver w.resolver w.lookup
  run_kind_up_iff now ms c tls = tls_up_iff now ms c w.tls_config _ w.cert_expiry_days

  -- A probe reports up exactly when the network gives what its type asks for: a connection (tcp),
  -- the expected status (http, https), a greeting that begins with 220 or * OK (smtp, imap), an
  -- answer after every step went through (udp), the expected address if there is one (dns), or a
  -- certificate that is not expired and has the days asked for (tls).
  pub execute_probe_up_iff :
      (now : p.Timestamp) (ms : p.F64) (c : ProbeConfig p)
      → ((execute_probe n w now ms c).up ≡ true) ↔ Succeeds c c.probe_type
  unfolding execute_probe
  execute_probe_up_iff now ms c = run_kind_up_iff now ms c c.probe_type
