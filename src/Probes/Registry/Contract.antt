-- ===== src/Probes/Registry/Contract.antt =====
-- crates/huginn-probes: what the results of all probes have in common.
use huginn_io.Prelude.{
  All, ℕ, ◌≡◌, refl, ap, subst, Bool, true, false, List, [], ◌∷◌, ◌++◌, Option, none, some, Text,
  Bytes, codes, ltb, ◌==◌, starts_with, is_empty, if◌then◌else◌,
}
use huginn_io.Core.BTree.Laws.{All-insert}
use huginn_io.Core.Config.Address.{Parsers, IpAddr}
use huginn_io.Core.Config.{
  ProbeConfig, ProbeType, tcp, http, https, smtp, imap, udp, dns, tls, show_probe_type,
}
use huginn_io.Core.Error.{Foreign, value, failed}
use huginn_io.Core.Platform.{Platform}
use huginn_io.Core.Types.Results.{
  IsWellFormed, success-IsWellFormed, failure-IsWellFormed, with_metric-IsWellFormed,
}
use huginn_io.Core.Types.{ProbeResult, success, failure, with_metric, tls_cert_expiry_days}
use huginn_io.Probes.Kinds.{
  unwrap_or, udp_answer, udp_step, expected_answer, judge_days, up, down, member, UdpSteps,
  bind_addr, dns_query, tcp_probe, http_probe, smtp_probe, imap_probe, udp_probe, dns_probe,
  tls_probe,
}
use huginn_io.Probes.Registry.{World, execute_probe, run_kind}
use huginn_io.Probes.{Timed, done, broke, elapsed, with_probe_timeout}

-- The result names the probe as it is configured, and its type, and is in order.
pub record IsAbout {p : Platform} (c : ProbeConfig p) (kind : Text) (r : ProbeResult p)
    : Type 0 where
  pub name : r.probe_name ≡ c.name
  pub kind_label : r.probe_type ≡ kind
  pub target : r.target ≡ c.target
  pub formed : IsWellFormed r
  pub readings : All (λ m. m.0 ≡ tls_cert_expiry_days) r.metrics

module _ {p : Platform} (now : p.Timestamp) (c : ProbeConfig p) where
  success-IsAbout :
      (kind : Text) (ms : p.F64) (status : Option ℕ)
      → IsAbout c kind (success {p = p} now c.name kind c.target ms status)
  success-IsAbout kind ms status = record {
    name = unfold success in refl;
    kind_label = unfold success in refl;
    target = unfold success in refl;
    formed = success-IsWellFormed now c.name kind c.target ms status;
    readings = unfold success in tt;
  }

  failure-IsAbout :
      (kind : Text) (ms : p.F64) (error : Text)
      → IsAbout c kind (failure {p = p} now c.name kind c.target ms error)
  failure-IsAbout kind ms error = record {
    name = unfold failure in refl;
    kind_label = unfold failure in refl;
    target = unfold failure in refl;
    formed = failure-IsWellFormed now c.name kind c.target ms error;
    readings = unfold failure in tt;
  }

  with_metric-IsAbout :
      (kind : Text) (r : ProbeResult p) (v : p.F64)
      → IsAbout c kind r
      → IsAbout c kind (with_metric r tls_cert_expiry_days v)
  with_metric-IsAbout kind r v a = record {
    name = unfold with_metric in a.name;
    kind_label = unfold with_metric in a.kind_label;
    target = unfold with_metric in a.target;
    formed = with_metric-IsWellFormed r tls_cert_expiry_days v a.formed;
    readings =
        unfold with_metric in
        All-insert (λ m. m.0 ≡ tls_cert_expiry_days) tls_cert_expiry_days v r.metrics refl
          a.readings;
  }

module _ {p : Platform} (c : ProbeConfig p) (kind : Text) where
  if-IsAbout :
      (b : Bool) {r s : ProbeResult p}
      → IsAbout c kind r
      → IsAbout c kind s
      → IsAbout c kind (if b then r else s)
  if-IsAbout true there here = there
  if-IsAbout false there here = here

module _ {p : Platform} (now : p.Timestamp) (ms : p.F64) (c : ProbeConfig p) where
  tcp-IsAbout : (o : Timed (Unit {0})) → IsAbout c (codes "tcp") (tcp_probe now ms c o)
  unfolding tcp_probe with_probe_timeout
  tcp-IsAbout (done _) = success-IsAbout now c _ ms none
  tcp-IsAbout (broke e) = failure-IsAbout now c _ ms e
  tcp-IsAbout elapsed = failure-IsAbout now c _ ms _

  smtp-IsAbout : (o : Timed Text) → IsAbout c (codes "smtp") (smtp_probe now ms c o)
  unfolding smtp_probe with_probe_timeout
  smtp-IsAbout (done t) =
      if-IsAbout c _ (starts_with (codes "220") t) (success-IsAbout now c _ ms none)
        (if-IsAbout c _ (is_empty t) (failure-IsAbout now c _ ms _) (failure-IsAbout now c _ ms _))
  smtp-IsAbout (broke e) = failure-IsAbout now c _ ms e
  smtp-IsAbout elapsed = failure-IsAbout now c _ ms _

  imap-IsAbout : (o : Timed Text) → IsAbout c (codes "imap") (imap_probe now ms c o)
  unfolding imap_probe with_probe_timeout
  imap-IsAbout (done t) =
      if-IsAbout c _ (starts_with (codes "* OK") t) (success-IsAbout now c _ ms none)
        (if-IsAbout c _ (is_empty t) (failure-IsAbout now c _ ms _) (failure-IsAbout now c _ ms _))
  imap-IsAbout (broke e) = failure-IsAbout now c _ ms e
  imap-IsAbout elapsed = failure-IsAbout now c _ ms _

  http-IsAbout :
      (client : Foreign (Unit {0})) (o : Timed ℕ)
      → IsAbout c (show_probe_type c.probe_type) (http_probe now ms c client o)
  unfolding http_probe with_probe_timeout
  http-IsAbout (failed e) o = failure-IsAbout now c _ (p.of_nat 0) _
  http-IsAbout (value _) (done status) =
      if-IsAbout c _ (status == unwrap_or c.expected_status 200)
        (success-IsAbout now c _ ms (some status)) (failure-IsAbout now c _ ms _)
  http-IsAbout (value _) (broke e) = failure-IsAbout now c _ ms e
  http-IsAbout (value _) elapsed = failure-IsAbout now c _ ms _

  udp_answer-IsAbout : (o : Timed ℕ) → IsAbout c (codes "udp") (udp_answer now ms c o)
  unfolding udp_answer with_probe_timeout
  udp_answer-IsAbout (done n) =
      if-IsAbout c _ (ltb 0 n) (success-IsAbout now c _ ms none) (failure-IsAbout now c _ ms _)
  udp_answer-IsAbout (broke e) = failure-IsAbout now c _ ms e
  udp_answer-IsAbout elapsed = failure-IsAbout now c _ ms _

  udp_step-IsAbout :
      (step : Foreign (Unit {0})) {next : ProbeResult p}
      → IsAbout c (codes "udp") next
      → IsAbout c (codes "udp") (udp_step now ms c step next)
  unfolding udp_step
  udp_step-IsAbout (failed e) _ = failure-IsAbout now c _ ms e
  udp_step-IsAbout (value _) about = about

  resolved-IsAbout :
      (steps : UdpSteps) (o : Timed (List IpAddr))
      → IsAbout c (codes "udp") (udp_probe now ms c (record steps { resolved = o }))
  unfolding udp_probe with_probe_timeout
  resolved-IsAbout steps (done []) = failure-IsAbout now c _ ms _
  resolved-IsAbout steps (done (addr ∷ _)) = udp_step-IsAbout (steps.bound (bind_addr addr)) (
      udp_step-IsAbout (steps.connected addr)
        (udp_step-IsAbout (steps.sent dns_query) (udp_answer-IsAbout steps.answered)))
  resolved-IsAbout steps (broke e) = failure-IsAbout now c _ ms e
  resolved-IsAbout steps elapsed = failure-IsAbout now c _ ms _

  parsed_ip-IsAbout :
      (explain : IpAddr → List IpAddr → Text) (ips : List IpAddr) (want : Text) (o : Option IpAddr)
      → IsAbout c (codes "dns") (elim o [
        | none ↦ down now ms c (codes "dns") (codes "invalid dns_expected_ip: " ++ want)
        | some ip ↦
            if member ip ips
            then up now ms c (codes "dns") none
            else down now ms c (codes "dns") (explain ip ips)
      ])
  unfolding up down
  parsed_ip-IsAbout explain ips want none = failure-IsAbout now c _ ms _
  parsed_ip-IsAbout explain ips want (some ip) =
      if-IsAbout c _ (member ip ips) (success-IsAbout now c _ ms none)
        (failure-IsAbout now c _ ms (explain ip ips))

  expected_answer-IsAbout :
      (n : Parsers) (explain : IpAddr → List IpAddr → Text) (ips : List IpAddr) (e : Option Text)
      → IsAbout c (codes "dns") (expected_answer now ms c n explain ips e)
  unfolding expected_answer
  expected_answer-IsAbout n explain ips none = success-IsAbout now c _ ms none
  expected_answer-IsAbout n explain ips (some want) =
      parsed_ip-IsAbout explain ips want (n.parse_ip want)

  dns-IsAbout :
      (n : Parsers) (explain : IpAddr → List IpAddr → Text)
      (nameserver resolver : Foreign (Unit {0})) (o : Timed (List IpAddr))
      → IsAbout c (codes "dns") (dns_probe now ms c n explain nameserver resolver o)
  unfolding dns_probe with_probe_timeout
  dns-IsAbout n explain (failed e) r o = failure-IsAbout now c _ (p.of_nat 0) _
  dns-IsAbout n explain (value _) (failed e) o = failure-IsAbout now c _ (p.of_nat 0) _
  dns-IsAbout n explain (value _) (value _) (done ips) =
      expected_answer-IsAbout n explain ips c.dns_expected_ip
  dns-IsAbout n explain (value _) (value _) (broke e) = failure-IsAbout now c _ ms e
  dns-IsAbout n explain (value _) (value _) elapsed = failure-IsAbout now c _ ms _

  verdict-IsAbout :
      (days : p.F64) (verdict : Option Text)
      → IsAbout c (codes "tls") (elim verdict [
        | none ↦ with_metric (up now ms c (codes "tls") none) tls_cert_expiry_days days
        | some why ↦ with_metric (down now ms c (codes "tls") why) tls_cert_expiry_days days
      ])
  unfolding up down
  verdict-IsAbout days none = with_metric-IsAbout now c _ _ days (success-IsAbout now c _ ms none)
  verdict-IsAbout days (some why) =
      with_metric-IsAbout now c _ _ days (failure-IsAbout now c _ ms why)

  judge_days-IsAbout : (days : p.F64) → IsAbout c (codes "tls") (judge_days now ms c days)
  unfolding judge_days
  judge_days-IsAbout days = verdict-IsAbout days _

  parsed-IsAbout :
      (days : Foreign p.F64)
      → IsAbout c
          (codes "tls")
          (elim days [ value d ↦ judge_days now ms c d | failed e ↦ down now ms c (codes "tls") e ])
  unfolding down
  parsed-IsAbout (value days) = judge_days-IsAbout days
  parsed-IsAbout (failed e) = failure-IsAbout now c _ ms e

  tls-IsAbout :
      (config : Foreign (Unit {0})) (o : Timed Bytes) (parse : Bytes → Foreign p.F64)
      → IsAbout c (codes "tls") (tls_probe now ms c config o parse)
  unfolding tls_probe with_probe_timeout
  tls-IsAbout (failed e) o parse = failure-IsAbout now c _ (p.of_nat 0) _
  tls-IsAbout (value _) (done der) parse = parsed-IsAbout (parse der)
  tls-IsAbout (value _) (broke e) parse = failure-IsAbout now c _ ms e
  tls-IsAbout (value _) elapsed parse = failure-IsAbout now c _ ms _

module _ {p : Platform} (n : Parsers) (w : World p) (now : p.Timestamp) (ms : p.F64) where
  run_kind-IsAbout :
      (c : ProbeConfig p) (t : ProbeType)
      → c.probe_type ≡ t
      → IsAbout c (show_probe_type t) (run_kind n w now ms c t)
  unfolding run_kind show_probe_type
  run_kind-IsAbout c tcp e = tcp-IsAbout now ms c w.tcp_connect
  run_kind-IsAbout c http e =
      subst (λ k. IsAbout c k (http_probe now ms c w.http_client w.http_status))
        (ap show_probe_type e) (http-IsAbout now ms c w.http_client w.http_status)
  run_kind-IsAbout c https e =
      subst (λ k. IsAbout c k (http_probe now ms c w.http_client w.http_status))
        (ap show_probe_type e) (http-IsAbout now ms c w.http_client w.http_status)
  run_kind-IsAbout c smtp e = smtp-IsAbout now ms c _
  run_kind-IsAbout c imap e = imap-IsAbout now ms c _
  run_kind-IsAbout c udp e = resolved-IsAbout now ms c w.udp_steps w.udp_steps.resolved
  run_kind-IsAbout c dns e = dns-IsAbout now ms c n w.explain w.nameserver w.resolver w.lookup
  run_kind-IsAbout c tls e = tls-IsAbout now ms c w.tls_config _ w.cert_expiry_days

  -- Whatever the network gives, a run of a probe returns a result with the configured name, type
  -- and target, sorted readings, and either no error (up) or no status code and an error text
  -- without control characters (down).
  pub execute_probe-IsAbout :
      (c : ProbeConfig p) → IsAbout c (show_probe_type c.probe_type) (execute_probe n w now ms c)
  unfolding execute_probe
  execute_probe-IsAbout c = run_kind-IsAbout c c.probe_type refl
