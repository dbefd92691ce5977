-- ===== src/Core/Config/Validate/Probes.antt =====
-- crates/huginn-core/src/config.rs: the conditions that `validate` checks on one probe and on the
-- list of them.
use huginn_io.Prelude.{
  ℕ, ◌≤◌, ◌<◌, ◌≡◌, ◌≢◌, ◌↔◌, refl, true, false, List, [], ◌∷◌, Option, none, some, arith, Text,
  is_empty, Option-cases, inl, inr, All, text_eq_iff,
}
use huginn_io.Core.Config.Address.{Parsers, IpAddr}
use huginn_io.Core.Config.Target.{validate_target, is_absolute_url}
use huginn_io.Core.Config.Target.Ports.{HostPort, has_port_suffix_iff}
use huginn_io.Core.Config.Validate.{
  validate_fail_days, validate_status, validate_expected_ip, validate_probe, validate_probes,
  contains,
}
use huginn_io.Core.Config.{ProbeConfig, ProbeType, http, https, dns}
use huginn_io.Core.Error.{ok}
use huginn_io.Core.Platform.{Platform}

-- The shape that each probe type needs of its target.
abbrev pub TargetFits : Parsers → ProbeType → Text → Type 0
TargetFits n dns target = n.is_socket_addr target ≡ true
TargetFits n http target = is_absolute_url target ≡ true
TargetFits n https target = is_absolute_url target ≡ true
TargetFits n _ target = HostPort target

module _ {p : Platform} (n : Parsers) where
  validate_target_iff :
      (c : ProbeConfig p) (kind : ProbeType)
      → c.probe_type ≡ kind
      → (validate_target n c ≡ ok tt) ↔ TargetFits n kind c.target
  unfolding validate_target
  validate_target_iff c dns e = (λ h. ground arith, λ h. ground arith)
  validate_target_iff c http e = (λ h. ground arith, λ h. ground arith)
  validate_target_iff c https e = (λ h. ground arith, λ h. ground arith)
  validate_target_iff c kind e = (
    λ h. (has_port_suffix_iff c.target).0 (ground arith),
    λ h. let t = (has_port_suffix_iff c.target).1 h in ground arith,
  )

  pub record ProbeOk (c : ProbeConfig p) : Type 0 where
    pub name : is_empty c.name ≡ false
    pub target : is_empty c.target ≡ false
    pub interval : 0 < c.interval_secs
    pub timeout : 0 < c.timeout_secs
    pub fail_days :
        (days : p.F64)
        → c.tls_expiry_fail_days ≡ some days
        → (p.is_finite days ≡ true) × (p.f64_lt days (p.of_nat 0) ≡ false)
    pub status : (s : ℕ) → c.expected_status ≡ some s → (100 ≤ s) × (s ≤ 599)
    pub expected_ip :
        (ip : Text) → c.dns_expected_ip ≡ some ip → (a : IpAddr) × (n.parse_ip ip ≡ some a)
    pub fits : TargetFits n c.probe_type c.target

  fail_days_iff :
      (c : ProbeConfig p) (o : Option p.F64)
      → (validate_fail_days n c o ≡ ok tt) ↔ (
          (days : p.F64)
          → o ≡ some days
          → (p.is_finite days ≡ true) × (p.f64_lt days (p.of_nat 0) ≡ false))
  unfolding validate_fail_days
  fail_days_iff c none = (λ h days e. cc, λ h. refl)
  fail_days_iff c (some x) = (λ h days e. ground arith, λ h. let t = h x refl in ground arith)

  status_iff :
      (c : ProbeConfig p) (o : Option ℕ)
      → (validate_status n c o ≡ ok tt) ↔ ((s : ℕ) → o ≡ some s → (100 ≤ s) × (s ≤ 599))
  unfolding validate_status
  status_iff c none = (λ h s e. cc, λ h. refl)
  status_iff c (some x) = (λ h s e. ground arith, λ h. let t = h x refl in ground arith)

  expected_ip_iff :
      (c : ProbeConfig p) (o : Option Text)
      → (validate_expected_ip n c o ≡ ok tt)
        ↔ ((ip : Text) → o ≡ some ip → (a : IpAddr) × (n.parse_ip ip ≡ some a))
  unfolding validate_expected_ip
  expected_ip_iff c none = (λ h ip e. cc, λ h. refl)
  expected_ip_iff c (some x) = (
    λ h ip e. elim (Option-cases (n.parse_ip ip)) [
      | inl f ↦ absurd (ground (arith, f))
      | inr (a, f) ↦ (a, f)
    ],
    λ h. let t = h x refl in ground (arith, t.1),
  )

  validate_probe_iff :
      (seen : List Text) (c : ProbeConfig p)
      → (validate_probe n seen c ≡ ok tt) ↔ (ProbeOk c × (contains seen c.name ≡ false))
  unfolding validate_probe
  validate_probe_iff seen c = (there, back)
    where
      there : validate_probe n seen c ≡ ok tt → ProbeOk c × (contains seen c.name ≡ false)
      there h = (
        record {
          name = ground arith;
          target = ground arith;
          interval = ground arith;
          timeout = ground arith;
          fail_days = (fail_days_iff c c.tls_expiry_fail_days).0 (ground arith);
          status = (status_iff c c.expected_status).0 (ground arith);
          expected_ip = (expected_ip_iff c c.dns_expected_ip).0 (ground arith);
          fits = (validate_target_iff c c.probe_type refl).0 (ground arith);
        },
        ground arith,
      )

      back : ProbeOk c × (contains seen c.name ≡ false) → validate_probe n seen c ≡ ok tt
      back (o, fresh) = ground (
        arith,
        (fail_days_iff c c.tls_expiry_fail_days).1 o.fail_days,
        (status_iff c c.expected_status).1 o.status,
        (expected_ip_iff c c.dns_expected_ip).1 o.expected_ip,
        (validate_target_iff c c.probe_type refl).1 o.fits,
      )

  -- No two probes of the list have one name.
  abbrev pub Distinct : List (ProbeConfig p) → Type 0
  Distinct [] = Unit {0}
  Distinct (c ∷ cs) = All (λ d. c.name ≢ d.name) cs × Distinct cs

  abbrev Fresh : List Text → List (ProbeConfig p) → Type 0
  Fresh seen = All (λ d. contains seen d.name ≡ false)

  Fresh-cons :
      (x : Text) (seen : List Text) (cs : List (ProbeConfig p))
      → Fresh (x ∷ seen) cs ↔ (All (λ d. x ≢ d.name) cs × Fresh seen cs)
  unfolding contains
  Fresh-cons x seen [] = (λ _. (tt, tt), λ _. tt)
  Fresh-cons x seen (d ∷ cs) = (
    λ h.
        let ih = (Fresh-cons x seen cs).0 h.1 in
        ((ground (arith, text_eq_iff x d.name), ih.0), (ground arith, ih.1)),
    λ h. (ground (arith, text_eq_iff x d.name), (Fresh-cons x seen cs).1 (h.0.1, h.1.1)),
  )

  validate_probes_seen_iff :
      (seen : List Text) (cs : List (ProbeConfig p))
      → (validate_probes n seen cs ≡ ok tt) ↔ (All ProbeOk cs × Distinct cs × Fresh seen cs)
  unfolding validate_probes
  validate_probes_seen_iff seen [] = (λ h. (tt, tt, tt), λ h. refl)
  validate_probes_seen_iff seen (c ∷ cs) = (
    λ h.
        let one = (validate_probe_iff seen c).0 (ground arith) in
        let rest = (validate_probes_seen_iff (c.name ∷ seen) cs).0 (ground arith) in
        let fresh = (Fresh-cons c.name seen cs).0 rest.2 in
        ((one.0, rest.0), (fresh.0, rest.1), (one.1, fresh.1)),
    λ h.
        let one = (validate_probe_iff seen c).1 (h.0.0, h.2.0) in
        let rest =
          (validate_probes_seen_iff (c.name ∷ seen) cs).1
            (h.0.1, h.1.1, (Fresh-cons c.name seen cs).1 (h.1.0, h.2.1)) in
        ground (arith, one, rest),
  )

  Fresh-nil : (cs : List (ProbeConfig p)) → Fresh [] cs
  unfolding contains
  Fresh-nil [] = tt
  Fresh-nil (c ∷ cs) = (refl, Fresh-nil cs)

  -- The list passes exactly when each probe is in order and no two share a name.
  pub validate_probes_iff :
      (cs : List (ProbeConfig p))
      → (validate_probes n [] cs ≡ ok tt) ↔ (All ProbeOk cs × Distinct cs)
  validate_probes_iff cs = (
    λ h. let t = (validate_probes_seen_iff [] cs).0 h in (t.0, t.1),
    λ h. (validate_probes_seen_iff [] cs).1 (h.0, h.1, Fresh-nil cs),
  )
