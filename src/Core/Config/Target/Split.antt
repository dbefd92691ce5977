-- ===== src/Core/Config/Target/Split.antt =====
-- crates/huginn-probes/src/tls.rs: `split_host_port`, against the form of a target, its brackets
-- included.
use huginn_io.Core.Config.Target.Ports.{
  Lacks, rsplit_once-append, rsplit_once-some, strip_last_concat,
}
use huginn_io.Core.Config.Target.{
  rsplit_once, split_host_port, bare_host, strip_last, port_of, text_or,
}
use huginn_io.Core.Decimal.{parse_u16}
use huginn_io.Prelude.{
  ℕ, ◌≡◌, ◌≢◌, ◌⊎◌, ◌↔◌, inl, inr, refl, sym, ap, subst, ◌∙◌, false, [], ◌∷◌, ◌++◌, Option, none,
  some, arith, Text, is_empty, strip_prefix, strip_prefix_iff, Option-cases, if◌then◌else◌,
}

-- `mid` is the host after the bracket that it begins with, or the host if it begins with none.
abbrev pub Opened : Text → Text → Type 0
Opened host mid = (host ≡ b'[' ∷ mid) ⊎ ((host ≡ mid) × ((t : Text) → host ≢ b'[' ∷ t))

-- `name` is `mid` before the bracket that it ends with, or `mid` if it ends with none.
abbrev pub Closed : Text → Text → Type 0
Closed mid name = (mid ≡ name ++ b']' ∷ []) ⊎ ((mid ≡ name) × ((t : Text) → mid ≢ t ++ b']' ∷ []))

strip_last-some : (x : ℕ) (s t : Text) → strip_last x s ≡ some t → s ≡ t ++ x ∷ []
unfolding strip_last is_empty
strip_last-some x [] t h = cc
strip_last-some x (c ∷ s) t h = elim (Option-cases (strip_last x s)) [
  | inl e ↦ ground (arith, e)
  | inr (u, e) ↦ ground (arith, e, strip_last-some x s u e)
]

strip_last_iff : (x : ℕ) (s t : Text) → (strip_last x s ≡ some t) ↔ (s ≡ t ++ x ∷ [])
strip_last_iff x s t = (strip_last-some x s t, λ e. ap (strip_last x) e ∙ strip_last_concat x t)

-- What stands in a text that is stripped if it can be.
text_or_iff :
    (f : Text → Text) (o : Option Text) (s out : Text)
    → ((t : Text) → (o ≡ some t) ↔ (s ≡ f t))
    → (text_or o s ≡ out) ↔ ((s ≡ f out) ⊎ ((s ≡ out) × ((t : Text) → s ≢ f t)))
text_or_iff f none s out iff = (
  λ e. inr (e, λ t h. absurd (ground (arith, (iff t).1 h))),
  λ r. elim r [ inl h ↦ absurd (ground (arith, (iff out).1 h)) | inr (e, _) ↦ e ],
)
text_or_iff f (some u) s out iff = (
  λ e. inl (subst (λ x. s ≡ f x) e ((iff u).0 refl)),
  λ r. elim r [
    | inl h ↦ ap (λ o. text_or o s) ((iff out).1 h)
    | inr (_, unlike) ↦ absurd (unlike u ((iff u).0 refl))
  ],
)

Opened-iff :
    (host mid : Text) → (text_or (strip_prefix (b'[' ∷ []) host) host ≡ mid) ↔ Opened host mid
Opened-iff host mid =
    text_or_iff (◌∷◌ b'[') (strip_prefix (b'[' ∷ []) host) host mid
      (λ t. strip_prefix_iff (b'[' ∷ []) host t)

Closed-iff : (mid name : Text) → (text_or (strip_last b']' mid) mid ≡ name) ↔ Closed mid name
Closed-iff mid name =
    text_or_iff (λ t. t ++ b']' ∷ []) (strip_last b']' mid) mid name (strip_last_iff b']' mid)

-- `host:port`, cut at the last colon; the host with its brackets taken off is `name`, which is not
-- empty, and the port reads as the number.
pub record SplitsInto (target name : Text) (number : ℕ) : Type 0 where
  pub host : Text
  pub mid : Text
  pub port : Text
  pub split : target ≡ host ++ (b':' ∷ port)
  pub last : Lacks b':' port
  pub opened : Opened host mid
  pub closed : Closed mid name
  pub nonempty : name ≢ []
  pub reads : parse_u16 port ≡ some number

empty_iff : (s : Text) → (is_empty s ≡ false) ↔ (s ≢ [])
unfolding is_empty
empty_iff [] = (λ e. cc, λ h. absurd (h refl))
empty_iff (c ∷ s) = (λ e h. cc, λ h. refl)

-- What the code makes of a host and of a port.
parts_iff :
    (bare : Text) (o : Option ℕ) (name : Text) (n : ℕ)
    → ((if is_empty bare then none else port_of bare o) ≡ some (name, n))
      ↔ ((bare ≡ name) × (bare ≢ []) × (o ≡ some n))
unfolding port_of is_empty
parts_iff [] o name n = (λ h. cc, λ h. absurd (h.1 refl))
parts_iff (c ∷ s) none name n = (λ h. cc, λ h. cc)
parts_iff (c ∷ s) (some m) name n = ground arith

-- The split of the TLS probe gives a name and a number exactly when the target is a host, a colon
-- and a port without a colon that reads as that number as a u16, and the host is that name, which
-- is not empty, once the opening bracket that it may begin with and then the closing bracket that
-- it may end with are taken off.
pub split_host_port_iff :
    (target name : Text) (n : ℕ)
    → (split_host_port target ≡ some (name, n)) ↔ SplitsInto target name n
unfolding split_host_port bare_host
split_host_port_iff target name n = (there, back)
  where
    there : split_host_port target ≡ some (name, n) → SplitsInto target name n
    there h = elim (Option-cases (rsplit_once b':' target)) [
      | inl e ↦ absurd (ground (arith, e))
      | inr ((host, port), e) ↦
          let s = rsplit_once-some b':' target host port e in
          let r =
            (parts_iff (bare_host host) (parse_u16 port) name n).0 (rw (split_host_port, e) at h) in
          record {
            host = host;
            mid = text_or (strip_prefix (b'[' ∷ []) host) host;
            port = port;
            split = s.0;
            last = s.1;
            opened = (Opened-iff host _).0 refl;
            closed = (Closed-iff _ name).0 r.0;
            nonempty = λ e. r.1 (r.0 ∙ e);
            reads = r.2;
          }
    ]

    back : SplitsInto target name n → split_host_port target ≡ some (name, n)
    back t =
        let mid = (Opened-iff t.host t.mid).1 t.opened in
        let bare : bare_host t.host ≡ name =
          ap (λ m. text_or (strip_last b']' m) m) mid ∙ (Closed-iff t.mid name).1 t.closed in
        let cut = ap (rsplit_once b':') t.split ∙ rsplit_once-append b':' t.host t.port t.last in
        rw (split_host_port, cut)
          ((parts_iff (bare_host t.host) (parse_u16 t.port) name n).1
            (bare, (λ e. t.nonempty (sym bare ∙ e)), t.reads))
