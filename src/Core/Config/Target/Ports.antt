-- ===== src/Core/Config/Target/Ports.antt =====
-- crates/huginn-core/src/config.rs: `has_port_suffix`, and crates/huginn-probes/src/tls.rs:
-- `split_host_port`, against the form of a target.
use huginn_io.Prelude.{
  ℕ, ◌≡◌, ◌≢◌, ◌↔◌, inl, inr, refl, ap, true, false, [], ◌∷◌, ◌++◌, none, some, ◌==◌, arith,
  append_assoc, Text, All, is_empty, strip_prefix, Option-cases,
}
use huginn_io.Core.Config.Target.{
  rsplit_once, has_port_suffix, split_host_port, bare_host, strip_last,
}
use huginn_io.Core.Decimal.{parse_u16}

-- The separator does not occur.
abbrev pub Lacks : ℕ → Text → Type 0
Lacks sep = All (λ c. (c == sep) ≡ false)

rsplit_once-none : (sep : ℕ) (s : Text) → Lacks sep s → rsplit_once sep s ≡ none
unfolding rsplit_once
rsplit_once-none sep [] h = refl
rsplit_once-none sep (c ∷ s) h = ground (arith, rsplit_once-none sep s h.1)

none-Lacks : (sep : ℕ) (s : Text) → rsplit_once sep s ≡ none → Lacks sep s
unfolding rsplit_once
none-Lacks sep [] h = tt
none-Lacks sep (c ∷ s) h = ground (arith, none-Lacks sep s)

-- The text is cut at the last separator, and only there.
pub rsplit_once-append :
    (sep : ℕ) (before after : Text)
    → Lacks sep after
    → rsplit_once sep (before ++ (sep ∷ after)) ≡ some (before, after)
unfolding rsplit_once
rsplit_once-append sep [] after h = ground (arith, rsplit_once-none sep after h)
rsplit_once-append sep (c ∷ before) after h = ground (arith, rsplit_once-append sep before after h)

pub rsplit_once-some :
    (sep : ℕ) (s before after : Text)
    → rsplit_once sep s ≡ some (before, after)
    → (s ≡ before ++ (sep ∷ after)) × Lacks sep after
unfolding rsplit_once
rsplit_once-some sep [] before after h = cc
rsplit_once-some sep (c ∷ s) before after h = elim (Option-cases (rsplit_once sep s)) [
  | inl e ↦ ground (arith, none-Lacks sep s e)
  | inr ((b, a), e) ↦ ground (arith, rsplit_once-some sep s b a e)
]

-- A host, a colon and a port number: the host is not empty, and the port has no colon and is read
-- as a `u16`.
pub record HostPort (target : Text) : Type 0 where
  pub host : Text
  pub port : Text
  pub number : ℕ
  pub split : target ≡ host ++ (b':' ∷ port)
  pub last : Lacks b':' port
  pub nonempty : is_empty host ≡ false
  pub reads : parse_u16 port ≡ some number

-- The port check accepts a target exactly when it is a nonempty host, a colon and a port without a
-- colon that reads as a u16.
pub has_port_suffix_iff : (target : Text) → (has_port_suffix target ≡ true) ↔ HostPort target
unfolding has_port_suffix
has_port_suffix_iff target = (there, back)
  where
    there : has_port_suffix target ≡ true → HostPort target
    there h = elim (Option-cases (rsplit_once b':' target)) [
      | inl e ↦ absurd (ground (arith, e))
      | inr ((host, port), e) ↦ elim (Option-cases (parse_u16 port)) [
        | inl f ↦ absurd (ground (arith, e, f))
        | inr (n, f) ↦
            let s = rsplit_once-some b':' target host port e in
            record {
              host = host;
              port = port;
              number = n;
              split = s.0;
              last = s.1;
              nonempty = ground (arith, e, f);
              reads = f;
            }
      ]
    ]

    back : HostPort target → has_port_suffix target ≡ true
    back t =
        ground (arith, rsplit_once-append b':' t.host t.port t.last, ap (rsplit_once b':') t.split)

pub strip_last_concat : (x : ℕ) (s : Text) → strip_last x (s ++ x ∷ []) ≡ some s
unfolding strip_last is_empty
strip_last_concat x [] = ground arith
strip_last_concat x (c ∷ s) = ground (arith, strip_last_concat x s)

-- A nonempty host in brackets followed by a colon and a port that has no colon and reads as a u16
-- is split into that host, colons included, and the port number.
pub split_host_port_brackets :
    (host port : Text) (n : ℕ)
    → host ≢ []
    → Lacks b':' port
    → parse_u16 port ≡ some n
    → split_host_port (b'[' ∷ (host ++ (b']' ∷ b':' ∷ port))) ≡ some (host, n)
unfolding split_host_port bare_host strip_prefix is_empty
split_host_port_brackets host port n ne l h = ground (
  arith,
  rsplit_once-append b':' (b'[' ∷ (host ++ b']' ∷ [])) port l,
  append_assoc host (b']' ∷ []) (b':' ∷ port),
  strip_last_concat b']' host,
)
