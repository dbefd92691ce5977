-- ===== src/Core/Config/Target.antt =====
-- crates/huginn-core/src/config.rs: the shape of a probe's target (`validate_target`), and
-- crates/huginn-probes/src/tls.rs: `split_host_port`, which takes such a target apart.
pub mod Ports
pub mod Split
use huginn_io.Prelude.{
  ℕ, Bool, true, false, not, ◌&&◌, ◌||◌, List, [], ◌∷◌, Option, none, some, ◌==◌, if◌then◌else◌,
  Text, codes, is_empty, starts_with, strip_prefix,
}
use huginn_io.Core.Config.Address.{Parsers}
use huginn_io.Core.Config.Messages
use huginn_io.Core.Config.{
  ProbeType, tcp, http, https, smtp, imap, udp, dns, tls, ProbeConfig, show_probe_type,
}
use huginn_io.Core.Decimal.{parse_u16}
use huginn_io.Core.Error.{Result, ok, refuse_if}
use huginn_io.Core.Platform.{Platform}

-- `str::rsplit_once` at a character.
unfoldable pub rsplit_once : ℕ → Text → Option (Text × Text)
rsplit_once sep [] = none
rsplit_once sep (c ∷ s) = elim (rsplit_once sep s) [
  | some (before, after) ↦ some (c ∷ before, after)
  | none ↦ if c == sep then some ([], s) else none
]

abbrev is_some {ℓ} : {A : Type ℓ} → Option A → Bool
is_some none = false
is_some (some a) = true

unfoldable pub has_port_suffix : Text → Bool
has_port_suffix target = elim (rsplit_once b':' target) [
  | some (host, port) ↦ not (is_empty host) && is_some (parse_u16 port)
  | none ↦ false
]

-- `str::strip_suffix` of one character.
unfoldable pub strip_last : ℕ → Text → Option Text
strip_last x [] = none
strip_last x (c ∷ s) = elim (strip_last x s) [
  | some t ↦ some (c ∷ t)
  | none ↦ if is_empty s && c == x then some [] else none
]

abbrev pub text_or : Option Text → Text → Text
text_or none t = t
text_or (some s) t = s

-- The host without its brackets.
unfoldable pub bare_host : Text → Text
unfolding strip_last
bare_host host =
    let opened = text_or (strip_prefix (b'[' ∷ []) host) host in
    text_or (strip_last b']' opened) opened

pub port_of : Text → Option ℕ → Option (Text × ℕ)
port_of host none = none
port_of host (some port) = some (host, port)

unfoldable pub split_host_port : Text → Option (Text × ℕ)
unfolding port_of
split_host_port target = elim (rsplit_once b':' target) [
  | some (host, port) ↦
      if is_empty (bare_host host) then none else port_of (bare_host host) (parse_u16 port)
  | none ↦ none
]

unfoldable pub is_absolute_url : Text → Bool
is_absolute_url t = starts_with (codes "http://") t || starts_with (codes "https://") t

unfoldable pub default_port_hint : ProbeType → ℕ
default_port_hint smtp = 25
default_port_hint imap = 143
default_port_hint udp = 53
default_port_hint tls = 443
default_port_hint _ = 80

module _ {p : Platform} (n : Parsers) where
  -- The arm for the types that need `host:port`.
  needs_port : ProbeConfig p → Result (Unit {0})
  needs_port c = refuse_if (not (has_port_suffix c.target)) (
      Messages.of_probe c.name (
        Messages.port_missing (show_probe_type c.probe_type) c.target
          (default_port_hint c.probe_type)))

  needs_url : ProbeConfig p → Result (Unit {0})
  needs_url c =
      refuse_if (not (is_absolute_url c.target)) (
        Messages.of_probe c.name (Messages.target_relative (show_probe_type c.probe_type) c.target))

  needs_socket_addr : ProbeConfig p → Result (Unit {0})
  needs_socket_addr c =
      refuse_if (not (n.is_socket_addr c.target))
        (Messages.of_probe c.name (Messages.dns_target_invalid c.target))

  target_arm : ProbeConfig p → ProbeType → Result (Unit {0})
  unfolding needs_port needs_url needs_socket_addr
  target_arm c dns = needs_socket_addr c
  target_arm c tcp = needs_port c
  target_arm c smtp = needs_port c
  target_arm c imap = needs_port c
  target_arm c udp = needs_port c
  target_arm c tls = needs_port c
  target_arm c http = needs_url c
  target_arm c https = needs_url c

  unfoldable pub validate_target : ProbeConfig p → Result (Unit {0})
  unfolding target_arm
  validate_target c = target_arm c c.probe_type
