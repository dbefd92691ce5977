-- ===== src/Core/Config/Address.antt =====
-- crates/huginn-core/src/config.rs: `addresses_contend`, against the addresses that a listener
-- serves. An address is its family and its bits.
use huginn_io.Prelude.{
  ℕ, ◌≡◌, ◌⊎◌, ◌↔◌, Bool, true, false, ◌&&◌, ◌||◌, ◌==◌, if◌then◌else◌, arith, Text, Option, codes,
}

pub data IpAddr : Type 0 where
  v4 : ℕ → IpAddr
  v6 : ℕ → IpAddr

unfoldable pub ip_eq : IpAddr → IpAddr → Bool
ip_eq (v4 a) (v4 b) = a == b
ip_eq (v6 a) (v6 b) = a == b
ip_eq _ _ = false

unfoldable pub is_unspecified : IpAddr → Bool
is_unspecified (v4 a) = a == 0
is_unspecified (v6 a) = a == 0

unfoldable pub is_ipv4 : IpAddr → Bool
is_ipv4 (v4 a) = true
is_ipv4 (v6 a) = false

unfoldable pub is_ipv6 : IpAddr → Bool
is_ipv6 (v4 a) = false
is_ipv6 (v6 a) = true

-- `HEALTH_BIND` and `HEALTH_ADDR`.
abbrev pub health_bind : Text
health_bind = codes "127.0.0.1"

abbrev pub health_addr : IpAddr
health_addr = v4 0x7f000001

unfoldable pub addresses_contend : IpAddr → IpAddr → Bool
unfolding ip_eq is_unspecified is_ipv4 is_ipv6
addresses_contend a b =
    ip_eq a b
    || (is_unspecified a && (is_ipv6 a || is_ipv4 b))
    || (is_unspecified b && (is_ipv6 b || is_ipv4 a))

-- What the standard library's parsers make of a text: an address, and whether the text is an
-- address with a port. No theorem depends on how they read one.
pub record Parsers : Type 0 where
  pub parse_ip : Text → Option IpAddr
  pub is_socket_addr : Text → Bool

-- The addresses that a socket serves: its own; from the IPv4 wildcard every IPv4 address, and from
-- the IPv6 wildcard every address, since the system default takes IPv4 in too.
abbrev pub Serves : IpAddr → IpAddr → Type 0
Serves (v4 a) (v4 d) = (a ≡ d) ⊎ (a ≡ 0)
Serves (v4 a) (v6 d) = ⊥
Serves (v6 a) (v4 d) = a ≡ 0
Serves (v6 a) (v6 d) = (a ≡ d) ⊎ (a ≡ 0)

contend_common :
    (a b : IpAddr) → addresses_contend a b ≡ true → (d : IpAddr) × Serves a d × Serves b d
unfolding addresses_contend
contend_common (v4 a) (v4 b) h = (v4 (if a == 0 then b else a), ground arith, ground arith)
contend_common (v4 a) (v6 b) h = (v4 a, ground arith, ground arith)
contend_common (v6 a) (v4 b) h = (v4 b, ground arith, ground arith)
contend_common (v6 a) (v6 b) h = (v6 (if a == 0 then b else a), ground arith, ground arith)

common_contend : (a b d : IpAddr) → Serves a d → Serves b d → addresses_contend a b ≡ true
unfolding addresses_contend
common_contend (v4 a) (v4 b) (v4 d) s t = ground arith
common_contend (v4 a) (v4 b) (v6 d) s t = absurd s
common_contend (v4 a) (v6 b) (v4 d) s t = ground arith
common_contend (v4 a) (v6 b) (v6 d) s t = absurd s
common_contend (v6 a) (v4 b) (v4 d) s t = ground arith
common_contend (v6 a) (v4 b) (v6 d) s t = absurd t
common_contend (v6 a) (v6 b) (v4 d) s t = ground arith
common_contend (v6 a) (v6 b) (v6 d) s t = ground arith

-- Two addresses contend exactly when some address would be served by sockets on both, where the
-- IPv4 wildcard serves IPv4 and the IPv6 wildcard everything.
pub addresses_contend_iff :
    (a b : IpAddr) → (addresses_contend a b ≡ true) ↔ ((d : IpAddr) × Serves a d × Serves b d)
addresses_contend_iff a b = (contend_common a b, λ (d, s, t). common_contend a b d s t)
