-- ===== src/Probes/Clients.antt =====
-- crates/huginn-probes/src/http.rs: `build_client`, and crates/huginn-probes/src/dns.rs:
-- `build_resolver`, with the probes that use them. reqwest and hickory are parameters.
pub mod Asked
mod Tests
use huginn_io.Core.Config.Address.{Parsers, IpAddr}
use huginn_io.Core.Config.{ProbeConfig}
use huginn_io.Core.Error.{Foreign, value, failed}
use huginn_io.Core.Platform.{Platform}
use huginn_io.Core.Types.{ProbeResult}
use huginn_io.Prelude.{ℕ, Bool, true, false, List, [], ◌∷◌, ◌++◌, Text, codes}
use huginn_io.Probes.Kinds.{unwrap_or, http_probe, dns_probe}
use huginn_io.Probes.{Timed, elapsed}

-- What the builder of a client is told; `redirects` is how many it may follow.
pub record ClientOptions : Type 0 where
  pub rustls_tls : Bool
  pub redirects : ℕ

-- A client, if it can be built, and the status that `get(url).send()` comes back with.
pub record ReqwestApi : Type 1 where
  pub Client : Type 0
  pub build : ClientOptions → Foreign Client
  pub send : Client → Text → Timed ℕ

unfoldable pub build_client : (api : ReqwestApi) → Foreign api.Client
build_client api = api.build (record { rustls_tls = true; redirects = 0 })

pub data Protocol : Type 0 where
  over_udp over_tcp : Protocol

pub data LookupIpStrategy : Type 0 where
  ipv4_only ipv6_only ipv6_and_ipv4 ipv6_then_ipv4 ipv4_then_ipv6 : LookupIpStrategy

pub record ConnectionConfig : Type 0 where
  pub protocol : Protocol
  pub port : ℕ

pub record NameServerConfig : Type 0 where
  pub ip : IpAddr
  pub connections : List ConnectionConfig
  pub trust_negative_responses : Bool

-- Whether the hosts file of the system is asked before a name server.
pub data ResolveHosts : Type 0 where
  always auto never : ResolveHosts

-- Of the options, those that the program sets, and the hosts file, which it leaves at its default.
pub record ResolverOpts : Type 0 where
  pub use_hosts_file : ResolveHosts
  pub timeout_secs : ℕ
  pub attempts : ℕ
  pub ip_strategy : LookupIpStrategy

-- The constructors and defaults of hickory, a resolver, if it can be built, and its lookups. A
-- configuration is the list of its name servers.
pub record HickoryApi : Type 1 where
  pub Resolver : Type 0
  pub udp_connection : ConnectionConfig
  pub udp_name_server : IpAddr → NameServerConfig
  pub default_config : List NameServerConfig
  pub default_opts : ResolverOpts
  pub build : List NameServerConfig → ResolverOpts → Foreign Resolver
  pub lookup_ip : Resolver → Text → Timed (List IpAddr)

unfoldable pub build_resolver : (api : HickoryApi) → IpAddr × ℕ → ℕ → Foreign api.Resolver
build_resolver api (address, port) secs =
    let connection = record api.udp_connection { port = port } in
    let name_server = record (api.udp_name_server address) {
      connections = connection ∷ [];
      trust_negative_responses = false;
    } in
    let opts = record api.default_opts {
      timeout_secs = secs;
      attempts = 1;
      ip_strategy = ipv4_then_ipv6;
    } in
    api.build (api.default_config ++ name_server ∷ []) opts

module _ {p : Platform} (now : p.Timestamp) (ms : p.F64) (cfg : ProbeConfig p) where
  -- The probe with the client that it holds.
  unfoldable pub probe_with : (api : ReqwestApi) → Foreign api.Client → ProbeResult p
  probe_with api (failed msg) = http_probe now ms cfg (failed msg) elapsed
  probe_with api (value client) = http_probe now ms cfg (value tt) (api.send client cfg.target)

  unfoldable pub run_http : ReqwestApi → ProbeResult p
  unfolding build_client probe_with
  run_http api = probe_with api (build_client api)

  unfoldable pub lookup_with :
      (api : HickoryApi)
      → Parsers
      → (IpAddr → List IpAddr → Text)
      → Foreign api.Resolver
      → ProbeResult p
  lookup_with api n explain (failed e) =
      dns_probe now ms cfg n explain (value tt) (failed e) elapsed
  lookup_with api n explain (value resolver) =
      let query = unwrap_or cfg.dns_query (codes "example.com") in
      dns_probe now ms cfg n explain (value tt) (value tt) (api.lookup_ip resolver query)

  unfoldable pub ask_nameserver :
      HickoryApi → Parsers → (IpAddr → List IpAddr → Text) → Foreign (IpAddr × ℕ) → ProbeResult p
  unfolding build_resolver lookup_with
  ask_nameserver api n explain (failed e) =
      dns_probe now ms cfg n explain (failed e) (failed e) elapsed
  ask_nameserver api n explain (value nameserver) =
      lookup_with api n explain (build_resolver api nameserver cfg.timeout_secs)

  -- `parse_socket` is `str::parse::<SocketAddr>`.
  unfoldable pub run_dns :
      HickoryApi
      → Parsers
      → (IpAddr → List IpAddr → Text)
      → (Text → Foreign (IpAddr × ℕ))
      → ProbeResult p
  unfolding ask_nameserver
  run_dns api n explain parse_socket = ask_nameserver api n explain (parse_socket cfg.target)
