-- ===== src/Probes/Clients/Asked.antt =====
-- crates/huginn-probes/src/{http,dns}.rs: whom the probes ask, and what makes them report up.
use huginn_io.Core.Config.Address.{Parsers, IpAddr}
use huginn_io.Core.Config.{ProbeConfig}
use huginn_io.Core.Error.{Foreign, value, failed}
use huginn_io.Core.Platform.{Platform}
use huginn_io.Prelude.{
  ℕ, ◌≡◌, ◌↔◌, false, refl, sym, ap, subst, ◌∙◌, true, List, [], ◌∷◌, ◌++◌, Option, none, some,
  Text, codes,
}
use huginn_io.Probes.Clients.{
  ReqwestApi, ClientOptions, build_client, Protocol, over_udp, LookupIpStrategy, ipv4_then_ipv6,
  ConnectionConfig, NameServerConfig, ResolveHosts, ResolverOpts, HickoryApi, build_resolver,
  probe_with, run_http, lookup_with, ask_nameserver, run_dns,
}
use huginn_io.Probes.Kinds.{unwrap_or}
use huginn_io.Probes.Registry.Verdicts.{Ready, Works, Expected, http_up_iff, dns_up_iff}
use huginn_io.Probes.{Timed, done, elapsed}

-- What reqwest documents: a client that may follow no redirect comes back with the first answer.
pub record ReqwestLaws (api : ReqwestApi) (first_answer : Text → Timed ℕ) : Type 0 where
  pub unredirected :
      (o : ClientOptions) (client : api.Client) (url : Text)
      → api.build o ≡ value client
      → o.redirects ≡ 0
      → api.send client url ≡ first_answer url

-- A question: to this address and port, over this protocol, for these kinds of addresses.
pub record Question : Type 0 where
  pub server : IpAddr
  pub port : ℕ
  pub protocol : Protocol
  pub strategy : LookupIpStrategy
  pub name : Text

-- What a lookup comes to: what the resolver finds by itself, and otherwise the answer to a
-- question.
abbrev pub unless : Option (List IpAddr) → Timed (List IpAddr) → Timed (List IpAddr)
unless (some ips) answered = done ips
unless none answered = answered

-- What hickory documents: its defaults, and that a resolver with one name server and one connection
-- puts its question there, unless it finds the name by itself. `by_itself` is what it finds so: the
-- address, if the name is one, and the entry of the hosts file, if the option lets it look there.
pub record HickoryLaws (api : HickoryApi) (by_itself : ResolveHosts → Text → Option (List IpAddr))
    (answer : Question → Timed (List IpAddr)) : Type 0 where
  pub udp : api.udp_connection.protocol ≡ over_udp
  pub named : (ip : IpAddr) → (api.udp_name_server ip).ip ≡ ip
  pub no_default : api.default_config ≡ []
  pub asks :
      (server : NameServerConfig) (c : ConnectionConfig) (opts : ResolverOpts) (r : api.Resolver)
      (query : Text)
      → server.connections ≡ c ∷ []
      → api.build (server ∷ []) opts ≡ value r
      → api.lookup_ip r query
        ≡ unless (by_itself opts.use_hosts_file query) (
            answer (record {
              server = server.ip;
              port = c.port;
              protocol = c.protocol;
              strategy = opts.ip_strategy;
              name = query;
            }))

module _ {p : Platform} (now : p.Timestamp) (ms : p.F64) (cfg : ProbeConfig p) where
  probe_with_up_iff :
      (api : ReqwestApi) (first_answer : Text → Timed ℕ) (laws : ReqwestLaws api first_answer)
      (client : Foreign api.Client)
      → build_client api ≡ client
      → ((probe_with now ms cfg api client).up ≡ true) ↔ (
          Works (λ (_ : api.Client). Unit {0}) client
          × Ready (λ status. status ≡ unwrap_or cfg.expected_status 200) (first_answer cfg.target))
  unfolding build_client probe_with
  probe_with_up_iff api first_answer laws (failed msg) e =
      let i = http_up_iff now ms cfg (failed msg) elapsed in
      (λ h. absurd (i.0 h).0, λ h. absurd h.0)
  probe_with_up_iff api first_answer laws (value client) e =
      rw (sym (laws.unredirected _ client cfg.target e refl))
        (http_up_iff now ms cfg (value tt) (api.send client cfg.target))

  -- If a client that may follow no redirect comes back with the first answer, an HTTP probe is up
  -- exactly if its client can be built and the first answer to a request for its target, in time,
  -- has the expected status: no later answer of a chain of redirects counts.
  pub run_http_up_iff :
      (api : ReqwestApi) (first_answer : Text → Timed ℕ)
      → ReqwestLaws api first_answer
      → ((run_http now ms cfg api).up ≡ true) ↔ (
          Works (λ (_ : api.Client). Unit {0}) (build_client api)
          × Ready (λ status. status ≡ unwrap_or cfg.expected_status 200) (first_answer cfg.target))
  unfolding run_http
  run_http_up_iff api first_answer laws =
      probe_with_up_iff api first_answer laws (build_client api) refl

  abbrev query : Text
  query = unwrap_or cfg.dns_query (codes "example.com")

  -- What a lookup of the query comes to, with this name server and the default for the hosts file.
  abbrev pub looked_up :
      HickoryApi
      → (ResolveHosts → Text → Option (List IpAddr))
      → (Question → Timed (List IpAddr))
      → IpAddr × ℕ
      → Timed (List IpAddr)
  looked_up api by_itself answer (ip, port) =
      unless (by_itself api.default_opts.use_hosts_file query) (
        answer (record {
          server = ip;
          port = port;
          protocol = over_udp;
          strategy = ipv4_then_ipv6;
          name = query;
        }))

  -- The resolver for this name server can be built, and the lookup finds what the probe expects.
  abbrev pub Resolves :
      HickoryApi
      → (ResolveHosts → Text → Option (List IpAddr))
      → (Question → Timed (List IpAddr))
      → Parsers
      → Foreign (IpAddr × ℕ)
      → Type 0
  Resolves api by_itself answer n (failed e) = ⊥
  Resolves api by_itself answer n (value s) =
      Works (λ (_ : api.Resolver). Unit {0}) (build_resolver api s cfg.timeout_secs)
      × Ready (Expected n cfg.dns_expected_ip) (looked_up api by_itself answer s)

  module _ (api : HickoryApi) (by_itself : ResolveHosts → Text → Option (List IpAddr))
      (answer : Question → Timed (List IpAddr)) (laws : HickoryLaws api by_itself answer)
      (n : Parsers) (explain : IpAddr → List IpAddr → Text) where
    lookup_with_up_iff :
        (s : IpAddr × ℕ) (resolver : Foreign api.Resolver)
        → build_resolver api s cfg.timeout_secs ≡ resolver
        → ((lookup_with now ms cfg api n explain resolver).up ≡ true) ↔ (
            Works (λ (_ : api.Resolver). Unit {0}) resolver
            × Ready (Expected n cfg.dns_expected_ip) (looked_up api by_itself answer s))
    unfolding build_resolver lookup_with
    lookup_with_up_iff s (failed msg) e =
        let i = dns_up_iff now ms cfg n explain (value tt) (failed msg) elapsed in
        (λ h. absurd (i.0 h).1, λ h. absurd h.0)
    lookup_with_up_iff (ip, port) (value r) e =
        let connection = record api.udp_connection { port = port } in
        let server = record (api.udp_name_server ip) {
          connections = connection ∷ [];
          trust_negative_responses = false;
        } in
        let opts = record api.default_opts {
          timeout_secs = cfg.timeout_secs;
          attempts = 1;
          ip_strategy = ipv4_then_ipv6;
        } in
        let asked =
          laws.asks server connection opts r query refl
            (sym (ap (λ c. api.build (c ++ server ∷ []) opts) laws.no_default) ∙ e) in
        let put : Path Question
            (record {
              server = server.ip;
              port = port;
              protocol = connection.protocol;
              strategy = ipv4_then_ipv6;
              name = query;
            })
            (record {
              server = ip;
              port = port;
              protocol = over_udp;
              strategy = ipv4_then_ipv6;
              name = query;
            }) =
          rw (laws.named ip, laws.udp) refl in
        let i = dns_up_iff now ms cfg n explain (value tt) (value tt) (api.lookup_ip r query) in
        let there =
          asked
          ∙ ap (λ q. unless (by_itself api.default_opts.use_hosts_file query) (answer q)) put in
        (
          λ h. (tt, subst (Ready (Expected n cfg.dns_expected_ip)) there (i.0 h).2),
          λ h. i.1 (tt, tt, subst (Ready (Expected n cfg.dns_expected_ip)) (sym there) h.1),
        )

    ask_nameserver_up_iff :
        (parsed : Foreign (IpAddr × ℕ))
        → ((ask_nameserver now ms cfg api n explain parsed).up ≡ true)
          ↔ Resolves api by_itself answer n parsed
    unfolding ask_nameserver
    ask_nameserver_up_iff (failed e) =
        let i = dns_up_iff now ms cfg n explain (failed e) (failed e) elapsed in
        (λ h. absurd (i.0 h).0, λ h. absurd h)
    ask_nameserver_up_iff (value s) =
        lookup_with_up_iff s (build_resolver api s cfg.timeout_secs) refl

    -- If hickory does what it documents, a DNS probe is up exactly if its target is the address of
    -- a name server, the resolver can be built, and the configured name (example.com if there is
    -- none) is resolved in time to addresses with the one that is expected, if one is: by the
    -- resolver itself, if the name is an address or stands in a hosts file that is looked into by
    -- default, and otherwise by a question to that address and port alone, over UDP, IPv4 first.
    pub run_dns_up_iff :
        (parse_socket : Text → Foreign (IpAddr × ℕ))
        → ((run_dns now ms cfg api n explain parse_socket).up ≡ true)
          ↔ Resolves api by_itself answer n (parse_socket cfg.target)
    unfolding run_dns
    run_dns_up_iff parse_socket = ask_nameserver_up_iff (parse_socket cfg.target)
