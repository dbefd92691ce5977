-- ===== src/Probes/Clients/Tests.antt =====
-- The theorems on the clients at a site that answers and at a name server that knows one address.
use huginn_io.Core.Config.Address.{IpAddr, v4}
use huginn_io.Core.Config.{ProbeConfig, dns, http}
use huginn_io.Core.Error.{Foreign, value, failed}
use huginn_io.Core.Samples.{sample_platform, sample_parsers, mail_probe}
use huginn_io.Prelude.{
  ℕ, ◌≡◌, ◌↔◌, refl, sym, ap, ◌∙◌, arith, some, true, List, [], ◌∷◌, ◌==◌, if◌then◌else◌, text_eq,
  Option, none, Text, codes,
}
use huginn_io.Probes.Clients.Asked.{
  Question, unless, ReqwestLaws, HickoryLaws, Resolves, run_http_up_iff, run_dns_up_iff,
}
use huginn_io.Probes.Clients.{
  ReqwestApi, HickoryApi, ConnectionConfig, NameServerConfig, over_udp, ResolverOpts, ipv6_only,
  ResolveHosts, auto, never, build_client, run_http, run_dns,
}
use huginn_io.Probes.Kinds.{unwrap_or}
use huginn_io.Probes.Registry.Verdicts.{Ready, Works}
use huginn_io.Probes.{Timed, done, elapsed}

abbrev found : {A : Type 0} → A → Foreign A → A
found d (value a) = a
found d (failed e) = d

-- Each client is how many redirects it may follow; there is one, from 301 to 200.
abbrev one_hop : ReqwestApi
one_hop = record {
  Client = ℕ;
  build = λ o. value o.redirects;
  send = λ client url. if client == 0 then done 301 else done 200;
}

one_hop_laws : ReqwestLaws one_hop (λ url. done 301)
one_hop_laws = record {
  unredirected = λ o client url built none. ground (arith, ap (found 7) built, none);
}

abbrev site : ProbeConfig sample_platform
site = record mail_probe {
  probe_type = http;
  target = codes "http://a";
  expected_status = some 301;
}

run_http_up_iff_example : ((run_http 4 2 site one_hop).up ≡ true) ↔ (
    Works (λ (_ : ℕ). Unit {0}) (build_client one_hop)
    × Ready {A = ℕ} (λ status. status ≡ unwrap_or (some 301) 200) (done 301))
run_http_up_iff_example = run_http_up_iff 4 2 site one_hop (λ url. done 301) one_hop_laws

-- The hosts file has one name.
abbrev in_hosts : ResolveHosts → Text → Option (List IpAddr)
in_hosts never name = none
in_hosts _ name = if text_eq name (codes "here") then some (v4 1 ∷ []) else none

-- One address is known, on port 53.
abbrev known : Question → Timed (List IpAddr)
known q = if q.port == 53 then done (v4 0x7f000001 ∷ []) else elapsed

abbrev ask_over : List ConnectionConfig → IpAddr → ResolverOpts → Text → Timed (List IpAddr)
ask_over [] ip opts name = elapsed
ask_over (c ∷ cs) ip opts name = known (record {
  server = ip;
  port = c.port;
  protocol = c.protocol;
  strategy = opts.ip_strategy;
  name = name;
})

abbrev ask_first : List NameServerConfig × ResolverOpts → Text → Timed (List IpAddr)
ask_first ([], opts) name = elapsed
ask_first (s ∷ more, opts) name =
    unless (in_hosts opts.use_hosts_file name) (ask_over s.connections s.ip opts name)

abbrev plain_hickory : HickoryApi
plain_hickory = record {
  Resolver = List NameServerConfig × ResolverOpts;
  udp_connection = record { protocol = over_udp; port = 53 };
  udp_name_server = λ ip. record { ip = ip; connections = []; trust_negative_responses = true };
  default_config = [];
  default_opts = record {
    use_hosts_file = auto;
    timeout_secs = 5;
    attempts = 2;
    ip_strategy = ipv6_only;
  };
  build = λ servers opts. value (servers, opts);
  lookup_ip = ask_first;
}

plain_hickory_laws : HickoryLaws plain_hickory in_hosts known
plain_hickory_laws = record {
  udp = refl;
  named = λ ip. refl;
  no_default = refl;
  asks = λ server c opts r query one built.
      ap (λ x. ask_first x query) (sym (ap (found r) built))
      ∙ ap (λ cs. unless (in_hosts opts.use_hosts_file query) (ask_over cs server.ip opts query))
          one;
}

abbrev name_site : ProbeConfig sample_platform
name_site = record mail_probe {
  probe_type = dns;
  target = codes "127.0.0.1:53";
  dns_expected_ip = some (codes "127.0.0.1");
}

abbrev loopback_53 : Text → Foreign (IpAddr × ℕ)
loopback_53 t = value (v4 0x7f000001, 53)

run_dns_up_iff_example :
    ((run_dns 4 2 name_site plain_hickory sample_parsers (λ ip ips. []) loopback_53).up ≡ true)
    ↔ Resolves 4 2 name_site plain_hickory in_hosts known sample_parsers (value (v4 0x7f000001, 53))
run_dns_up_iff_example =
    run_dns_up_iff 4 2 name_site plain_hickory in_hosts known plain_hickory_laws sample_parsers
      (λ ip ips. []) loopback_53
