-- ===== src/Probes/Tests.antt =====
-- The theorems on the probes at concrete answers of the network.
use huginn_io.Core.Config.Address.{v4}
use huginn_io.Core.Config.{ProbeConfig, tls, show_probe_type}
use huginn_io.Core.Error.{value, failed}
use huginn_io.Core.Samples.{sample_platform, sample_parsers, mail_probe}
use huginn_io.Prelude.{◌≡◌, ◌↔◌, true, List, [], ◌∷◌, arith, Bytes, codes}
use huginn_io.Probes.Greeting.Ends.{Ends, read_greeting_line_iff}
use huginn_io.Probes.Greeting.Stream.{stream, Bounded, read_greeting_line-Bounded}
use huginn_io.Probes.Greeting.{Read, bytes, line, read_greeting, read_greeting_line}
use huginn_io.Probes.Registry.Contract.{IsAbout, execute_probe-IsAbout}
use huginn_io.Probes.Registry.Verdicts.{Succeeds, execute_probe_up_iff}
use huginn_io.Probes.Registry.{World, execute_probe}
use huginn_io.Probes.{done}

-- A banner in two pieces.
abbrev pub two_reads : List Read
two_reads = bytes (codes "22") ∷ bytes (codes "0 ok\n") ∷ []

abbrev banner : Bytes
banner = codes "220 ok\n"

read_greeting_line-Bounded_example : Bounded (stream two_reads) banner
unfolding read_greeting
read_greeting_line-Bounded_example = read_greeting_line-Bounded two_reads banner (ground arith)

read_greeting_line_iff_example :
    ((l : Bytes) × (read_greeting_line two_reads ≡ line l)) ↔ Ends two_reads
read_greeting_line_iff_example = read_greeting_line_iff two_reads

abbrev tls_site : ProbeConfig sample_platform
tls_site = record mail_probe { probe_type = tls; target = codes "mail:993" }

-- A certificate with eleven days left.
abbrev pub sample_world : World sample_platform
sample_world = record {
  tcp_connect = done tt;
  connect = value tt;
  reads = two_reads;
  from_utf8_lossy = λ b. b;
  http_client = value tt;
  http_status = done 200;
  udp_steps = record {
    resolved = done (v4 1 ∷ []);
    bound = λ local. value tt;
    connected = λ addr. value tt;
    sent = λ datagram. failed (codes "refused");
    answered = done 3;
  };
  nameserver = value tt;
  resolver = value tt;
  lookup = done (v4 1 ∷ []);
  explain = λ ip ips. codes "other";
  tls_config = value tt;
  handshake = λ host. done [];
  cert_expiry_days = λ der. value 11;
}

execute_probe-IsAbout_example :
    IsAbout tls_site
      (show_probe_type tls_site.probe_type)
      (execute_probe sample_parsers sample_world 5 7 tls_site)
execute_probe-IsAbout_example = execute_probe-IsAbout sample_parsers sample_world 5 7 tls_site

execute_probe_up_iff_example :
    ((execute_probe sample_parsers sample_world 5 7 tls_site).up ≡ true)
    ↔ Succeeds sample_parsers sample_world tls_site tls_site.probe_type
execute_probe_up_iff_example = execute_probe_up_iff sample_parsers sample_world 5 7 tls_site
