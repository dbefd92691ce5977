-- ===== src/System/EndToEnd.antt =====
-- The path of a result through the crates: from a configuration that `load_with_warnings` returned,
-- over the probes, to a batch of line protocol.
use huginn_io.Core.Config.Address.{Parsers}
use huginn_io.Core.Config.Env.{Env}
use huginn_io.Core.Config.Load.Safe.{IsPrintable, load_with_warnings-IsValid}
use huginn_io.Core.Config.Load.{load_with_warnings}
use huginn_io.Core.Config.{
  AppConfig, ProbeConfig, ProbeType, tcp, http, https, smtp, imap, udp, dns, tls, show_probe_type,
}
use huginn_io.Core.Error.{Foreign, ok}
use huginn_io.Core.Platform.{Platform}
use huginn_io.Core.Types.Escape.{IsPlain}
use huginn_io.Core.Types.{ProbeResult, is_control, tls_cert_expiry_days}
use huginn_io.Influx.Batcher.{render}
use huginn_io.Influx.LineProtocol.Escape.{IsOneLine}
use huginn_io.Influx.LineProtocol.Point.{PrintsOneLine, TagsOneLine, split_lines, split_lines-batch}
use huginn_io.Influx.LineProtocol.{to_line_protocol}
use huginn_io.Prelude.{ℕ, ◌≡◌, ◌⊎◌, inl, inr, sym, subst, List, [], ◌∷◌, map, arith, All, Text}
use huginn_io.Probes.Registry.Contract.{IsAbout, execute_probe-IsAbout}
use huginn_io.Probes.Registry.{World, execute_probe}

IsPlain-IsOneLine : (s : Text) → IsPlain s → IsOneLine s
unfolding is_control
IsPlain-IsOneLine [] h = tt
IsPlain-IsOneLine (c ∷ s) h = (ground arith, IsPlain-IsOneLine s h.1)

show_probe_type-IsOneLine : (t : ProbeType) → IsOneLine (show_probe_type t)
unfolding show_probe_type
show_probe_type-IsOneLine tcp = ground arith
show_probe_type-IsOneLine http = ground arith
show_probe_type-IsOneLine https = ground arith
show_probe_type-IsOneLine smtp = ground arith
show_probe_type-IsOneLine imap = ground arith
show_probe_type-IsOneLine udp = ground arith
show_probe_type-IsOneLine dns = ground arith
show_probe_type-IsOneLine tls = ground arith

readings-IsOneLine :
    {V : Type 0} (ms : List (Text × V))
    → All (λ m. m.0 ≡ tls_cert_expiry_days) ms
    → All (λ m. IsOneLine m.0) ms
readings-IsOneLine [] h = tt
readings-IsOneLine ((key, v) ∷ ms) h =
    (subst IsOneLine (sym h.0) (ground arith), readings-IsOneLine ms h.1)

-- One run of a probe: its configuration, and what it meets.
pub record ProbeRun (p : Platform) : Type 0 where
  pub config : ProbeConfig p
  pub world : World p
  pub now : p.Timestamp
  pub elapsed : p.F64

module _ {p : Platform} where
  abbrev pub result_of : Parsers → ProbeRun p → ProbeResult p
  result_of n r = execute_probe n r.world r.now r.elapsed r.config

  -- The probe is one of the list.
  abbrev pub Among : List (ProbeConfig p) → ProbeConfig p → Type 0
  Among [] c = ⊥
  Among (x ∷ xs) c = (c ≡ x) ⊎ Among xs c

  IsAbout-TagsOneLine :
      (c : ProbeConfig p) (r : ProbeResult p)
      → IsPrintable c
      → IsAbout c (show_probe_type c.probe_type) r
      → TagsOneLine r
  IsAbout-TagsOneLine c r h a = record {
    name = subst IsOneLine (sym a.name) (IsPlain-IsOneLine c.name h.name);
    kind = subst IsOneLine (sym a.kind_label) (show_probe_type-IsOneLine c.probe_type);
    target = subst IsOneLine (sym a.target) (IsPlain-IsOneLine c.target h.target);
    keys = readings-IsOneLine r.metrics a.readings;
  }

  pub Among-IsPrintable :
      (cs : List (ProbeConfig p)) (c : ProbeConfig p)
      → All IsPrintable cs
      → Among cs c
      → IsPrintable c
  Among-IsPrintable [] c h m = absurd m
  Among-IsPrintable (x ∷ cs) c h (inl e) = subst IsPrintable (sym e) h.0
  Among-IsPrintable (x ∷ cs) c h (inr m) = Among-IsPrintable cs c h.1 m

  runs-TagsOneLine :
      (n : Parsers) (cs : List (ProbeConfig p)) (runs : List (ProbeRun p))
      → All IsPrintable cs
      → All (λ r. Among cs r.config) runs
      → All TagsOneLine (map (result_of n) runs)
  runs-TagsOneLine n cs [] h m = tt
  runs-TagsOneLine n cs (r ∷ rs) h m = (
    IsAbout-TagsOneLine r.config (result_of n r) (Among-IsPrintable cs r.config h m.0)
        (execute_probe-IsAbout n r.world r.now r.elapsed r.config),
    runs-TagsOneLine n cs rs h m.1,
  )

  -- If the platform formats numbers and times without line feeds, then for the configuration of any
  -- successful load and any runs of probes among its probes, whatever the network gave, the batch
  -- rendered from their results splits at its line feeds into exactly their points, one line each.
  pub split_lines-loaded :
      (o : PrintsOneLine p) (n : Parsers) (env : Env) (path : Text) (file : Foreign Text)
      (from_str : Text → Foreign (AppConfig p)) (cfg : AppConfig p) (warnings : List Text) (id : ℕ)
      (run : ProbeRun p) (runs : List (ProbeRun p))
      → load_with_warnings n env path file from_str ≡ ok (cfg, warnings)
      → All (λ r. Among cfg.probes r.config) (run ∷ runs)
      → split_lines (render id (map (result_of n) (run ∷ runs))).lines
        ≡ map to_line_protocol (map (result_of n) (run ∷ runs))
  unfolding render
  split_lines-loaded o n env path file from_str cfg warnings id run runs h m =
      let loaded = load_with_warnings-IsValid n env path file from_str h in
      split_lines-batch o (result_of n run) (map (result_of n) runs)
        (runs-TagsOneLine n cfg.probes (run ∷ runs) loaded.1 m)
