-- ===== src/System/Main/Commands.antt =====
-- huginn/src/main.rs: what each command of `main` does.
use huginn_io.Core.Anyhow.{fine, context_fine_iff, of_result_fine_iff, Outcome-cases, fine_chain}
use huginn_io.Core.Config.Address.{health_bind}
use huginn_io.Core.Config.Load.{load_with_warnings}
use huginn_io.Core.Config.{AppConfig}
use huginn_io.Core.Error.{ok}
use huginn_io.Core.Platform.{Platform}
use huginn_io.Prelude.{
  ◌≡◌, ◌↔◌, ↔_trans, refl, true, List, Option, none, some, arith, Text, inl, inr,
}
use huginn_io.System.Main.{
  Args, Command, healthcheck, Machine, Begun, checked, running, load, begin, main,
}
use huginn_io.System.Output.{resolve_output_format}
use huginn_io.System.Start.Enabled.{IsStarted, start_iff}
use huginn_io.System.Start.{start}
use huginn_io.Web.Health.Check.{KeepsAscii, Answers200, run_healthcheck_iff}
use huginn_io.Web.Health.{health_request, run_healthcheck}

module _ {p : Platform} (m : Machine p) where
  -- The configuration in force, and its warnings.
  abbrev pub Loads : Args → AppConfig p → List Text → Type 0
  Loads args cfg warnings =
      load_with_warnings m.parsers m.env args.config (m.read_to_string args.config) m.from_str
      ≡ ok (cfg, warnings)

  -- What the command does with it.
  abbrev pub Does : Option Command → Args → AppConfig p → List Text → Begun p → Type 0
  Does (some healthcheck) args cfg warnings checked =
      (cfg.health.enabled ≡ true)
      × Answers200 (m.exchange health_bind cfg.health.port (health_request health_bind))
  Does none args cfg warnings (running as_json logged s) =
      ((as_json, logged) ≡ resolve_output_format args.output cfg.log.format warnings)
      × IsStarted m.parsers m.outside cfg s
  Does _ args cfg warnings _ = ⊥

  load_iff :
      (args : Args) (cfg : AppConfig p) (warnings : List Text)
      → (load m args ≡ fine (cfg, warnings)) ↔ Loads args cfg warnings
  unfolding load
  load_iff args cfg warnings = ↔_trans (context_fine_iff _ _ _) (of_result_fine_iff _ _)

  begin_iff :
      (args : Args) (command : Option Command) (cfg : AppConfig p) (warnings : List Text)
      (begun : Begun p)
      → KeepsAscii m.lossy
      → (begin m args command (cfg, warnings) ≡ fine begun) ↔ Does command args cfg warnings begun
  unfolding begin
  begin_iff args (some healthcheck) cfg warnings checked k =
      let h = run_healthcheck_iff m.lossy m.exchange cfg.health k in
      elim (Outcome-cases (run_healthcheck m.lossy m.exchange cfg.health)) [
        | inl (why, e) ↦ (λ x. absurd (ground (arith, e)), λ x. absurd (ground (arith, e, h.1 x)))
        | inr (u, e) ↦ (λ x. h.0 e, λ x. rw e refl)
      ]
  begin_iff args (some healthcheck) cfg warnings (running as_json logged s) k =
      elim (Outcome-cases (run_healthcheck m.lossy m.exchange cfg.health)) [
        | inl (why, e) ↦ (λ x. absurd (ground (arith, e)), λ x. absurd x)
        | inr (u, e) ↦ (λ x. absurd (ground (arith, e)), λ x. absurd x)
      ]
  begin_iff args none cfg warnings checked k =
      elim (Outcome-cases (start m.parsers m.outside cfg)) [
        | inl (why, e) ↦ (λ x. absurd (ground (arith, e)), λ x. absurd x)
        | inr (u, e) ↦ (λ x. absurd (ground (arith, e)), λ x. absurd x)
      ]
  begin_iff args none cfg warnings (running as_json logged s) k =
      let i = start_iff m.parsers m.outside cfg s in
      elim (Outcome-cases (start m.parsers m.outside cfg)) [
        | inl (why, e) ↦ (λ x. absurd (ground (arith, e)), λ x. absurd (ground (arith, e, i.1 x.1)))
        | inr (u, e) ↦ (
          λ x. (ground (arith, e), i.0 (ground (arith, e))),
          λ x. ground (arith, e, i.1 x.1, x.0),
        )
      ]

  -- If the decoding keeps ASCII, main begins with something exactly if the configuration loads, and
  -- then: with the healthcheck command, if health is enabled and the listener answers 200, it has
  -- checked and started nothing; without a command, the program runs as started from that
  -- configuration, with the output format and warnings that the command line and it decide.
  pub main_iff :
      (args : Args) (begun : Begun p)
      → KeepsAscii m.lossy
      → (main m args ≡ fine begun) ↔ (
          (cfg : AppConfig p) × (warnings : List Text) × Loads args cfg warnings
          × Does args.command args cfg warnings begun)
  unfolding main
  main_iff args begun k = (
    λ e.
        let c = fine_chain (load m args) (begin m args args.command) e in
        let (cfg, warnings) = c.0 in
        (
          cfg,
          warnings,
          (load_iff args cfg warnings).0 c.2,
          (begin_iff args args.command cfg warnings begun k).0 c.1,
        ),
    λ (cfg, warnings, loads, does).
        rw ((load_iff args cfg warnings).1 loads)
          ((begin_iff args args.command cfg warnings begun k).1 does),
  )
