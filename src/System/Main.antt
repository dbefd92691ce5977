-- ===== src/System/Main.antt =====
-- huginn/src/main.rs: `main`, up to the wait for the shutdown signal. The command line is parsed,
-- and what the file system, the YAML parser, the network and reqwest come back with are inputs.
pub mod Commands
mod Tests
use huginn_io.Core.Anyhow.{Outcome, fine, context, of_result, ◌>>=◌}
use huginn_io.Core.Config.Address.{Parsers}
use huginn_io.Core.Config.Env.{Env}
use huginn_io.Core.Config.Load.{load_with_warnings}
use huginn_io.Core.Config.{AppConfig}
use huginn_io.Core.Error.{Foreign}
use huginn_io.Core.Platform.{Platform}
use huginn_io.Prelude.{Bool, ◌++◌, List, Option, none, some, Text, Bytes, codes}
use huginn_io.System.Output.{resolve_output_format}
use huginn_io.System.Start.{Outside, Started, start}
use huginn_io.Web.Health.{Exchange, run_healthcheck}

pub data Command : Type 0 where
  healthcheck : Command

pub record Args : Type 0 where
  pub command : Option Command
  pub config : Text
  pub output : Option Text

-- What `main` meets outside the program.
pub record Machine (p : Platform) : Type 0 where
  pub parsers : Parsers
  pub env : Env
  pub read_to_string : Text → Foreign Text
  pub from_str : Text → Foreign (AppConfig p)
  pub outside : Outside
  pub lossy : Bytes → Text
  pub exchange : Exchange

-- The check passed, or the program runs, with its output format and the warnings that it logged.
pub data Begun (p : Platform) : Type 0 where
  checked : Begun p
  running : Bool → List Text → Started p → Begun p

module _ {p : Platform} (m : Machine p) where
  load : Args → Outcome (AppConfig p × List Text)
  load args = context (codes "Failed to load config from '" ++ (args.config ++ codes "'")) (
      of_result
        (load_with_warnings m.parsers m.env args.config (m.read_to_string args.config) m.from_str))

  begin : Args → Option Command → AppConfig p × List Text → Outcome (Begun p)
  begin args (some healthcheck) (cfg, warnings) =
      run_healthcheck m.lossy m.exchange cfg.health >>= λ u. fine checked
  begin args none (cfg, warnings) =
      let format = resolve_output_format args.output cfg.log.format warnings in
      start m.parsers m.outside cfg >>= λ s. fine (running format.0 format.1 s)

  unfoldable pub main : Args → Outcome (Begun p)
  unfolding load begin
  main args = load args >>= begin args args.command
