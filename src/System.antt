-- ===== src/System.antt =====
-- huginn/src/scheduler.rs and huginn/src/main.rs: how the crates are put together. One probe loop
-- per configured probe runs the probe at each tick and publishes its result, until the shutdown
-- signal. The timer, the network and the signal are inputs.
pub mod Loop
pub mod EndToEnd
pub mod Start
pub mod Shutdown
pub mod Output
pub mod Feed
pub mod Together
pub mod Main
mod Tests
use huginn_io.Core.Config.Address.{Parsers}
use huginn_io.Core.Config.{ProbeConfig}
use huginn_io.Core.Platform.{Platform}
use huginn_io.Core.Types.{ProbeResult}
use huginn_io.Prelude.{List, [], ◌∷◌, ◌++◌}
use huginn_io.Probes.Registry.{World, execute_probe}

-- The two `select!` of the loop, and its end.
pub data Stage : Type 0 where
  between probing stopped : Stage

-- What the `select!` in force chooses: the timer, the probe's end, with what the network gave it,
-- its time and its stopwatch, or the signal.
pub data Signal (p : Platform) : Type 0 where
  tick : Signal p
  finished : World p → p.Timestamp → p.F64 → Signal p
  shutdown : Signal p

pub record ProbeLoop (p : Platform) : Type 0 where
  pub stage : Stage
  pub published : List (ProbeResult p)

module _ {p : Platform} (n : Parsers) (cfg : ProbeConfig p) where
  pub react : ProbeLoop p → Stage → Signal p → ProbeLoop p
  react s between tick = record s { stage = probing }
  react s between shutdown = record s { stage = stopped }
  react s probing (finished w now ms) = record s {
    stage = between;
    published = s.published ++ execute_probe n w now ms cfg ∷ [];
  }
  react s probing shutdown = record s { stage = stopped }
  react s _ _ = s

  unfoldable pub run_probe_loop : ProbeLoop p → List (Signal p) → ProbeLoop p
  unfolding react
  run_probe_loop s [] = s
  run_probe_loop s (a ∷ as_) = run_probe_loop (react s s.stage a) as_

-- `scheduler::run`: a loop for each probe, in the order of the configuration.
unfoldable pub start_loops :
    {p : Platform} → List (ProbeConfig p) → List (ProbeConfig p × ProbeLoop p)
start_loops [] = []
start_loops (cfg ∷ probes) = (cfg, record { stage = between; published = [] }) ∷ start_loops probes
