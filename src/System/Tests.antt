-- ===== src/System/Tests.antt =====
-- The theorems on the composition at a small configuration.
use huginn_io.Core.Config.Tests.{no_env, sample_load}
use huginn_io.Core.Error.{value}
use huginn_io.Core.Samples.{sample_platform, sample_parsers, sample_config, mail_probe}
use huginn_io.Influx.Batcher.{render}
use huginn_io.Influx.LineProtocol.Point.{split_lines}
use huginn_io.Influx.LineProtocol.Tests.{sample-PrintsOneLine}
use huginn_io.Influx.LineProtocol.{to_line_protocol}
use huginn_io.Prelude.{◌≡◌, refl, inl, List, [], ◌∷◌, ◌++◌, map, codes}
use huginn_io.Probes.Registry.{World}
use huginn_io.Probes.Tests.{sample_world}
use huginn_io.Probes.{broke}
use huginn_io.System.EndToEnd.{ProbeRun, result_of, split_lines-loaded}
use huginn_io.System.Loop.{ticks, Publishes, run_probe_loop-Publishes, run_probe_loop_shutdown}
use huginn_io.System.{Signal, tick, finished, shutdown, between, stopped, ProbeLoop, run_probe_loop}

abbrev down_world : World sample_platform
down_world = record sample_world { tcp_connect = broke (codes "refused\nagain") }

abbrev up_run : ProbeRun sample_platform
up_run = record { config = mail_probe; world = sample_world; now = 4; elapsed = 2 }

abbrev down_run : ProbeRun sample_platform
down_run = record { config = mail_probe; world = down_world; now = 5; elapsed = 3 }

split_lines-loaded_example :
    split_lines (render 0 (map (result_of sample_parsers) (up_run ∷ down_run ∷ []))).lines
    ≡ map to_line_protocol (map (result_of sample_parsers) (up_run ∷ down_run ∷ []))
split_lines-loaded_example =
    split_lines-loaded sample-PrintsOneLine sample_parsers no_env (codes "c.yaml") (value [])
      (λ t. value sample_config) sample_config [] 0 up_run (down_run ∷ []) sample_load
      (inl refl, (inl refl, tt))

abbrev fresh_loop : ProbeLoop sample_platform
fresh_loop = record { stage = between; published = [] }

abbrev sample_signals : List (Signal sample_platform)
sample_signals = tick ∷ finished sample_world 4 2 ∷ tick ∷ []

run_probe_loop-Publishes_example :
    Publishes mail_probe
      (ticks sample_signals)
      fresh_loop
      (run_probe_loop sample_parsers mail_probe fresh_loop sample_signals)
run_probe_loop-Publishes_example =
    run_probe_loop-Publishes sample_parsers mail_probe fresh_loop sample_signals

run_probe_loop_shutdown_example :
    run_probe_loop sample_parsers mail_probe fresh_loop
      (sample_signals ++ shutdown ∷ finished sample_world 9 1 ∷ [])
    ≡ (record (run_probe_loop sample_parsers mail_probe fresh_loop sample_signals) {
      stage = stopped;
    })
run_probe_loop_shutdown_example =
    run_probe_loop_shutdown sample_parsers mail_probe fresh_loop sample_signals
      (finished sample_world 9 1 ∷ [])
