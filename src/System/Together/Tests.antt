-- ===== src/System/Together/Tests.antt =====
-- The theorem on the loops and the batcher at two probes and a hub that keeps two.
use huginn_io.Core.Config.{ProbeConfig}
use huginn_io.Core.Hub.Tests.{list_api, list_laws}
use huginn_io.Core.Hub.{new_hub}
use huginn_io.Core.Samples.{sample_platform, sample_parsers, mail_probe}
use huginn_io.Core.Types.{ProbeResult}
use huginn_io.Prelude.{◌≢◌, List, [], ◌∷◌, arith, codes}
use huginn_io.Probes.Tests.{sample_world}
use huginn_io.System.Together.Ordered.{IsOrdered, take_turns-IsOrdered}
use huginn_io.System.Together.{
  Turn, loop_turn, batcher_recv, batcher_deadline, start_together, take_turns,
}
use huginn_io.System.{tick, finished, shutdown}

abbrev web_probe : ProbeConfig sample_platform
web_probe = record mail_probe { name = codes "web" }

abbrev sample_turns : List (Turn sample_platform)
sample_turns =
    loop_turn 0 tick
    ∷ loop_turn 1 tick
    ∷ loop_turn 1 (finished sample_world 4 2)
    ∷ batcher_recv
    ∷ loop_turn 0 (finished sample_world 5 3)
    ∷ loop_turn 1 shutdown
    ∷ batcher_deadline
    ∷ []

differ : mail_probe.name ≢ web_probe.name
differ = λ e. cc

take_turns-IsOrdered_example :
    let probes = mail_probe ∷ web_probe ∷ [] in
    let api = list_api (ProbeResult sample_platform) in
    let start = start_together sample_parsers api 10 probes 1000 (new_hub api 2) in
    IsOrdered sample_parsers api
      (list_laws (ProbeResult sample_platform))
      2
      10
      probes
      sample_turns
      start
      (take_turns sample_parsers api 10 start sample_turns)
take_turns-IsOrdered_example =
    take_turns-IsOrdered sample_parsers (list_api (ProbeResult sample_platform))
      (list_laws (ProbeResult sample_platform)) 2 1000 10 (mail_probe ∷ web_probe ∷ []) sample_turns
      (omega arith) ((differ, tt), (tt, tt))
