-- ===== src/Influx/Batcher/Tests.antt =====
-- The batcher's theorem at a run of five events.
use huginn_io.Core.Samples.{sample_platform, sample_up, sample_down}
use huginn_io.Core.Stats.{default_stats}
use huginn_io.Influx.Batcher.Delivery.{received, closes, Delivers, run_batcher-Delivers}
use huginn_io.Influx.Batcher.{Batcher, Event, completed, lagged, hub_closed, deadline, run_batcher}
use huginn_io.Influx.Queue.{new}
use huginn_io.Prelude.{refl, true, List, [], ◌∷◌, arith}

abbrev fresh_batcher : Batcher sample_platform
fresh_batcher = record { queue = new 1000 default_stats; buffer = []; next_id = 0; running = true }

abbrev sample_events : List (Event sample_platform)
sample_events =
    completed sample_up
    ∷ completed sample_down
    ∷ lagged 4
    ∷ completed sample_up
    ∷ deadline
    ∷ completed sample_down
    ∷ hub_closed
    ∷ []

run_batcher-Delivers_example :
    Delivers 2 fresh_batcher
      (received sample_events)
      (closes sample_events)
      (run_batcher 2 fresh_batcher sample_events)
run_batcher-Delivers_example = run_batcher-Delivers 2 fresh_batcher sample_events (omega arith) refl
