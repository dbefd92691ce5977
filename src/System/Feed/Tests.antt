-- ===== src/System/Feed/Tests.antt =====
-- The theorem on the batches at two results and a hub that keeps two.
use huginn_io.Core.Hub.Lossless.{publish_all}
use huginn_io.Core.Hub.Tests.{list_api, list_laws}
use huginn_io.Core.Hub.{new_hub}
use huginn_io.Core.Samples.{sample_platform, sample_up, sample_down}
use huginn_io.Core.Types.{ProbeResult}
use huginn_io.Prelude.{List, [], ◌∷◌, arith}
use huginn_io.System.Feed.Closing.{IsFlushed, close_feed-IsFlushed}
use huginn_io.System.Feed.Complete.{results_of}
use huginn_io.System.Feed.{
  FeedStep, publishes, select_recv, select_deadline, run_feed, start_feed, close_feed,
}

abbrev sample_steps : List (FeedStep sample_platform)
sample_steps = publishes sample_up ∷ publishes sample_down ∷ select_recv ∷ select_deadline ∷ []

close_feed-IsFlushed_example :
    let api = list_api (ProbeResult sample_platform) in
    let start = start_feed api 1000 (publish_all api (new_hub api 2) []) in
    IsFlushed 2 10 api
      (results_of sample_steps)
      start
      (close_feed api 10 (run_feed api 10 start sample_steps) 3)
close_feed-IsFlushed_example =
    close_feed-IsFlushed (list_api (ProbeResult sample_platform))
      (list_laws (ProbeResult sample_platform)) 2 1000 10 [] sample_steps 3 (omega arith)
      (omega arith)
