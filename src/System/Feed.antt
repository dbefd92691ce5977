-- ===== src/System/Feed.antt =====
-- huginn/src/main.rs: the batcher as a subscriber of the hub, which is how `run` spawns it.
pub mod Complete
pub mod Closing
mod Tests
use huginn_io.Core.Hub.{
  Recv, event, lagged, empty, BroadcastApi, EventHub, HubStep, published, receives, Subscriber,
  new_subscriber, hub_step,
}
use huginn_io.Core.Platform.{Platform}
use huginn_io.Core.Stats.{default_stats}
use huginn_io.Core.Types.{ProbeResult}
use huginn_io.Influx.Batcher.{Event, completed, hub_closed, deadline, Batcher, handle}
use huginn_io.Influx.Batcher
use huginn_io.Influx.Queue.{new}
use huginn_io.Prelude.{ℕ, zero, suc, true, List, [], ◌∷◌}

-- A probe loop publishes; or the batcher's `select!` takes the receiver, or the flush deadline.
pub data FeedStep (p : Platform) : Type 0 where
  publishes : ProbeResult p → FeedStep p
  select_recv : FeedStep p
  select_deadline : FeedStep p

module _ {p : Platform} (api : BroadcastApi (ProbeResult p)) where
  pub record Feed : Type 0 where
    pub subscriber : Subscriber api
    pub batcher : Batcher p

  -- What the batcher does with what its receiver gives. It waits if there is nothing yet.
  handle_recv : ℕ → Batcher p → Recv (ProbeResult p) → Batcher p
  handle_recv batch_size b (event r) = handle batch_size b (completed r)
  handle_recv batch_size b (lagged n) = handle batch_size b (Batcher.lagged n)
  handle_recv batch_size b empty = b

  feed_step : ℕ → Feed → FeedStep p → Feed
  unfolding handle_recv
  feed_step batch_size s (publishes r) = record s {
    subscriber = hub_step api s.subscriber (published r);
  }
  feed_step batch_size s select_recv = record {
    subscriber = hub_step api s.subscriber receives;
    batcher = handle_recv batch_size s.batcher (api.recv s.subscriber.hub.tx s.subscriber.rx).0;
  }
  feed_step batch_size s select_deadline = record s {
    batcher = handle batch_size s.batcher deadline;
  }

  unfoldable pub run_feed : ℕ → Feed → List (FeedStep p) → Feed
  unfolding feed_step
  run_feed batch_size s [] = s
  run_feed batch_size s (step ∷ steps) = run_feed batch_size (feed_step batch_size s step) steps

  -- A reception after the last sender of the hub was dropped: where the receiver would wait, it
  -- says `Closed`, and the batcher ends. `next` is what follows otherwise.
  closed_step : ℕ → Feed → Recv (ProbeResult p) → Feed → Feed
  closed_step batch_size s empty next = record s {
    batcher = handle batch_size s.batcher hub_closed;
  }
  closed_step batch_size s (event r) next = next
  closed_step batch_size s (lagged n) next = next

  -- At most so many receptions after that.
  unfoldable pub close_feed : ℕ → Feed → ℕ → Feed
  unfolding closed_step feed_step
  close_feed batch_size s zero = s
  close_feed batch_size s (suc k) =
      let next = close_feed batch_size (feed_step batch_size s select_recv) k in
      closed_step batch_size s (api.recv s.subscriber.hub.tx s.subscriber.rx).0 next

  -- The batcher as it is spawned, with a queue of this capacity.
  unfoldable pub start_feed : ℕ → EventHub api → Feed
  unfolding new_subscriber
  start_feed capacity_bytes hub = record {
    subscriber = new_subscriber api hub;
    batcher = record {
      queue = new capacity_bytes default_stats;
      buffer = [];
      next_id = 0;
      running = true;
    };
  }
