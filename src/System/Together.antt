-- ===== src/System/Together.antt =====
-- huginn/src/scheduler.rs and huginn/src/main.rs: the probe loops that `scheduler::run` spawns,
-- side by side, with the hub that they share and the batcher that subscribed to it. Which of them
-- makes a step is an input.
pub mod Apart
pub mod Ordered
mod Tests
use huginn_io.Core.Config.Address.{Parsers}
use huginn_io.Core.Config.{ProbeConfig}
use huginn_io.Core.Hub.{BroadcastApi, EventHub}
use huginn_io.Core.Platform.{Platform}
use huginn_io.Core.Types.{ProbeResult}
use huginn_io.Prelude.{ℕ, zero, suc, List, [], ◌∷◌, map, drop, length}
use huginn_io.System.Feed.{publishes, select_recv, select_deadline, Feed, run_feed, start_feed}
use huginn_io.System.{Signal, ProbeLoop, react, start_loops}

abbrev pub Loops : Platform → Type 0
Loops p = List (ProbeConfig p × ProbeLoop p)

-- The `select!` of the loop of this index, or the batcher's.
pub data Turn (p : Platform) : Type 0 where
  loop_turn : ℕ → Signal p → Turn p
  batcher_recv : Turn p
  batcher_deadline : Turn p

module _ {p : Platform} (n : Parsers) (api : BroadcastApi (ProbeResult p)) (batch_size : ℕ) where
  pub record Together : Type 0 where
    pub loops : Loops p
    pub feed : Feed api

  -- The loops after one of them reacted, and what it published.
  react_at : Loops p → ℕ → Signal p → Loops p × List (ProbeResult p)
  react_at [] i a = ([], [])
  react_at ((cfg, s) ∷ loops) zero a =
      let s' = react n cfg s s.stage a in
      ((cfg, s') ∷ loops, drop (length s.published) s'.published)
  react_at (l ∷ loops) (suc i) a = let rest = react_at loops i a in (l ∷ rest.0, rest.1)

  -- `hub.publish` of each.
  publish_new : Feed api → List (ProbeResult p) → Feed api
  publish_new feed new = run_feed api batch_size feed (map publishes new)

  take_turn : Together → Turn p → Together
  unfolding react_at publish_new
  take_turn s (loop_turn i a) =
      let reacted = react_at s.loops i a in
      record { loops = reacted.0; feed = publish_new s.feed reacted.1 }
  take_turn s batcher_recv = record s { feed = run_feed api batch_size s.feed (select_recv ∷ []) }
  take_turn s batcher_deadline = record s {
    feed = run_feed api batch_size s.feed (select_deadline ∷ []);
  }

  unfoldable pub take_turns : Together → List (Turn p) → Together
  unfolding take_turn
  take_turns s [] = s
  take_turns s (turn ∷ turns) = take_turns (take_turn s turn) turns

  -- The batcher has subscribed before the first loop runs.
  unfoldable pub start_together : List (ProbeConfig p) → ℕ → EventHub api → Together
  unfolding start_loops
  start_together probes capacity_bytes hub = record {
    loops = start_loops probes;
    feed = start_feed api capacity_bytes hub;
  }
