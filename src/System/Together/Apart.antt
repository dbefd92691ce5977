-- ===== src/System/Together/Apart.antt =====
-- huginn/src/scheduler.rs: the probe loops and the batcher side by side, each of them by itself.
use huginn_io.Core.Config.Address.{Parsers}
use huginn_io.Core.Hub.Lossless.{BroadcastLaws, Follows, log_length}
use huginn_io.Core.Hub.{BroadcastApi}
use huginn_io.Core.Platform.{Platform}
use huginn_io.Core.Types.{ProbeResult}
use huginn_io.Prelude.{ℕ, zero, suc, ◌≡◌, refl, sym, ap, subst, ◌∙◌, List, [], ◌∷◌, arith, length}
use huginn_io.System.Feed.Closing.{run_feed-flushes, receptions, receptions-Follows}
use huginn_io.System.Feed.{run_feed}
use huginn_io.System.Together.{
  Loops, Turn, loop_turn, batcher_recv, batcher_deadline, Together, react_at, take_turn, take_turns,
}
use huginn_io.System.{Signal, run_probe_loop}

-- The signals that the first of the loops gets in these turns.
abbrev pub for_first : {p : Platform} → List (Turn p) → List (Signal p)
for_first [] = []
for_first (loop_turn zero a ∷ turns) = a ∷ for_first turns
for_first (loop_turn (suc i) a ∷ turns) = for_first turns
for_first (batcher_recv ∷ turns) = for_first turns
for_first (batcher_deadline ∷ turns) = for_first turns

-- The turns of the others, counted from the second.
abbrev pub for_rest : {p : Platform} → List (Turn p) → List (Turn p)
for_rest [] = []
for_rest (loop_turn zero a ∷ turns) = for_rest turns
for_rest (loop_turn (suc i) a ∷ turns) = loop_turn i a ∷ for_rest turns
for_rest (batcher_recv ∷ turns) = for_rest turns
for_rest (batcher_deadline ∷ turns) = for_rest turns

module _ {p : Platform} (n : Parsers) where
  -- Each loop by itself, with its own signals in their order.
  abbrev pub run_each : Loops p → List (Turn p) → Loops p
  run_each [] turns = []
  run_each ((cfg, s) ∷ loops) turns =
      (cfg, run_probe_loop n cfg s (for_first turns)) ∷ run_each loops (for_rest turns)

  run_each-none : (loops : Loops p) → run_each loops [] ≡ loops
  unfolding run_probe_loop
  run_each-none [] = refl
  run_each-none (l ∷ loops) = ap (◌∷◌ l) (run_each-none loops)

  run_each-recv :
      (loops : Loops p) (turns : List (Turn p))
      → run_each loops (batcher_recv ∷ turns) ≡ run_each loops turns
  run_each-recv [] turns = refl
  run_each-recv (l ∷ loops) turns = refl

  run_each-deadline :
      (loops : Loops p) (turns : List (Turn p))
      → run_each loops (batcher_deadline ∷ turns) ≡ run_each loops turns
  run_each-deadline [] turns = refl
  run_each-deadline (l ∷ loops) turns = refl

  run_each-react_at :
      (api : BroadcastApi (ProbeResult p)) (batch_size : ℕ) (loops : Loops p) (i : ℕ) (a : Signal p)
      (turns : List (Turn p))
      → run_each (react_at n api batch_size loops i a).0 turns
        ≡ run_each loops (loop_turn i a ∷ turns)
  unfolding react_at run_probe_loop
  run_each-react_at api batch_size [] i a turns = refl
  run_each-react_at api batch_size (l ∷ loops) zero a turns = refl
  run_each-react_at api batch_size (l ∷ loops) (suc i) a turns =
      ap (◌∷◌ (l.0, run_probe_loop n l.0 l.1 (for_first turns)))
        (run_each-react_at api batch_size loops i a (for_rest turns))

  -- The loops do not disturb each other.
  pub take_turns-run_each :
      (api : BroadcastApi (ProbeResult p)) (batch_size : ℕ) (s : Together n api batch_size)
      (turns : List (Turn p))
      → (take_turns n api batch_size s turns).loops ≡ run_each s.loops turns
  unfolding take_turns take_turn
  take_turns-run_each api batch_size s [] = sym (run_each-none s.loops)
  take_turns-run_each api batch_size s (loop_turn i a ∷ turns) =
      take_turns-run_each api batch_size (take_turn n api batch_size s (loop_turn i a)) turns
      ∙ run_each-react_at api batch_size s.loops i a turns
  take_turns-run_each api batch_size s (batcher_recv ∷ turns) =
      take_turns-run_each api batch_size (take_turn n api batch_size s batcher_recv) turns
      ∙ sym (run_each-recv s.loops turns)
  take_turns-run_each api batch_size s (batcher_deadline ∷ turns) =
      take_turns-run_each api batch_size (take_turn n api batch_size s batcher_deadline) turns
      ∙ sym (run_each-deadline s.loops turns)

  -- The flush deadline leaves nothing in the buffer.
  pub take_turns-flushes :
      (api : BroadcastApi (ProbeResult p)) (batch_size : ℕ) (s : Together n api batch_size)
      → (take_turns n api batch_size s (batcher_deadline ∷ [])).feed.batcher.buffer ≡ []
  unfolding take_turns take_turn
  take_turns-flushes api batch_size s = run_feed-flushes api batch_size s.feed

-- The batcher's `select!` takes the receiver so many times.
abbrev pub recv_turns : {p : Platform} → ℕ → List (Turn p)
recv_turns zero = []
recv_turns (suc k) = batcher_recv ∷ recv_turns k

take_turns-recv_turns :
    {p : Platform} (n : Parsers) (api : BroadcastApi (ProbeResult p)) (batch_size k : ℕ)
    (s : Together n api batch_size)
    → (take_turns n api batch_size s (recv_turns k)).feed
      ≡ run_feed api batch_size s.feed (receptions k)
unfolding take_turns take_turn run_feed
take_turns-recv_turns n api batch_size zero s = refl
take_turns-recv_turns n api batch_size (suc k) s =
    take_turns-recv_turns n api batch_size k (take_turn n api batch_size s batcher_recv)

-- After as many receptions as the channel has values, the receiver has seen them all.
pub take_turns-catch_up :
    {p : Platform} (n : Parsers) (api : BroadcastApi (ProbeResult p)) (laws : BroadcastLaws api)
    (batch_size : ℕ) (before arrived : List (ProbeResult p)) (s : Together n api batch_size)
    → Follows api laws before arrived s.feed.subscriber
    → let t =
        take_turns n api batch_size s (recv_turns (length (laws.log s.feed.subscriber.hub.tx))) in
      laws.seen t.feed.subscriber.rx ≡ length (laws.log t.feed.subscriber.hub.tx)
take_turns-catch_up n api laws batch_size before arrived s f =
    let k = length (laws.log s.feed.subscriber.hub.tx) in
    let (g, none_left) =
      receptions-Follows api laws batch_size before arrived k s.feed f
        (omega (arith, log_length api laws before arrived s.feed.subscriber f)) in
    let t = run_feed api batch_size s.feed (receptions k) in
    subst (λ x. laws.seen x.subscriber.rx ≡ length (laws.log x.subscriber.hub.tx))
      (sym (take_turns-recv_turns n api batch_size k s))
      (omega (arith, none_left, g.position, log_length api laws before arrived t.subscriber g))
