-- ===== src/System/Together/Ordered.antt =====
-- huginn/src/scheduler.rs and huginn/src/main.rs: what the loops publish, against what the hub
-- carries and the batcher has.
use huginn_io.Core.Config.Address.{Parsers}
use huginn_io.Core.Config.Validate.Probes.{Distinct}
use huginn_io.Core.Config.{ProbeConfig, show_probe_type}
use huginn_io.Core.Hub.Lossless.{BroadcastLaws, Follows}
use huginn_io.Core.Hub.{BroadcastApi, new_hub}
use huginn_io.Core.Platform.{Platform}
use huginn_io.Core.Types.{ProbeResult}
use huginn_io.Prelude.{
  ℕ, zero, suc, ◌≤◌, ◌<◌, ◌≡◌, ◌≢◌, refl, sym, ap, subst, ◌∙◌, List, [], ◌∷◌, ◌++◌, append-nil,
  append_assoc, arith, map, drop, length, All, concat, Text, text_eq, text_eq_iff, if◌then◌else◌,
  Bool-cases, inl, inr,
}
use huginn_io.Probes.Registry.Contract.{IsAbout}
use huginn_io.System.Feed.Closing.{run_feed-Follows}
use huginn_io.System.Feed.Complete.{IsComplete, results_of, run_feed-append, run_feed-IsComplete}
use huginn_io.System.Feed.{FeedStep, publishes, select_recv, select_deadline, run_feed}
use huginn_io.System.Loop.{react-Publishes}
use huginn_io.System.Together.Apart.{
  run_each, recv_turns, take_turns-run_each, take_turns-flushes, take_turns-catch_up,
}
use huginn_io.System.Together.{
  Loops, Turn, loop_turn, batcher_recv, batcher_deadline, Together, react_at, publish_new,
  take_turn, take_turns, start_together,
}
use huginn_io.System.{Signal, react, start_loops}

module _ {p : Platform} where
  -- The results of one name.
  abbrev pub by_name : Text → List (ProbeResult p) → List (ProbeResult p)
  by_name name [] = []
  by_name name (r ∷ rs) =
      let rest = by_name name rs in if text_eq r.probe_name name then r ∷ rest else rest

  by_name-append :
      (name : Text) (rs ss : List (ProbeResult p))
      → by_name name (rs ++ ss) ≡ by_name name rs ++ by_name name ss
  by_name-append name [] ss = refl
  by_name-append name (r ∷ rs) ss = ground (arith, by_name-append name rs ss)

  -- All results have this name.
  abbrev Named : Text → List (ProbeResult p) → Type 0
  Named name = All (λ r. r.probe_name ≡ name)

  by_name_own : (name : Text) (rs : List (ProbeResult p)) → Named name rs → by_name name rs ≡ rs
  by_name_own name [] h = refl
  by_name_own name (r ∷ rs) h =
      ground (arith, (text_eq_iff r.probe_name name).1 h.0, by_name_own name rs h.1)

  by_name_other :
      (name other : Text) (rs : List (ProbeResult p))
      → other ≢ name
      → Named other rs
      → by_name name rs ≡ []
  by_name_other name other [] h k = refl
  by_name_other name other (r ∷ rs) h k = elim (Bool-cases (text_eq r.probe_name name)) [
    | inl same ↦ absurd (h (sym k.0 ∙ (text_eq_iff r.probe_name name).0 same))
    | inr differs ↦ rw differs (by_name_other name other rs h k.1)
  ]

  -- Each loop's own results are those of its name among these.
  abbrev pub Carried : List (ProbeResult p) → Loops p → Type 0
  Carried rs = All (λ l. by_name l.0.name rs ≡ l.1.published)

  abbrev pub configs : Loops p → List (ProbeConfig p)
  configs [] = []
  configs (l ∷ loops) = l.0 ∷ configs loops

All-name :
    {p : Platform} (cfg : ProbeConfig p) (rs : List (ProbeResult p))
    → All (IsAbout cfg (show_probe_type cfg.probe_type)) rs
    → Named cfg.name rs
All-name cfg [] h = tt
All-name cfg (r ∷ rs) h = (h.0.name, All-name cfg rs h.1)

drop_appended : {A : Type 0} (xs ys : List A) → drop (length xs) (xs ++ ys) ≡ ys
drop_appended [] ys = refl
drop_appended (x ∷ xs) ys = drop_appended xs ys

module _ {p : Platform} (n : Parsers) (api : BroadcastApi (ProbeResult p)) (batch_size : ℕ) where
  -- Other loops do not see results of this name.
  Carried-other :
      (rs new : List (ProbeResult p)) (cfg : ProbeConfig p) (loops : Loops p)
      → All (λ d. cfg.name ≢ d.name) (configs loops)
      → Named cfg.name new
      → Carried rs loops
      → Carried (rs ++ new) loops
  Carried-other rs new cfg [] d k c = tt
  Carried-other rs new cfg (l ∷ loops) d k c = (
    by_name-append l.0.name rs new
        ∙ ap (◌++◌ (by_name l.0.name rs)) (by_name_other l.0.name cfg.name new d.0 k)
        ∙ append-nil _
        ∙ c.0,
    Carried-other rs new cfg loops d.1 k c.1,
  )

  -- What one reaction makes of the loops and adds to the results.
  record Reacts (rs : List (ProbeResult p)) (loops loops' : Loops p) (new : List (ProbeResult p))
      : Type 0 where
    carried : Carried (rs ++ new) loops'
    same : configs loops' ≡ configs loops
    apart :
        (name : Text)
        → All (λ (d : ProbeConfig p). name ≢ d.name) (configs loops)
        → by_name name new ≡ []

  react_at-Reacts :
      (rs : List (ProbeResult p)) (loops : Loops p) (i : ℕ) (a : Signal p)
      → Distinct n (configs loops)
      → Carried rs loops
      → Reacts rs loops
          (react_at n api batch_size loops i a).0
          (react_at n api batch_size loops i a).1
  unfolding react_at
  react_at-Reacts rs [] i a d c = record { carried = tt; same = refl; apart = λ name h. refl }
  react_at-Reacts rs ((cfg, s) ∷ loops) zero a d c =
      let s' = react n cfg s s.stage a in
      let r = react-Publishes n cfg s s.stage a refl in
      let new_eq : drop (length s.published) s'.published ≡ r.new =
        ap (drop (length s.published)) r.appended ∙ drop_appended s.published r.new in
      let named = All-name cfg r.new r.about in
      rw new_eq (record {
        carried = (
          by_name-append cfg.name rs r.new
              ∙ ap (λ x. x ++ by_name cfg.name r.new) c.0
              ∙ ap (◌++◌ s.published) (by_name_own cfg.name r.new named)
              ∙ sym r.appended,
          Carried-other rs r.new cfg loops d.0 named c.1,
        );
        same = refl;
        apart = λ name h. by_name_other name cfg.name r.new (λ e. h.0 (sym e)) named;
      })
  react_at-Reacts rs (l ∷ loops) (suc i) a d c =
      let r = react_at-Reacts rs loops i a d.1 c.1 in
      record {
        carried = (
          by_name-append l.0.name rs _
              ∙ ap (◌++◌ (by_name l.0.name rs)) (r.apart l.0.name d.0)
              ∙ append-nil _
              ∙ c.0,
          r.carried,
        );
        same = ap (◌∷◌ l.0) r.same;
        apart = λ name h. r.apart name h.1;
      }

results_of-append :
    {p : Platform} (as_ bs : List (FeedStep p))
    → results_of (as_ ++ bs) ≡ results_of as_ ++ results_of bs
results_of-append [] bs = refl
results_of-append (publishes r ∷ as_) bs = ap (◌∷◌ r) (results_of-append as_ bs)
results_of-append (select_recv ∷ as_) bs = results_of-append as_ bs
results_of-append (select_deadline ∷ as_) bs = results_of-append as_ bs

results_of-publishes :
    {p : Platform} (rs : List (ProbeResult p)) → results_of (map publishes rs) ≡ rs
results_of-publishes [] = refl
results_of-publishes (r ∷ rs) = ap (◌∷◌ r) (results_of-publishes rs)

module _ {p : Platform} (n : Parsers) (api : BroadcastApi (ProbeResult p)) (batch_size : ℕ) where
  -- What turns make of a state in which the hub has carried `rs`.
  record Turned (rs : List (ProbeResult p)) (s s' : Together n api batch_size) : Type 0 where
    steps : List (FeedStep p)
    fed : s'.feed ≡ run_feed api batch_size s.feed steps
    carried : Carried (rs ++ results_of steps) s'.loops
    same : configs s'.loops ≡ configs s.loops

  take_turn-Turned :
      (rs : List (ProbeResult p)) (s : Together n api batch_size) (turn : Turn p)
      → Distinct n (configs s.loops)
      → Carried rs s.loops
      → Turned rs s (take_turn n api batch_size s turn)
  unfolding take_turn publish_new
  take_turn-Turned rs s (loop_turn i a) d c =
      let r = react_at-Reacts n api batch_size rs s.loops i a d c in
      let new = (react_at n api batch_size s.loops i a).1 in
      record {
        steps = map publishes new;
        fed = refl;
        carried =
            subst (λ x. Carried (rs ++ x) (react_at n api batch_size s.loops i a).0)
              (sym (results_of-publishes new)) r.carried;
        same = r.same;
      }
  take_turn-Turned rs s batcher_recv d c = record {
    steps = select_recv ∷ [];
    fed = refl;
    carried = subst (λ x. Carried x s.loops) (sym (append-nil rs)) c;
    same = refl;
  }
  take_turn-Turned rs s batcher_deadline d c = record {
    steps = select_deadline ∷ [];
    fed = refl;
    carried = subst (λ x. Carried x s.loops) (sym (append-nil rs)) c;
    same = refl;
  }

  take_turns-Turned :
      (rs : List (ProbeResult p)) (s : Together n api batch_size) (turns : List (Turn p))
      → Distinct n (configs s.loops)
      → Carried rs s.loops
      → Turned rs s (take_turns n api batch_size s turns)
  unfolding take_turns run_feed
  take_turns-Turned rs s [] d c = record {
    steps = [];
    fed = refl;
    carried = subst (λ x. Carried x s.loops) (sym (append-nil rs)) c;
    same = refl;
  }
  take_turns-Turned rs s (turn ∷ turns) d c =
      let t = take_turn-Turned rs s turn d c in
      let mid = take_turn n api batch_size s turn in
      let u =
        take_turns-Turned (rs ++ results_of t.steps) mid turns (subst (Distinct n) (sym t.same) d)
          t.carried in
      let end = take_turns n api batch_size mid turns in
      record {
        steps = t.steps ++ u.steps;
        fed =
            u.fed
            ∙ ap (λ f. run_feed api batch_size f u.steps) t.fed
            ∙ sym (run_feed-append api batch_size t.steps u.steps s.feed);
        carried =
            subst (λ x. Carried x end.loops)
              (append_assoc rs (results_of t.steps) (results_of u.steps)
                ∙ ap (◌++◌ rs) (sym (results_of-append t.steps u.steps)))
              u.carried;
        same = u.same ∙ t.same;
      }

  start_loops-Carried : (probes : List (ProbeConfig p)) → Carried [] (start_loops probes)
  unfolding start_loops
  start_loops-Carried [] = tt
  start_loops-Carried (c ∷ probes) = (refl, start_loops-Carried probes)

  configs-start_loops : (probes : List (ProbeConfig p)) → configs (start_loops probes) ≡ probes
  unfolding start_loops
  configs-start_loops [] = refl
  configs-start_loops (c ∷ probes) = ap (◌∷◌ c) (configs-start_loops probes)

-- The loops' results, the hub's, and the batcher's: `carried_by_hub` is what the hub's channel has
-- carried, and what is pending is what the batcher's receiver has not seen of it.
pub record IsOrdered {p : Platform} (n : Parsers) (api : BroadcastApi (ProbeResult p))
    (laws : BroadcastLaws api) (capacity batch_size : ℕ) (probes : List (ProbeConfig p))
    (turns : List (Turn p)) (start end : Together n api batch_size) : Type 0 where
  pub same : configs end.loops ≡ probes
  pub loops_run : end.loops ≡ run_each n start.loops turns
  pub carried_by_hub : List (ProbeResult p)
  pub log : laws.log end.feed.subscriber.hub.tx ≡ carried_by_hub
  pub own : Carried carried_by_hub end.loops
  pub complete : IsComplete capacity batch_size api laws [] carried_by_hub start.feed end.feed
  pub delivered :
      length carried_by_hub ≤ capacity
      → Carried (concat complete.chunks ++ end.feed.batcher.buffer ++ complete.pending) end.loops
  pub caught_up :
      let k = length (laws.log end.feed.subscriber.hub.tx) in
      let t = take_turns n api batch_size end (recv_turns k) in
      laws.seen t.feed.subscriber.rx ≡ length (laws.log t.feed.subscriber.hub.tx)
  pub flushed : (take_turns n api batch_size end (batcher_deadline ∷ [])).feed.batcher.buffer ≡ []

-- If the broadcast channel does what tokio documents, the batch size is not zero and the names of
-- the probes are distinct, then for the probe loops and the batcher as they are started, after any
-- turns of theirs in any order: each loop is where its own turns alone take it; what the hub's
-- channel carried, split by the names, is what each loop published, in its order and nothing else;
-- the batches and the buffer hold, in order, what the batcher's receiver has seen of it but for the
-- counted misses of a lag; as long as the hub's capacity is not exceeded, each loop's results are
-- exactly those of its name in the batches, the buffer and what the receiver has not seen; and as
-- many receptions as the channel carried values leave nothing that it has not seen, and the flush
-- deadline leaves nothing in the buffer.
pub take_turns-IsOrdered :
    {p : Platform} (n : Parsers) (api : BroadcastApi (ProbeResult p)) (laws : BroadcastLaws api)
    (capacity capacity_bytes batch_size : ℕ) (probes : List (ProbeConfig p)) (turns : List (Turn p))
    → 0 < batch_size
    → Distinct n probes
    → let start = start_together n api batch_size probes capacity_bytes (new_hub api capacity) in
      IsOrdered n api laws capacity batch_size probes turns start
        (take_turns n api batch_size start turns)
unfolding start_together
take_turns-IsOrdered n api laws capacity capacity_bytes batch_size probes turns h d =
    let hub = new_hub api capacity in
    let start = start_together n api batch_size probes capacity_bytes hub in
    let same = configs-start_loops n api batch_size probes in
    let t =
      take_turns-Turned n api batch_size [] start turns (subst (Distinct n) (sym same) d)
        (start_loops-Carried n api batch_size probes) in
    let end = take_turns n api batch_size start turns in
    let empty_ : laws.log hub.tx ≡ [] = unfold new_hub in (laws.created capacity).0 in
    let c =
      subst
        (λ b. IsComplete capacity batch_size api laws b (results_of t.steps) start.feed end.feed)
        empty_
        (subst
          (IsComplete capacity batch_size api laws (laws.log hub.tx) (results_of t.steps)
            start.feed)
          (sym t.fed)
          (run_feed-IsComplete api laws capacity capacity_bytes batch_size [] t.steps h)) in
    let f =
      subst (λ x. Follows api laws (laws.log hub.tx) (results_of t.steps) x.subscriber) (sym t.fed)
        (run_feed-Follows api laws batch_size capacity_bytes hub t.steps) in
    record {
      same = t.same ∙ same;
      loops_run = take_turns-run_each n api batch_size start turns;
      carried_by_hub = results_of t.steps;
      log = c.whole;
      own = t.carried;
      complete = c;
      delivered = λ few.
          subst (λ x. Carried x end.loops)
            (c.split ∙ ap (λ x. x ++ c.pending) (sym (c.all_there few))) t.carried;
      caught_up =
          take_turns-catch_up n api laws batch_size (laws.log hub.tx) (results_of t.steps) end f;
      flushed = take_turns-flushes n api batch_size end;
    }
