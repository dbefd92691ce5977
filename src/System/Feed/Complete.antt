-- ===== src/System/Feed/Complete.antt =====
-- huginn/src/main.rs: the batches against the results that the probe loops published.
use huginn_io.Core.Hub.Lists.{Skips, Skips-all}
use huginn_io.Core.Hub.Lossless.{BroadcastLaws, publish_all, published_in, run_hub_lem}
use huginn_io.Core.Hub.{
  Recv, event, lagged, empty, BroadcastApi, new_hub, HubStep, published, receives, on_received,
  hub_step, run_hub,
}
use huginn_io.Core.Platform.{Platform}
use huginn_io.Core.Types.{ProbeResult}
use huginn_io.Influx.Batcher.Delivery.{
  received, closes, push_all, IsChunk, run_batcher-Delivers, run_batcher_cons, handle_full,
  handle_room, enqueue_running,
}
use huginn_io.Influx.Batcher
use huginn_io.Influx.Batcher.{Event, completed, deadline, Batcher, handle, enqueue, run_batcher}
use huginn_io.Prelude.{
  ℕ, ◌+◌, ◌≤◌, ◌<◌, ◌≡◌, refl, sym, ap, subst, ◌∙◌, true, false, List, [], ◌∷◌, ◌++◌, append-nil,
  append_assoc, arith, length, leb, All, concat, Bool-cases, inl, inr,
}
use huginn_io.System.Feed.{
  FeedStep, publishes, select_recv, select_deadline, Feed, handle_recv, feed_step, run_feed,
  start_feed,
}

module _ {p : Platform} where
  pub handle-completed_running :
      (batch_size : ℕ) (b : Batcher p) (r : ProbeResult p)
      → (handle batch_size b (completed r)).running ≡ b.running
  handle-completed_running batch_size b r =
      elim (Bool-cases (leb batch_size (length (b.buffer ++ r ∷ [])))) [
        | inl full ↦
            rw (handle_full batch_size b r full)
              (enqueue_running (record b { buffer = b.buffer ++ r ∷ [] }))
        | inr room ↦ rw (handle_room batch_size b r room) refl
      ]

  pub handle-lagged_running :
      (batch_size : ℕ) (b : Batcher p) (n : ℕ)
      → (handle batch_size b (Batcher.lagged n)).running ≡ b.running
  unfolding handle
  handle-lagged_running batch_size b n = refl

  pub handle-deadline_running :
      (batch_size : ℕ) (b : Batcher p) → (handle batch_size b deadline).running ≡ b.running
  unfolding handle
  handle-deadline_running batch_size b = enqueue_running b

  -- What the hub sees of these steps.
  abbrev pub hub_steps : List (FeedStep p) → List (HubStep (ProbeResult p))
  hub_steps [] = []
  hub_steps (publishes r ∷ steps) = published r ∷ hub_steps steps
  hub_steps (select_recv ∷ steps) = receives ∷ hub_steps steps
  hub_steps (select_deadline ∷ steps) = hub_steps steps

module _ {p : Platform} (api : BroadcastApi (ProbeResult p)) (batch_size : ℕ) where
  -- `s1` is `s` after these events of the batcher, which are not the end.
  pub record Advances (s : Feed api) (es : List (Event p)) (s1 : Feed api) : Type 0 where
    pub moves : run_batcher batch_size s.batcher es ≡ s1.batcher
    pub running : s1.batcher.running ≡ s.batcher.running
    pub given : s1.subscriber.given ≡ s.subscriber.given ++ received es
    pub open_ : closes es ≡ false

  handle_recv-running :
      (b : Batcher p) (got : Recv (ProbeResult p))
      → (handle_recv api batch_size b got).running ≡ b.running
  unfolding handle_recv
  handle_recv-running b (event r) = handle-completed_running batch_size b r
  handle_recv-running b (lagged n) = handle-lagged_running batch_size b n
  handle_recv-running b empty = refl

  recv-Advances :
      (s s2 : Feed api) (got : Recv (ProbeResult p) × api.Receiver) (es : List (Event p))
      → api.recv s.subscriber.hub.tx s.subscriber.rx ≡ got
      → s.batcher.running ≡ true
      → Advances (feed_step api batch_size s select_recv) es s2
      → (es' : List (Event p)) × Advances s es' s2
  unfolding feed_step handle_recv hub_step on_received
  recv-Advances s s2 (event r, rx) es e on a =
      let kept = handle-completed_running batch_size s.batcher r in
      let b : Advances
          (record {
            subscriber = record s.subscriber { rx = rx; given = s.subscriber.given ++ r ∷ [] };
            batcher = handle batch_size s.batcher (completed r);
          })
          es s2 =
        rw e at a in
      (
        completed r ∷ es,
        record {
          moves = run_batcher_cons batch_size s.batcher (completed r) es on ∙ b.moves;
          running = b.running ∙ kept;
          given = b.given ∙ append_assoc s.subscriber.given (r ∷ []) (received es);
          open_ = b.open_;
        },
      )
  recv-Advances s s2 (lagged n, rx) es e on a =
      let b : Advances
          (record {
            subscriber = record s.subscriber { rx = rx; missed = s.subscriber.missed + n };
            batcher = handle batch_size s.batcher (Batcher.lagged n);
          })
          es s2 =
        rw e at a in
      (
        Batcher.lagged n ∷ es,
        record {
          moves = run_batcher_cons batch_size s.batcher (Batcher.lagged n) es on ∙ b.moves;
          running = b.running ∙ handle-lagged_running batch_size s.batcher n;
          given = b.given;
          open_ = b.open_;
        },
      )
  recv-Advances s s2 (empty, rx) es e on a =
      let b : Advances
          (record { subscriber = record s.subscriber { rx = rx }; batcher = s.batcher }) es s2 =
        rw e at a in
      (es, record { moves = b.moves; running = b.running; given = b.given; open_ = b.open_ })

  pub run_feed-Advances :
      (s : Feed api) (steps : List (FeedStep p))
      → s.batcher.running ≡ true
      → (es : List (Event p)) × Advances s es (run_feed api batch_size s steps)
  unfolding run_feed feed_step hub_step
  run_feed-Advances s [] on = (
    [],
    record {
      moves = unfold run_batcher in refl;
      running = refl;
      given = sym (append-nil s.subscriber.given);
      open_ = refl;
    },
  )
  run_feed-Advances s (publishes r ∷ steps) on =
      let (es, a) = run_feed-Advances (feed_step api batch_size s (publishes r)) steps on in
      (es, record { moves = a.moves; running = a.running; given = a.given; open_ = a.open_ })
  run_feed-Advances s (select_recv ∷ steps) on =
      let got = api.recv s.subscriber.hub.tx s.subscriber.rx in
      let ih =
        run_feed-Advances (feed_step api batch_size s select_recv) steps
          (handle_recv-running s.batcher got.0 ∙ on) in
      recv-Advances s _ got ih.0 refl on ih.1
  run_feed-Advances s (select_deadline ∷ steps) on =
      let (es, a) =
        run_feed-Advances (feed_step api batch_size s select_deadline) steps
          (handle-deadline_running batch_size s.batcher ∙ on) in
      (
        deadline ∷ es,
        record {
          moves = run_batcher_cons batch_size s.batcher deadline es on ∙ a.moves;
          running = a.running ∙ handle-deadline_running batch_size s.batcher;
          given = a.given;
          open_ = a.open_;
        },
      )

  pub run_feed-subscriber :
      (s : Feed api) (steps : List (FeedStep p))
      → (run_feed api batch_size s steps).subscriber ≡ run_hub api s.subscriber (hub_steps steps)
  unfolding run_feed feed_step run_hub
  run_feed-subscriber s [] = refl
  run_feed-subscriber s (publishes r ∷ steps) =
      run_feed-subscriber (feed_step api batch_size s (publishes r)) steps
  run_feed-subscriber s (select_recv ∷ steps) =
      run_feed-subscriber (feed_step api batch_size s select_recv) steps
  run_feed-subscriber s (select_deadline ∷ steps) =
      run_feed-subscriber (feed_step api batch_size s select_deadline) steps

pub run_feed-append :
    {p : Platform} (api : BroadcastApi (ProbeResult p)) (batch_size : ℕ)
    (as_ bs : List (FeedStep p)) (s : Feed api)
    → run_feed api batch_size s (as_ ++ bs)
      ≡ run_feed api batch_size (run_feed api batch_size s as_) bs
unfolding run_feed
run_feed-append api batch_size [] bs s = refl
run_feed-append api batch_size (a ∷ as_) bs s = run_feed-append api batch_size as_ bs _

-- The results that the probe loops published.
abbrev pub results_of : {p : Platform} → List (FeedStep p) → List (ProbeResult p)
results_of steps = published_in (hub_steps steps)

-- What is in batches and in the buffer, against what was published, which is what the channel's log
-- has behind `before`: `passed` is what the batcher's receiver has seen of it.
pub record IsComplete {p : Platform} (capacity batch_size : ℕ) (api : BroadcastApi (ProbeResult p))
    (laws : BroadcastLaws api) (before published_ : List (ProbeResult p)) (start end : Feed api)
    : Type 0 where
  pub chunks : List (List (ProbeResult p))
  pub passed : List (ProbeResult p)
  pub pending : List (ProbeResult p)
  pub split : published_ ≡ passed ++ pending
  pub whole : laws.log end.subscriber.hub.tx ≡ before ++ published_
  pub position : laws.seen end.subscriber.rx ≡ length before + length passed
  pub queued : end.batcher.queue ≡ push_all start.batcher.queue start.batcher.next_id chunks
  pub sizes : All (IsChunk batch_size) chunks
  pub in_order : Skips (concat chunks ++ end.batcher.buffer) passed
  pub counted : length (concat chunks ++ end.batcher.buffer) + end.subscriber.missed ≡ length passed
  pub all_there : length published_ ≤ capacity → concat chunks ++ end.batcher.buffer ≡ passed

-- If the broadcast channel does what tokio documents and the batch size is not zero, then for the
-- batcher as it is spawned on a hub, after any publications, receptions and flush deadlines: what
-- was published is what the channel's log has since, and what the batcher is past and what is still
-- to come; the results in its batches and its buffer, in order, are those it is past but for the
-- missed ones, which are counted; the batches were pushed one after another with one to batch_size
-- results each; and none is missing if no more were published than the hub's capacity.
pub run_feed-IsComplete :
    {p : Platform} (api : BroadcastApi (ProbeResult p)) (laws : BroadcastLaws api)
    (capacity capacity_bytes batch_size : ℕ) (earlier : List (ProbeResult p))
    (steps : List (FeedStep p))
    → 0 < batch_size
    → let start = start_feed api capacity_bytes (publish_all api (new_hub api capacity) earlier) in
      IsComplete capacity batch_size api laws
        (laws.log (publish_all api (new_hub api capacity) earlier).tx)
        (results_of steps)
        start
        (run_feed api batch_size start steps)
unfolding start_feed
run_feed-IsComplete api laws capacity capacity_bytes batch_size earlier steps h =
    let start = start_feed api capacity_bytes (publish_all api (new_hub api capacity) earlier) in
    let (es, a) = run_feed-Advances api batch_size start steps refl in
    let d = run_batcher-Delivers batch_size start.batcher es h refl in
    let (f, none_missed) = run_hub_lem api laws capacity earlier (hub_steps steps) in
    let end = run_feed api batch_size start steps in
    let subs = run_feed-subscriber api batch_size start steps in
    let same : concat d.chunks ++ end.batcher.buffer ≡ end.subscriber.given =
      ap (λ b. concat d.chunks ++ b.buffer) (sym a.moves) ∙ d.content ∙ sym a.given in
    let given = same ∙ ap (λ x. x.given) subs in
    let skips : Skips (concat d.chunks ++ end.batcher.buffer) f.passed =
      subst (λ x. Skips x f.passed) (sym given) f.in_order in
    let counted : length (concat d.chunks ++ end.batcher.buffer) + end.subscriber.missed
        ≡ length f.passed =
      omega (arith, ap length given, ap (λ x. x.missed) subs, f.counted) in
    record {
      chunks = d.chunks;
      passed = f.passed;
      pending = f.pending;
      split = f.split;
      whole = ap (λ x. laws.log x.hub.tx) subs ∙ f.whole;
      position = ap (λ x. laws.seen x.rx) subs ∙ f.position;
      queued = ap (λ b. b.queue) (sym a.moves) ∙ (rw a.open_ at d.queued);
      sizes = d.sizes;
      in_order = skips;
      counted = counted;
      all_there = λ few.
          Skips-all _ f.passed skips
            (omega (arith, counted, ap (λ x. x.missed) subs, none_missed few));
    }
