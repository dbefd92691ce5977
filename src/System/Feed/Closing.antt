-- ===== src/System/Feed/Closing.antt =====
-- huginn/src/main.rs and crates/huginn-influx/src/writer.rs: what the batcher has queued when it
-- has seen the end of the hub.
use huginn_io.Core.Hub.Drained.{Given, receive_less, receive_down}
use huginn_io.Core.Hub.Lists.{Skips}
use huginn_io.Core.Hub.Lossless.{
  BroadcastLaws, Follows, publish_all, published_in, run_hub-Follows, new_subscriber-Follows,
  run_hub_kept, publish_all_kept,
}
use huginn_io.Core.Hub.{Recv, event, lagged, empty, BroadcastApi, EventHub, new_hub}
use huginn_io.Core.Platform.{Platform}
use huginn_io.Core.Types.{ProbeResult}
use huginn_io.Influx.Batcher.Delivery.{
  enqueue_buffer, received, closes, push_all, IsChunk, run_batcher-Delivers, run_batcher_cons,
}
use huginn_io.Influx.Batcher
use huginn_io.Influx.Batcher.{Event, completed, hub_closed, deadline, Batcher, handle, run_batcher}
use huginn_io.Influx.Queue.{close}
use huginn_io.Prelude.{
  ℕ, zero, suc, ◌+◌, ◌≤◌, ◌<◌, ◌≡◌, inl, inr, refl, sym, ap, subst, ◌∙◌, true, false, List, [], ◌∷◌,
  ◌++◌, append-nil, arith, length, length-append, All, concat,
}
use huginn_io.System.Feed.Complete.{
  run_feed-Advances, run_feed-subscriber, hub_steps, results_of, run_feed-append,
  handle-completed_running, handle-lagged_running, handle-deadline_running,
}
use huginn_io.System.Feed.{
  FeedStep, select_recv, select_deadline, Feed, feed_step, run_feed, start_feed, closed_step,
  close_feed,
}

module _ {p : Platform} where
  abbrev pub receptions : ℕ → List (FeedStep p)
  receptions zero = []
  receptions (suc k) = select_recv ∷ receptions k

  hub_steps-receptions : (k : ℕ) → published_in (hub_steps (receptions k)) ≡ []
  hub_steps-receptions zero = refl
  hub_steps-receptions (suc k) = hub_steps-receptions k

  -- The batcher handles the end after these events.
  run_batcher-hub_closed :
      (batch_size : ℕ) (b : Batcher p) (es : List (Event p))
      → closes es ≡ false
      → b.running ≡ true
      → run_batcher batch_size b (es ++ hub_closed ∷ [])
        ≡ handle batch_size (run_batcher batch_size b es) hub_closed
  run_batcher-hub_closed batch_size b [] h on =
      run_batcher_cons batch_size b hub_closed [] on ∙ unfold run_batcher in refl
  run_batcher-hub_closed batch_size b (completed r ∷ es) h on =
      let ih =
        run_batcher-hub_closed batch_size (handle batch_size b (completed r)) es h
          (handle-completed_running batch_size b r ∙ on) in
      run_batcher_cons batch_size b (completed r) (es ++ hub_closed ∷ []) on
      ∙ ih
      ∙ ap (λ x. handle batch_size x hub_closed)
          (sym (run_batcher_cons batch_size b (completed r) es on))
  run_batcher-hub_closed batch_size b (Batcher.lagged n ∷ es) h on =
      let ih =
        run_batcher-hub_closed batch_size (handle batch_size b (Batcher.lagged n)) es h
          (handle-lagged_running batch_size b n ∙ on) in
      run_batcher_cons batch_size b (Batcher.lagged n) (es ++ hub_closed ∷ []) on
      ∙ ih
      ∙ ap (λ x. handle batch_size x hub_closed)
          (sym (run_batcher_cons batch_size b (Batcher.lagged n) es on))
  run_batcher-hub_closed batch_size b (deadline ∷ es) h on =
      let ih =
        run_batcher-hub_closed batch_size (handle batch_size b deadline) es h
          (handle-deadline_running batch_size b ∙ on) in
      run_batcher_cons batch_size b deadline (es ++ hub_closed ∷ []) on
      ∙ ih
      ∙ ap (λ x. handle batch_size x hub_closed)
          (sym (run_batcher_cons batch_size b deadline es on))
  run_batcher-hub_closed batch_size b (hub_closed ∷ es) h on = cc

  received-hub_closed : (es : List (Event p)) → received (es ++ hub_closed ∷ []) ≡ received es
  received-hub_closed [] = refl
  received-hub_closed (completed r ∷ es) = ap (◌∷◌ r) (received-hub_closed es)
  received-hub_closed (Batcher.lagged n ∷ es) = received-hub_closed es
  received-hub_closed (deadline ∷ es) = received-hub_closed es
  received-hub_closed (hub_closed ∷ es) = refl

  closes-hub_closed : (es : List (Event p)) → closes (es ++ hub_closed ∷ []) ≡ true
  closes-hub_closed [] = refl
  closes-hub_closed (completed r ∷ es) = closes-hub_closed es
  closes-hub_closed (Batcher.lagged n ∷ es) = closes-hub_closed es
  closes-hub_closed (deadline ∷ es) = closes-hub_closed es
  closes-hub_closed (hub_closed ∷ es) = refl

module _ {p : Platform} (api : BroadcastApi (ProbeResult p)) (laws : BroadcastLaws api)
    (batch_size : ℕ) where
  closed_step-Given :
      (s next : Feed api) (got : Recv (ProbeResult p))
      → Given got
      → closed_step api batch_size s got next ≡ next
  unfolding closed_step
  closed_step-Given s next empty g = absurd g
  closed_step-Given s next (event r) g = refl
  closed_step-Given s next (lagged n) g = refl

  -- The receptions up to the end, and the end.
  record Drains (before arrived : List (ProbeResult p)) (s : Feed api) (k : ℕ) : Type 0 where
    count : ℕ
    last :
        let t = run_feed api batch_size s (receptions count) in
        close_feed api batch_size s k
        ≡ (record t { batcher = handle batch_size t.batcher hub_closed })
    follows :
        Follows api laws before arrived (run_feed api batch_size s (receptions count)).subscriber
    none_left : length follows.pending ≡ 0

  close_feed-Drains :
      (before arrived : List (ProbeResult p)) (k : ℕ) (s : Feed api)
      (f : Follows api laws before arrived s.subscriber)
      → length f.pending < k
      → Drains before arrived s k
  unfolding close_feed closed_step run_feed feed_step
  close_feed-Drains before arrived zero s f h = absurd (omega arith)
  close_feed-Drains before arrived (suc k) s f h =
      elim (receive_less api laws before arrived s.subscriber f) [
        | inl (none, e) ↦ record { count = 0; last = rw e refl; follows = f; none_left = none }
        | inr (given, (f', less)) ↦
            let s1 = feed_step api batch_size s select_recv in
            let d = close_feed-Drains before arrived k s1 f' (omega (arith, less)) in
            record {
              count = suc d.count;
              last = closed_step-Given s _ _ given ∙ d.last;
              follows = d.follows;
              none_left = d.none_left;
            }
      ]

-- The flush deadline leaves nothing in the buffer.
pub run_feed-flushes :
    {p : Platform} (api : BroadcastApi (ProbeResult p)) (batch_size : ℕ) (s : Feed api)
    → (run_feed api batch_size s (select_deadline ∷ [])).batcher.buffer ≡ []
unfolding run_feed feed_step handle
run_feed-flushes api batch_size s = enqueue_buffer s.batcher

-- As many receptions as there is to receive leave nothing.
pub receptions-Follows :
    {p : Platform} (api : BroadcastApi (ProbeResult p)) (laws : BroadcastLaws api) (batch_size : ℕ)
    (before arrived : List (ProbeResult p)) (k : ℕ) (s : Feed api)
    (f : Follows api laws before arrived s.subscriber)
    → length f.pending ≤ k
    → (g : Follows api laws before arrived (run_feed api batch_size s (receptions k)).subscriber)
      × (length g.pending ≡ 0)
unfolding run_feed feed_step
receptions-Follows api laws batch_size before arrived zero s f h = (f, omega arith)
receptions-Follows api laws batch_size before arrived (suc k) s f h =
    let (f', down) = receive_down api laws before arrived s.subscriber f in
    receptions-Follows api laws batch_size before arrived k (feed_step api batch_size s select_recv)
      f' (omega (arith, down))

-- The batcher's receiver follows what is published.
pub run_feed-Follows :
    {p : Platform} (api : BroadcastApi (ProbeResult p)) (laws : BroadcastLaws api)
    (batch_size capacity_bytes : ℕ) (hub : EventHub api) (steps : List (FeedStep p))
    → Follows api laws
        (laws.log hub.tx)
        (results_of steps)
        (run_feed api batch_size (start_feed api capacity_bytes hub) steps).subscriber
unfolding start_feed
run_feed-Follows api laws batch_size capacity_bytes hub steps =
    let start = start_feed api capacity_bytes hub in
    subst (Follows api laws (laws.log hub.tx) (results_of steps))
      (sym (run_feed-subscriber api batch_size start steps))
      (run_hub-Follows api laws (laws.log hub.tx) [] start.subscriber (hub_steps steps)
        (new_subscriber-Follows api laws hub))

no_length : {A : Type 0} (xs : List A) → length xs ≡ 0 → xs ≡ []
no_length [] h = refl
no_length (x ∷ xs) h = absurd (omega (arith, h))

-- What the batcher has queued at its end, against what was published.
pub record IsFlushed {p : Platform} (capacity batch_size : ℕ) (api : BroadcastApi (ProbeResult p))
    (published_ : List (ProbeResult p)) (start end : Feed api) : Type 0 where
  pub chunks : List (List (ProbeResult p))
  pub queued : end.batcher.queue ≡ close (push_all start.batcher.queue start.batcher.next_id chunks)
  pub sizes : All (IsChunk batch_size) chunks
  pub unbuffered : end.batcher.buffer ≡ []
  pub in_order : Skips (concat chunks) published_
  pub counted : length (concat chunks) + end.subscriber.missed ≡ length published_
  pub all_there : length published_ ≤ capacity → concat chunks ≡ published_

module _ {p : Platform} (api : BroadcastApi (ProbeResult p)) (laws : BroadcastLaws api)
    (capacity capacity_bytes batch_size : ℕ) (earlier : List (ProbeResult p)) where
  abbrev fresh_feed : Feed api
  fresh_feed = start_feed api capacity_bytes (publish_all api (new_hub api capacity) earlier)

  end_of : Feed api → Feed api
  end_of t = record t { batcher = handle batch_size t.batcher hub_closed }

  hub_closed-IsFlushed :
      (steps : List (FeedStep p)) (arrived : List (ProbeResult p))
      → let t = run_feed api batch_size fresh_feed steps in
        (f : Follows api laws
          (laws.log (publish_all api (new_hub api capacity) earlier).tx)
          arrived
          t.subscriber)
        → length f.pending ≡ 0
        → 0 < batch_size
        → IsFlushed capacity batch_size api arrived fresh_feed (end_of t)
  unfolding end_of start_feed
  hub_closed-IsFlushed steps arrived f none h =
      let hub = publish_all api (new_hub api capacity) earlier in
      let t = run_feed api batch_size fresh_feed steps in
      let (es, a) = run_feed-Advances api batch_size fresh_feed steps refl in
      let all = es ++ hub_closed ∷ [] in
      let d = run_batcher-Delivers batch_size fresh_feed.batcher all h refl in
      let ended : run_batcher batch_size fresh_feed.batcher all
          ≡ handle batch_size t.batcher hub_closed =
        run_batcher-hub_closed batch_size fresh_feed.batcher es a.open_ refl
        ∙ ap (λ b. handle batch_size b hub_closed) a.moves in
      let empty_ = d.emptied (closes-hub_closed es) in
      let content : concat d.chunks ≡ t.subscriber.given =
        sym (append-nil (concat d.chunks))
        ∙ ap (◌++◌ (concat d.chunks)) (sym empty_)
        ∙ d.content
        ∙ received-hub_closed es
        ∙ sym a.given in
      let whole : f.passed ≡ arrived =
        sym (f.split ∙ ap (◌++◌ f.passed) (no_length f.pending none) ∙ append-nil f.passed) in
      let kept_ : laws.kept t.subscriber.hub.tx ≡ laws.kept (new_hub api capacity).tx =
        ap (λ x. laws.kept x.hub.tx) (run_feed-subscriber api batch_size fresh_feed steps)
        ∙ run_hub_kept api laws fresh_feed.subscriber (hub_steps steps)
        ∙ publish_all_kept api laws (new_hub api capacity) earlier in
      record {
        chunks = d.chunks;
        queued = ap (λ b. b.queue) (sym ended) ∙ (rw (closes-hub_closed es) at d.queued);
        sizes = d.sizes;
        unbuffered = ap (λ b. b.buffer) (sym ended) ∙ empty_;
        in_order =
            subst (Skips (concat d.chunks)) whole
              (subst (λ x. Skips x f.passed) (sym content) f.in_order);
        counted = omega (arith, ap length content, f.counted, ap length whole);
        all_there = λ few.
            content
            ∙ f.lossless (unfold new_hub in omega (arith, few, kept_, (laws.created capacity).1))
            ∙ whole;
      }

-- If the broadcast channel does what tokio documents and the batch size is not zero, then for the
-- batcher as it is spawned on a hub, after any publications, receptions and flush deadlines, once
-- the last sender of the hub is dropped, with more receptions than there were publications: the
-- queue is closed, nothing is buffered, and the batches, of one to batch_size results each, hold in
-- order what was published but for the missed results, which are counted, and all of it if no more
-- was published than the hub's capacity.
pub close_feed-IsFlushed :
    {p : Platform} (api : BroadcastApi (ProbeResult p)) (laws : BroadcastLaws api)
    (capacity capacity_bytes batch_size : ℕ) (earlier : List (ProbeResult p))
    (steps : List (FeedStep p)) (k : ℕ)
    → 0 < batch_size
    → length (results_of steps) < k
    → let start = start_feed api capacity_bytes (publish_all api (new_hub api capacity) earlier) in
      IsFlushed capacity batch_size api
        (results_of steps)
        start
        (close_feed api batch_size (run_feed api batch_size start steps) k)
unfolding start_feed end_of
close_feed-IsFlushed api laws capacity capacity_bytes batch_size earlier steps k h enough =
    let hub = publish_all api (new_hub api capacity) earlier in
    let before = laws.log hub.tx in
    let start = start_feed api capacity_bytes hub in
    let s = run_feed api batch_size start steps in
    let f = run_feed-Follows api laws batch_size capacity_bytes hub steps in
    let d =
      close_feed-Drains api laws batch_size before (results_of steps) k s f
        (omega (arith, enough, ap length f.split, length-append f.passed f.pending)) in
    let same = sym (run_feed-append api batch_size steps (receptions d.count) start) in
    let g =
      subst
        (λ t.
          (g : Follows api laws before (results_of steps) t.subscriber) × (length g.pending ≡ 0))
        same (d.follows, d.none_left) in
    subst (IsFlushed capacity batch_size api (results_of steps) start)
      (sym (d.last ∙ ap (end_of api laws capacity capacity_bytes batch_size earlier) same))
      (hub_closed-IsFlushed api laws capacity capacity_bytes batch_size earlier
        (steps ++ receptions d.count) (results_of steps) g.0 g.1 h)
