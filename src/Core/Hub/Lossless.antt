-- ===== src/Core/Hub/Lossless.antt =====
-- crates/huginn-core/src/event.rs: what a subscriber is given, against what was published.
use huginn_io.Core.Hub.Lists.{Skips, Skips-append, Skips-both, drop-append}
use huginn_io.Core.Hub.{
  Recv, event, lagged, empty, BroadcastApi, EventHub, new_hub, publish, subscribe, HubStep,
  published, receives, Subscriber, new_subscriber, on_received, hub_step, run_hub,
}
use huginn_io.Prelude.{
  ℕ, suc, ◌+◌, ◌-◌, ◌≤◌, ◌<◌, ◌≡◌, inl, inr, refl, sym, ap, subst, ◌∙◌, List, [], ◌∷◌, ◌++◌,
  append-nil, append_assoc, arith, length, length-append, length-take, take, drop, take-append-drop,
  ltb, Bool-cases,
}

-- What tokio documents: a channel keeps at least as many values as it was created for; a receiver
-- that has seen every value waits, one that lacks no more than the channel keeps is given the next
-- value, and one that lacks more is told how many it missed and goes on with the oldest that is
-- kept.
pub record BroadcastLaws {Event : Type 0} (api : BroadcastApi Event) : Type 0 where
  pub log : api.Channel → List Event
  pub kept : api.Channel → ℕ
  pub seen : api.Receiver → ℕ
  pub created : (n : ℕ) → (log (api.channel n) ≡ []) × (n ≤ kept (api.channel n))
  pub logged :
      (c : api.Channel) (e : Event)
      → (log (api.send c e) ≡ log c ++ e ∷ []) × (kept (api.send c e) ≡ kept c)
  pub subscribed : (c : api.Channel) → seen (api.subscribe c) ≡ length (log c)
  pub waits :
      (c : api.Channel) (r : api.Receiver) → seen r ≡ length (log c) → api.recv c r ≡ (empty, r)
  pub gives :
      (c : api.Channel) (r : api.Receiver)
      → seen r < length (log c)
      → length (log c) ≤ seen r + kept c
      → (e : Event) × (r' : api.Receiver) × (api.recv c r ≡ (event e, r'))
        × (seen r' ≡ suc (seen r))
        × (drop (seen r) (log c) ≡ e ∷ drop (seen r') (log c))
  pub lags :
      (c : api.Channel) (r : api.Receiver)
      → seen r + kept c < length (log c)
      → (r' : api.Receiver) × (api.recv c r ≡ (lagged (length (log c) - kept c - seen r), r'))
        × (seen r' ≡ length (log c) - kept c)

module _ {Event : Type 0} where
  abbrev pub published_in : List (HubStep Event) → List Event
  published_in [] = []
  published_in (published e ∷ steps) = e ∷ published_in steps
  published_in (receives ∷ steps) = published_in steps

module _ {Event : Type 0} (api : BroadcastApi Event) where
  -- The hub after these were published.
  abbrev pub publish_all : EventHub api → List Event → EventHub api
  publish_all hub [] = hub
  publish_all hub (e ∷ es) = publish_all (publish api hub e) es

module _ {Event : Type 0} (api : BroadcastApi Event) (laws : BroadcastLaws api) where
  -- `arrived` was published since the subscriber came; it is past the first part and not the
  -- second.
  pub record Follows (before arrived : List Event) (s : Subscriber api) : Type 0 where
    pub passed : List Event
    pub pending : List Event
    pub split : arrived ≡ passed ++ pending
    pub whole : laws.log s.hub.tx ≡ before ++ arrived
    pub position : laws.seen s.rx ≡ length before + length passed
    pub in_order : Skips s.given passed
    pub counted : length s.given + s.missed ≡ length passed
    pub lossless : length arrived ≤ laws.kept s.hub.tx → s.given ≡ passed

  pub log_length :
      (before arrived : List Event) (s : Subscriber api)
      → (f : Follows before arrived s)
      → length (laws.log s.hub.tx) ≡ length before + length f.passed + length f.pending
  log_length before arrived s f =
      rw (f.whole, f.split)
        (omega
          (arith, length-append before (f.passed ++ f.pending), length-append f.passed f.pending))

  publish-Follows :
      (before arrived : List Event) (s : Subscriber api) (e : Event)
      → Follows before arrived s
      → Follows before (arrived ++ e ∷ []) (hub_step api s (published e))
  unfolding hub_step publish
  publish-Follows before arrived s e f = record {
    passed = f.passed;
    pending = f.pending ++ e ∷ [];
    split = ap (λ x. x ++ e ∷ []) f.split ∙ append_assoc f.passed f.pending (e ∷ []);
    whole =
        (laws.logged s.hub.tx e).0
        ∙ ap (λ x. x ++ e ∷ []) f.whole
        ∙ append_assoc before arrived (e ∷ []);
    position = f.position;
    in_order = f.in_order;
    counted = f.counted;
    lossless = λ h.
        f.lossless (omega (arith, h, length-append arrived (e ∷ []), (laws.logged s.hub.tx e).1));
  }

  pending_lem :
      (before arrived : List Event) (s : Subscriber api) (f : Follows before arrived s)
      → drop (laws.seen s.rx) (laws.log s.hub.tx) ≡ f.pending
  pending_lem before arrived s f =
      let log = laws.log s.hub.tx in
      ap (λ n. drop n log) (f.position ∙ sym (length-append before f.passed))
      ∙ ap (drop (length (before ++ f.passed)))
          (f.whole ∙ ap (λ x. before ++ x) f.split ∙ sym (append_assoc before f.passed f.pending))
      ∙ drop-append (before ++ f.passed) f.pending

  -- The subscriber is told that it missed some.
  late-Follows :
      (before arrived : List Event) (s : Subscriber api)
      → Follows before arrived s
      → laws.seen s.rx + laws.kept s.hub.tx < length (laws.log s.hub.tx)
      → Follows before arrived (hub_step api s receives)
  unfolding hub_step on_received
  late-Follows before arrived s f late =
      let (rx, got, moved) = laws.lags s.hub.tx s.rx late in
      let n = length (laws.log s.hub.tx) - laws.kept s.hub.tx - laws.seen s.rx in
      let total = log_length before arrived s f in
      let cut = length-append f.passed (take n f.pending) in
      let gone = length-take n f.pending in
      rw got (record {
        passed = f.passed ++ take n f.pending;
        pending = drop n f.pending;
        split =
            f.split
            ∙ ap (λ x. f.passed ++ x) (sym (take-append-drop n f.pending))
            ∙ sym (append_assoc f.passed (take n f.pending) (drop n f.pending));
        whole = f.whole;
        position = omega (arith, moved, f.position, total, cut, gone, late);
        in_order = Skips-append s.given f.passed (take n f.pending) f.in_order;
        counted = omega (arith, f.counted, f.position, total, cut, gone, late);
        lossless = λ h. absurd (
            omega (
              arith,
              h,
              ap length f.split,
              length-append f.passed f.pending,
              f.position,
              total,
              late,
            ));
      })

  -- The subscriber is given the next event.
  near-Follows :
      (before arrived : List Event) (s : Subscriber api)
      → Follows before arrived s
      → laws.seen s.rx < length (laws.log s.hub.tx)
      → length (laws.log s.hub.tx) ≤ laws.seen s.rx + laws.kept s.hub.tx
      → Follows before arrived (hub_step api s receives)
  unfolding hub_step on_received
  near-Follows before arrived s f more near =
      let (e, rx, got, moved, dropped) = laws.gives s.hub.tx s.rx more near in
      let rest = drop (laws.seen rx) (laws.log s.hub.tx) in
      let one = length-append f.passed (e ∷ []) in
      rw got (record {
        passed = f.passed ++ e ∷ [];
        pending = rest;
        split =
            f.split
            ∙ ap (λ x. f.passed ++ x) (sym (pending_lem before arrived s f) ∙ dropped)
            ∙ sym (append_assoc f.passed (e ∷ []) rest);
        whole = f.whole;
        position = omega (arith, moved, f.position, one);
        in_order = Skips-both s.given f.passed e f.in_order;
        counted = omega (arith, f.counted, one, length-append s.given (e ∷ []));
        lossless = λ h. ap (λ x. x ++ e ∷ []) (f.lossless h);
      })

  pub receive-Follows :
      (before arrived : List Event) (s : Subscriber api)
      → Follows before arrived s
      → Follows before arrived (hub_step api s receives)
  unfolding hub_step on_received
  receive-Follows before arrived s f =
      let seen = laws.seen s.rx in
      let total = log_length before arrived s f in
      elim (Bool-cases (ltb seen (length (laws.log s.hub.tx)))) [
        | inr caught_up ↦
            rw (laws.waits s.hub.tx s.rx (ground (arith, caught_up, total, f.position))) f
        | inl more ↦
            elim (Bool-cases (ltb (seen + laws.kept s.hub.tx) (length (laws.log s.hub.tx)))) [
              | inl late ↦ late-Follows before arrived s f (ground (arith, late))
              | inr near ↦
                  near-Follows before arrived s f (ground (arith, more)) (ground (arith, near))
            ]
      ]

  pub run_hub-Follows :
      (before arrived : List Event) (s : Subscriber api) (steps : List (HubStep Event))
      → Follows before arrived s
      → Follows before (arrived ++ published_in steps) (run_hub api s steps)
  unfolding run_hub
  run_hub-Follows before arrived s [] f = rw (append-nil arrived) f
  run_hub-Follows before arrived s (published e ∷ steps) f =
      subst (λ x. Follows before x (run_hub api (hub_step api s (published e)) steps))
        (append_assoc arrived (e ∷ []) (published_in steps))
        (run_hub-Follows before (arrived ++ e ∷ []) (hub_step api s (published e)) steps
          (publish-Follows before arrived s e f))
  run_hub-Follows before arrived s (receives ∷ steps) f =
      run_hub-Follows before arrived (hub_step api s receives) steps
        (receive-Follows before arrived s f)

  pub new_subscriber-Follows :
      (hub : EventHub api) → Follows (laws.log hub.tx) [] (new_subscriber api hub)
  unfolding new_subscriber subscribe
  new_subscriber-Follows hub = record {
    passed = [];
    pending = [];
    split = refl;
    whole = sym (append-nil (laws.log hub.tx));
    position = omega (arith, laws.subscribed hub.tx);
    in_order = tt;
    counted = refl;
    lossless = λ h. refl;
  }

  pub on_received_hub :
      (s : Subscriber api) (r : Recv Event × api.Receiver) → (on_received api s r).hub ≡ s.hub
  unfolding on_received
  on_received_hub s (event e, rx) = refl
  on_received_hub s (lagged n, rx) = refl
  on_received_hub s (empty, rx) = refl

  pub run_hub_kept :
      (s : Subscriber api) (steps : List (HubStep Event))
      → laws.kept (run_hub api s steps).hub.tx ≡ laws.kept s.hub.tx
  unfolding run_hub hub_step publish
  run_hub_kept s [] = refl
  run_hub_kept s (published e ∷ steps) =
      run_hub_kept (hub_step api s (published e)) steps ∙ (laws.logged s.hub.tx e).1
  run_hub_kept s (receives ∷ steps) =
      run_hub_kept (hub_step api s receives) steps
      ∙ ap (λ h. laws.kept h.tx) (on_received_hub s (api.recv s.hub.tx s.rx))

  pub publish_all_kept :
      (hub : EventHub api) (es : List Event)
      → laws.kept (publish_all api hub es).tx ≡ laws.kept hub.tx
  unfolding publish
  publish_all_kept hub [] = refl
  publish_all_kept hub (e ∷ es) = publish_all_kept (publish api hub e) es ∙ (laws.logged hub.tx e).1

-- If the broadcast channel does what tokio documents, then for a task that subscribes to a hub of
-- some capacity, after earlier results and then anything published and received in any order: what
-- was published since is what the task is past and what is still to come; it was given events of
-- the first part only, in order and each once, and told exactly how many it missed; and it missed
-- none if no more were published since than the capacity.
pub run_hub_lem :
    {Event : Type 0} (api : BroadcastApi Event) (laws : BroadcastLaws api) (capacity : ℕ)
    (earlier : List Event) (steps : List (HubStep Event))
    → let hub = publish_all api (new_hub api capacity) earlier in
      let s = run_hub api (new_subscriber api hub) steps in
      Follows api laws (laws.log hub.tx) (published_in steps) s
      × (length (published_in steps) ≤ capacity → s.missed ≡ 0)
unfolding new_hub new_subscriber
run_hub_lem api laws capacity earlier steps =
    let hub = publish_all api (new_hub api capacity) earlier in
    let f =
      run_hub-Follows api laws (laws.log hub.tx) [] (new_subscriber api hub) steps
        (new_subscriber-Follows api laws hub) in
    let kept_ =
      run_hub_kept api laws (new_subscriber api hub) steps
      ∙ publish_all_kept api laws (new_hub api capacity) earlier in
    (
      f,
      λ h. omega (
        arith,
        f.counted,
        ap length (f.lossless (omega (arith, h, kept_, (laws.created capacity).1))),
      ),
    )
