-- ===== src/Core/Hub/Drained.antt =====
-- crates/huginn-core/src/event.rs: a subscriber that keeps receiving comes to the end of what was
-- published.
use huginn_io.Core.Hub.Lossless.{
  BroadcastLaws, Follows, log_length, receive-Follows, on_received_hub,
}
use huginn_io.Core.Hub.{
  Recv, event, lagged, empty, BroadcastApi, receives, Subscriber, on_received, hub_step,
}
use huginn_io.Prelude.{
  ◌+◌, ◌-◌, ◌≤◌, ◌<◌, ◌≡◌, ◌⊎◌, inl, inr, ap, List, arith, length, ltb, Bool-cases,
}

-- The receiver gave an event or told of a lag.
abbrev pub Given : {A : Type 0} → Recv A → Type 0
Given empty = ⊥
Given (event e) = Unit {0}
Given (lagged n) = Unit {0}

module _ {Event : Type 0} (api : BroadcastApi Event) (laws : BroadcastLaws api) where
  receive_cases :
      (before arrived : List Event) (s : Subscriber api) (f : Follows api laws before arrived s)
      → ((length f.pending ≡ 0) × ((api.recv s.hub.tx s.rx).0 ≡ empty))
        ⊎ (Given (api.recv s.hub.tx s.rx).0
            × (laws.seen s.rx < laws.seen (hub_step api s receives).rx))
  unfolding hub_step on_received
  receive_cases before arrived s f =
      let seen = laws.seen s.rx in
      let total = log_length api laws before arrived s f in
      elim (Bool-cases (ltb seen (length (laws.log s.hub.tx)))) [
        | inr caught_up ↦ inl (
          ground (arith, caught_up, total, f.position),
          ap (λ x. x.0) (laws.waits s.hub.tx s.rx (ground (arith, caught_up, total, f.position))),
        )
        | inl more ↦
            elim (Bool-cases (ltb (seen + laws.kept s.hub.tx) (length (laws.log s.hub.tx)))) [
              | inl late ↦
                  let (rx, got, moved) = laws.lags s.hub.tx s.rx (ground (arith, late)) in
                  inr (rw got (tt, ground (arith, moved, late)))
              | inr near ↦
                  let (e, rx, got, moved, _) =
                    laws.gives s.hub.tx s.rx (ground (arith, more)) (ground (arith, near)) in
                  inr (rw got (tt, omega (arith, moved)))
            ]
      ]

  -- A reception leaves less to be received, unless nothing is left.
  pub receive_less :
      (before arrived : List Event) (s : Subscriber api) (f : Follows api laws before arrived s)
      → ((length f.pending ≡ 0) × ((api.recv s.hub.tx s.rx).0 ≡ empty))
        ⊎ (Given (api.recv s.hub.tx s.rx).0
            × ((f' : Follows api laws before arrived (hub_step api s receives)) × (length f'.pending
                  < length f.pending)))
  unfolding hub_step
  receive_less before arrived s f = elim (receive_cases before arrived s f) [
    | inl done ↦ inl done
    | inr (given, up) ↦
        let f' = receive-Follows api laws before arrived s f in
        let same =
          ap (λ h. length (laws.log h.tx)) (on_received_hub api laws s (api.recv s.hub.tx s.rx)) in
        inr (
          given,
          (
            f',
            omega (
              arith,
              up,
              same,
              f.position,
              f'.position,
              log_length api laws before arrived s f,
              log_length api laws before arrived _ f',
            ),
          ),
        )
  ]

  -- A reception leaves one less to be received, or nothing.
  pub receive_down :
      (before arrived : List Event) (s : Subscriber api) (f : Follows api laws before arrived s)
      → (f' : Follows api laws before arrived (hub_step api s receives)) × (length f'.pending
          ≤ length f.pending - 1)
  unfolding hub_step on_received
  receive_down before arrived s f = elim (receive_less before arrived s f) [
    | inr (given, (f', less)) ↦ (f', omega (arith, less))
    | inl (nothing, e) ↦
        let total = log_length api laws before arrived s f in
        let waited = laws.waits s.hub.tx s.rx (omega (arith, total, f.position, nothing)) in
        rw waited (f, omega (arith, nothing))
  ]
