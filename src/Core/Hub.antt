-- ===== src/Core/Hub.antt =====
-- crates/huginn-core/src/event.rs: the event hub, around tokio's broadcast channel, which is a
-- parameter.
pub mod Lists
pub mod Lossless
pub mod Drained
pub mod Tests
use huginn_io.Prelude.{ℕ, ◌+◌, List, [], ◌∷◌, ◌++◌}

-- What `recv` gives at once: an event, a lag, or nothing yet.
pub data Recv {κ} (Event : Type κ) : Type κ where
  event : Event → Recv Event
  lagged : ℕ → Recv Event
  empty : Recv Event

-- `broadcast::channel`, `send`, `subscribe`, and `recv`, which moves its receiver on.
pub record BroadcastApi (Event : Type 0) : Type 1 where
  pub Channel : Type 0
  pub Receiver : Type 0
  pub channel : ℕ → Channel
  pub send : Channel → Event → Channel
  pub subscribe : Channel → Receiver
  pub recv : Channel → Receiver → Recv Event × Receiver

module _ {Event : Type 0} (api : BroadcastApi Event) where
  pub record EventHub : Type 0 where
    pub tx : api.Channel

  -- `EventHub::new`
  unfoldable pub new_hub : ℕ → EventHub
  new_hub capacity = record { tx = api.channel capacity }

  unfoldable pub publish : EventHub → Event → EventHub
  publish hub e = record { tx = api.send hub.tx e }

  unfoldable pub subscribe : EventHub → api.Receiver
  subscribe hub = api.subscribe hub.tx

-- What happens at the hub, as one subscriber sees it: someone publishes, or it receives.
pub data HubStep (Event : Type 0) : Type 0 where
  published : Event → HubStep Event
  receives : HubStep Event

module _ {Event : Type 0} (api : BroadcastApi Event) where
  -- The subscriber, with what it was given and how much it was told that it missed.
  pub record Subscriber : Type 0 where
    pub hub : EventHub api
    pub rx : api.Receiver
    pub given : List Event
    pub missed : ℕ

  -- A task that subscribes now.
  unfoldable pub new_subscriber : EventHub api → Subscriber
  unfolding subscribe
  new_subscriber hub = record { hub = hub; rx = subscribe api hub; given = []; missed = 0 }

  unfoldable pub on_received : Subscriber → Recv Event × api.Receiver → Subscriber
  on_received s (event e, rx) = record s { rx = rx; given = s.given ++ e ∷ [] }
  on_received s (lagged n, rx) = record s { rx = rx; missed = s.missed + n }
  on_received s (empty, rx) = record s { rx = rx }

  unfoldable pub hub_step : Subscriber → HubStep Event → Subscriber
  unfolding on_received publish
  hub_step s (published e) = record s { hub = publish api s.hub e }
  hub_step s receives = on_received s (api.recv s.hub.tx s.rx)

  unfoldable pub run_hub : Subscriber → List (HubStep Event) → Subscriber
  unfolding hub_step
  run_hub s [] = s
  run_hub s (step ∷ steps) = run_hub (hub_step s step) steps
