-- ===== src/Web/State.antt =====
-- crates/huginn-web/src/state.rs: the web state and its event loop, crates/huginn-web/src/
-- prometheus.rs: what a scrape finds in it, and crates/huginn-web/src/sse.rs: what a browser is
-- sent. The map is sorted by its keys, which stands for a hash map: only `values` shows an order,
-- and what reads it sorts. serde_json is a parameter.
pub mod Latest
pub mod Stream
use huginn_io.Core.BTree
use huginn_io.Core.Platform.{Platform}
use huginn_io.Core.Types.{ProbeResult}
use huginn_io.Prelude.{ℕ, Bool, true, false, List, [], ◌∷◌, ◌++◌, Option, none, some, Text}

-- What `recv` gives: a result, a lag, or the hub's end.
pub data Received (p : Platform) : Type 0 where
  result : ProbeResult p → Received p
  behind : ℕ → Received p
  ended : Received p

-- The latest result under each name, and what was sent on `sse_tx`.
pub record WebState (p : Platform) : Type 0 where
  pub results : List (Text × ProbeResult p)
  pub sse_sent : List Text

-- `WebState::new`
abbrev pub empty_state : {p : Platform} → WebState p
empty_state = record { results = []; sse_sent = [] }

-- What a browser's `BroadcastStream` gives: a message, or a lag.
pub data Streamed : Type 0 where
  message : Text → Streamed
  skipped : ℕ → Streamed

-- The events of `sse_handler`.
unfoldable pub sse_events : List Streamed → List Text
sse_events [] = []
sse_events (message data_ ∷ items) = data_ ∷ sse_events items
sse_events (skipped n ∷ items) = sse_events items

-- `if let Ok(json) = serde_json::to_string(&result)`
json_sent : Option Text → List Text
json_sent none = []
json_sent (some json) = json ∷ []

module _ {p : Platform} where
  -- `guard.insert(result.probe_name.clone(), result.clone())`
  unfoldable pub keep : ProbeResult p → List (Text × ProbeResult p) → List (Text × ProbeResult p)
  keep r results = BTree.insert r.probe_name r results

  -- One result, in the map and on its way to the browsers.
  unfoldable pub on_completed :
      (ProbeResult p → Option Text) → WebState p → ProbeResult p → WebState p
  unfolding keep json_sent
  on_completed to_json s r = record {
    results = keep r s.results;
    sse_sent = s.sse_sent ++ json_sent (to_json r);
  }

  -- `start_event_loop`, over what the receiver gives.
  unfoldable pub event_loop :
      (ProbeResult p → Option Text) → WebState p → List (Received p) → WebState p
  unfolding on_completed
  event_loop to_json s [] = s
  event_loop to_json s (result r ∷ es) = event_loop to_json (on_completed to_json s r) es
  event_loop to_json s (behind n ∷ es) = event_loop to_json s es
  event_loop to_json s (ended ∷ es) = s

  -- `results.values()`
  unfoldable pub values : List (Text × ProbeResult p) → List (ProbeResult p)
  values [] = []
  values ((name, r) ∷ rest) = r ∷ values rest
