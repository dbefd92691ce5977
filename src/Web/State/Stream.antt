-- ===== src/Web/State/Stream.antt =====
-- crates/huginn-web/src/state.rs and crates/huginn-web/src/sse.rs: what the browsers are sent.
use huginn_io.Core.Platform.{Platform}
use huginn_io.Core.Types.{ProbeResult}
use huginn_io.Prelude.{
  ◌≡◌, refl, sym, ap, ◌∙◌, List, [], ◌∷◌, ◌++◌, append-nil, append_assoc, Option, none, some, Text,
}
use huginn_io.Web.State.{
  Received, result, behind, ended, WebState, json_sent, on_completed, event_loop,
}

module _ {p : Platform} where
  -- The results before the hub's end that serde_json can print, printed, in order.
  abbrev pub printed : (ProbeResult p → Option Text) → List (Received p) → List Text
  printed to_json [] = []
  printed to_json (result r ∷ es) = elim (to_json r) [
    | none ↦ printed to_json es
    | some json ↦ json ∷ printed to_json es
  ]
  printed to_json (behind n ∷ es) = printed to_json es
  printed to_json (ended ∷ es) = []

  json_sent-printed :
      (to_json : ProbeResult p → Option Text) (r : ProbeResult p) (es : List (Received p))
      (o : Option Text)
      → to_json r ≡ o
      → json_sent o ++ printed to_json es ≡ printed to_json (result r ∷ es)
  unfolding json_sent
  json_sent-printed to_json r es none e = rw (e, printed) refl
  json_sent-printed to_json r es (some json) e = rw (e, printed) refl

  -- After any events, the texts that were sent to the browsers are those that were sent before,
  -- followed by the results that came before the end of the hub and that serde_json could print,
  -- printed, in the order in which they came.
  pub event_loop_sends :
      (to_json : ProbeResult p → Option Text) (s : WebState p) (es : List (Received p))
      → (event_loop to_json s es).sse_sent ≡ s.sse_sent ++ printed to_json es
  unfolding event_loop on_completed
  event_loop_sends to_json s [] = sym (append-nil s.sse_sent)
  event_loop_sends to_json s (result r ∷ es) =
      event_loop_sends to_json (on_completed to_json s r) es
      ∙ append_assoc s.sse_sent (json_sent (to_json r)) (printed to_json es)
      ∙ ap (λ t. s.sse_sent ++ t) (json_sent-printed to_json r es (to_json r) refl)
  event_loop_sends to_json s (behind n ∷ es) = event_loop_sends to_json s es
  event_loop_sends to_json s (ended ∷ es) = sym (append-nil s.sse_sent)
