-- ===== src/Web/State/Latest.antt =====
-- crates/huginn-web/src/state.rs: what the web state holds after events, and the scrapes of it.
use mathlib.Core.List.{Permᴰ}
use huginn_io.Core.BTree
use huginn_io.Core.BTree.Laws.{
  lookup-insert, insert-IsSorted, IsSorted, Below, text_lt_irrefl, text_lt_trans,
}
use huginn_io.Core.BTree.{text_lt}
use huginn_io.Core.Platform.{Platform}
use huginn_io.Core.Stats.{WriteStats}
use huginn_io.Core.Types.{ProbeResult}
use huginn_io.Prelude.{
  ◌≡◌, refl, sym, ap, ◌∙◌, true, List, [], ◌∷◌, Option, some, arith, All, Text, text_eq,
  if◌then◌else◌,
}
use huginn_io.Web.Prometheus.Order.{Alone, NamesDiffer, render-Permᴰ}
use huginn_io.Web.Prometheus.{render}
use huginn_io.Web.State.{
  Received, result, behind, ended, WebState, empty_state, keep, on_completed, event_loop, values,
}

module _ {p : Platform} where
  -- The last result of this name before the hub's end, or else the one that was there.
  abbrev pub latest : Text → Option (ProbeResult p) → List (Received p) → Option (ProbeResult p)
  latest name old [] = old
  latest name old (result r ∷ es) =
      latest name (if text_eq r.probe_name name then some r else old) es
  latest name old (behind n ∷ es) = latest name old es
  latest name old (ended ∷ es) = old

  -- After any events, the web state has under a name the last result of that name that came before
  -- the end of the hub, or what it had before if there is none.
  pub lookup-event_loop :
      (to_json : ProbeResult p → Option Text) (name : Text) (s : WebState p)
      (es : List (Received p))
      → BTree.lookup name (event_loop to_json s es).results
        ≡ latest name (BTree.lookup name s.results) es
  unfolding event_loop on_completed keep
  lookup-event_loop to_json name s [] = refl
  lookup-event_loop to_json name s (result r ∷ es) =
      lookup-event_loop to_json name (on_completed to_json s r) es
      ∙ ap (λ o. latest name o es) (lookup-insert r.probe_name name r s.results)
  lookup-event_loop to_json name s (behind n ∷ es) = lookup-event_loop to_json name s es
  lookup-event_loop to_json name s (ended ∷ es) = refl

  -- Each result stands under its own name.
  abbrev pub KeyedByName : List (Text × ProbeResult p) → Type 0
  KeyedByName = All (λ e. e.0 ≡ e.1.probe_name)

  pub record IsIndexed (results : List (Text × ProbeResult p)) : Type 0 where
    pub sorted : IsSorted results
    pub keyed : KeyedByName results

  insert-KeyedByName :
      (r : ProbeResult p) (results : List (Text × ProbeResult p))
      → KeyedByName results
      → KeyedByName (BTree.insert r.probe_name r results)
  unfolding BTree.insert
  insert-KeyedByName r [] h = (refl, tt)
  insert-KeyedByName r ((k, x) ∷ rest) h = ground (arith, insert-KeyedByName r rest h.1)

  event_loop-IsIndexed :
      (to_json : ProbeResult p → Option Text) (s : WebState p) (es : List (Received p))
      → IsIndexed s.results
      → IsIndexed (event_loop to_json s es).results
  unfolding event_loop on_completed keep
  event_loop-IsIndexed to_json s [] h = h
  event_loop-IsIndexed to_json s (result r ∷ es) h =
      event_loop-IsIndexed to_json (on_completed to_json s r) es (record {
        sorted = insert-IsSorted r.probe_name r s.results h.sorted;
        keyed = insert-KeyedByName r s.results h.keyed;
      })
  event_loop-IsIndexed to_json s (behind n ∷ es) h = event_loop-IsIndexed to_json s es h
  event_loop-IsIndexed to_json s (ended ∷ es) h = h

  Below-trans :
      (j k : Text) (m : List (Text × ProbeResult p)) → text_lt j k ≡ true → Below k m → Below j m
  Below-trans j k [] h b = tt
  Below-trans j k ((l, x) ∷ m) h b = text_lt_trans j k l h b

  values-Alone :
      (r : ProbeResult p) (m : List (Text × ProbeResult p))
      → Below r.probe_name m
      → IsSorted m
      → KeyedByName m
      → Alone r (values m)
  unfolding values
  values-Alone r [] b s h = tt
  values-Alone r ((k, x) ∷ m) b s h = (
    λ same. ground (arith, text_lt_irrefl k, same, h.0),
    values-Alone r m (Below-trans r.probe_name k m b s.0) s.1 h.1,
  )

  values-NamesDiffer :
      (m : List (Text × ProbeResult p)) → IsSorted m → KeyedByName m → NamesDiffer (values m)
  unfolding values
  values-NamesDiffer [] s h = tt
  values-NamesDiffer ((k, x) ∷ m) s h =
      (values-Alone x m (rw h.0 at s.0) s.1 h.1, values-NamesDiffer m s.1 h.1)

  -- Rendering the results that an initially empty web state holds after any events gives the same
  -- text for every order in which the hash map may yield them.
  pub scrape_any_order :
      (to_json : ProbeResult p → Option Text) (es : List (Received p))
      (order : List (ProbeResult p)) (stats : WriteStats)
      → Permᴰ (values (event_loop to_json empty_state es).results) order
      → render order stats ≡ render (values (event_loop to_json empty_state es).results) stats
  scrape_any_order to_json es order stats q =
      let s = event_loop to_json empty_state es in
      let i = event_loop-IsIndexed to_json empty_state es (record { sorted = tt; keyed = tt }) in
      sym (
        render-Permᴰ (values s.results) order stats q
          (values-NamesDiffer s.results i.sorted i.keyed))
