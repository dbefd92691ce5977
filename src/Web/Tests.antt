-- ===== src/Web/Tests.antt =====
-- The theorems on the listeners at concrete requests and events.
use huginn_io.Core.BTree
use huginn_io.Core.Samples.{sample_platform, sample_up, sample_down}
use huginn_io.Core.Stats.{default_stats}
use huginn_io.Core.Types.{ProbeResult}
use huginn_io.Prelude.{◌≡◌, false, List, [], ◌∷◌, ◌++◌, Option, Text, some, refl, codes}
use huginn_io.Web.Prometheus.Labels.{read_label, read_label-escape_label}
use huginn_io.Web.Prometheus.{escape_label, render}
use huginn_io.Web.State.Latest.{latest, lookup-event_loop, scrape_any_order}
use huginn_io.Web.State.{
  Received, result, behind, ended, event_loop, values, empty_state, on_completed, keep,
}
use mathlib.Core.List.{Permᴰ}

read_label-escape_label_example :
    read_label false (escape_label (codes "a\"\n\\") ++ b'"' ∷ codes "}")
    ≡ (codes "a\"\n\\", b'"' ∷ codes "}")
read_label-escape_label_example = read_label-escape_label (codes "a\"\n\\") (codes "}")

abbrev other_probe : ProbeResult sample_platform
other_probe = record sample_up { probe_name = codes "z" }

abbrev sample_stream : List (Received sample_platform)
sample_stream = result sample_up ∷ result other_probe ∷ behind 2 ∷ result sample_down ∷ ended ∷ []

abbrev no_json : ProbeResult sample_platform → Option Text
no_json r = some r.probe_name

lookup-event_loop_example :
    BTree.lookup (codes "a b") (event_loop no_json empty_state sample_stream).results
    ≡ latest (codes "a b") (BTree.lookup (codes "a b") []) sample_stream
lookup-event_loop_example =
    lookup-event_loop {p = sample_platform} no_json (codes "a b") empty_state sample_stream

swapped :
    Permᴰ
      (values (event_loop no_json empty_state sample_stream).results)
      (other_probe ∷ sample_down ∷ [])
unfolding values event_loop on_completed keep BTree.insert
swapped = Permᴰ.swap refl refl

scrape_any_order_example :
    render (other_probe ∷ sample_down ∷ []) default_stats
    ≡ render (values (event_loop no_json empty_state sample_stream).results) default_stats
scrape_any_order_example =
    scrape_any_order no_json sample_stream (other_probe ∷ sample_down ∷ []) default_stats swapped
