-- ===== src/Web/Prometheus.antt =====
-- crates/huginn-web/src/prometheus.rs: the exposition of the latest results and of the write
-- path's counters.
pub mod Labels
pub mod Order
use huginn_io.Core.BTree
use huginn_io.Core.BTree.{text_lt}
use huginn_io.Core.Platform.{Platform}
use huginn_io.Core.Stats.{WriteStats}
use huginn_io.Core.Types.{ProbeResult}
use huginn_io.Prelude.{
  ℕ, Bool, true, false, ◌&&◌, ◌||◌, List, [], ◌∷◌, ◌++◌, map, Option, none, some, leb, ◌==◌,
  if◌then◌else◌, Text, codes, is_empty,
}

unfoldable pub escape_label_char : ℕ → Text
escape_label_char c =
    if c == b'\\'
    then b'\\' ∷ b'\\' ∷ []
    else if c == b'"'
    then b'\\' ∷ b'"' ∷ []
    else if c == b'\n'
    then b'\\' ∷ b'n' ∷ []
    else c ∷ []

unfoldable pub escape_label : Text → Text
unfolding escape_label_char
escape_label [] = []
escape_label (c ∷ s) = escape_label_char c ++ escape_label s

unfoldable pub is_name_char : ℕ → Bool
is_name_char c =
    (leb b'A' c && leb c b'Z')
    || (leb b'a' c && leb c b'z')
    || (leb b'0' c && leb c b'9')
    || c == b'_'
    || c == b':'

unfoldable pub sanitize_metric_name : Text → Text
unfolding is_name_char
sanitize_metric_name key = map (λ c. if is_name_char c then c else b'_') key

-- `# HELP` and `# TYPE`.
family_header : Text → Text → Text → Text
family_header name help kind =
    codes "# HELP "
    ++ (name ++ (b' ' ∷ (help ++ (codes "\n# TYPE " ++ (name ++ (b' ' ∷ (kind ++ codes "\n")))))))

-- The readings of all probes by key, each with the results that have it.
abbrev Extra : Platform → Type 0
Extra p = List (Text × List (ProbeResult p × p.F64))

module _ {p : Platform} where
  sample_line : Text → ProbeResult p → p.F64 → Text
  unfolding escape_label
  sample_line name r value =
      name
      ++ (codes "{probe=\""
          ++ (escape_label r.probe_name
              ++ (codes "\",type=\""
                  ++ (escape_label r.probe_type
                      ++ (codes "\",target=\""
                          ++ (escape_label r.target
                              ++ (codes "\"} " ++ (p.show_f64 value ++ codes "\n"))))))))

  sample_lines : Text → List (ProbeResult p × p.F64) → Text
  unfolding sample_line
  sample_lines name [] = []
  sample_lines name ((r, value) ∷ samples) = sample_line name r value ++ sample_lines name samples

  -- What is appended to `out`.
  unfoldable pub render_family : Text → Text → List (ProbeResult p × p.F64) → Text
  unfolding sample_lines family_header
  render_family name help samples =
      let lines = sample_lines name samples in
      if is_empty lines then [] else family_header name help (codes "gauge") ++ lines

  -- `probes.sort_by`, which is stable: a result goes before those of its name that stood behind it.
  unfoldable pub insert_by_name : ProbeResult p → List (ProbeResult p) → List (ProbeResult p)
  insert_by_name r [] = r ∷ []
  insert_by_name r (x ∷ xs) =
      let rest = insert_by_name r xs in
      if text_lt x.probe_name r.probe_name then x ∷ rest else r ∷ x ∷ xs

  unfoldable pub sort_by_name : List (ProbeResult p) → List (ProbeResult p)
  sort_by_name [] = []
  sort_by_name (r ∷ rs) = insert_by_name r (sort_by_name rs)

  success_value : ProbeResult p → p.F64
  success_value r = if r.up then p.of_nat 1 else p.of_nat 0

  with_status : List (ProbeResult p) → List (ProbeResult p × p.F64)
  with_status [] = []
  with_status (r ∷ rs) = elim r.status_code [
    | none ↦ with_status rs
    | some code ↦ (r, p.of_nat code) ∷ with_status rs
  ]

  or_default : Option (List (ProbeResult p × p.F64)) → List (ProbeResult p × p.F64)
  or_default none = []
  or_default (some samples) = samples

  -- `extra.entry(key).or_default().push((r, value))`
  push_extra : Text → ProbeResult p → p.F64 → Extra p → Extra p
  unfolding or_default
  push_extra key r value extra =
      BTree.insert key (or_default (BTree.lookup key extra) ++ (r, value) ∷ []) extra

  add_readings : ProbeResult p → List (Text × p.F64) → Extra p → Extra p
  unfolding push_extra sanitize_metric_name
  add_readings r [] extra = extra
  add_readings r ((key, value) ∷ ms) extra =
      add_readings r ms (push_extra (sanitize_metric_name key) r value extra)

  collect_extra : List (ProbeResult p) → Extra p → Extra p
  unfolding add_readings
  collect_extra [] extra = extra
  collect_extra (r ∷ rs) extra = collect_extra rs (add_readings r r.metrics extra)

  render_extra : Extra p → Text
  render_extra [] = []
  render_extra ((key, samples) ∷ extra) =
      render_family (codes "huginn_probe_" ++ key)
        (codes "Probe-specific reading '" ++ (key ++ codes "'.")) samples
      ++ render_extra extra

-- What is appended to `out`.
unfoldable pub render_scalar : (p : Platform) → Text → Text → Text → p.F64 → Text
unfolding family_header
render_scalar p name help kind value =
    family_header name help kind ++ (name ++ (b' ' ∷ (p.show_f64 value ++ codes "\n")))

-- The counters of the write path, each read once.
unfoldable pub render_write_path : (p : Platform) → WriteStats → Text
render_write_path p s =
    render_scalar p (codes "huginn_influx_queue_batches")
      (codes "Batches currently waiting in the retry queue.") (codes "gauge")
      (p.of_nat s.queue_batches)
    ++ (render_scalar p (codes "huginn_influx_queue_bytes")
          (codes "Bytes of line protocol currently waiting in the retry " ++ codes "queue.")
          (codes "gauge") (p.of_nat s.queue_bytes)
        ++ (render_scalar p (codes "huginn_influx_batches_written_total")
              (codes "Batches InfluxDB has accepted since startup.") (codes "counter")
              (p.of_nat s.written_batches)
            ++ (render_scalar p (codes "huginn_influx_bytes_written_total")
                  (codes "Bytes of line protocol InfluxDB has accepted since startup.")
                  (codes "counter") (p.of_nat s.written_bytes)
                ++ (render_scalar p (codes "huginn_influx_batches_dropped_total")
                      (codes "Batches evicted because the retry queue was full. These "
                        ++ codes "measurements are lost.")
                      (codes "counter") (p.of_nat s.dropped_batches)
                    ++ (render_scalar p (codes "huginn_influx_bytes_dropped_total")
                          (codes "Bytes of line protocol evicted because the retry queue "
                            ++ codes "was full.")
                          (codes "counter") (p.of_nat s.dropped_bytes)
                        ++ (render_scalar p (codes "huginn_influx_batches_rejected_total")
                              (codes "Batches InfluxDB refused permanently and which were "
                                ++ codes "discarded. These measurements are lost.")
                              (codes "counter") (p.of_nat s.rejected_batches)
                            ++ (render_scalar p
                                (codes "huginn_influx_last_write_success_timestamp_seconds")
                                (codes "Unix timestamp of the last write InfluxDB accepted, or "
                                  ++ codes "0 if none has since startup.")
                                (codes "gauge") (p.of_nat s.last_write_success_unix))))))))

module _ {p : Platform} where
  -- Everything but the sorting, for the probes in their order.
  unfoldable pub render_sorted : List (ProbeResult p) → WriteStats → Text
  unfolding success_value with_status collect_extra render_extra
  render_sorted probes stats =
      render_family (codes "huginn_probe_success")
        (codes "Whether the last probe run succeeded (1) or failed (0).")
        (map (λ r. (r, success_value r)) probes)
      ++ (render_family (codes "huginn_probe_duration_seconds")
            (codes "Duration of the last probe run in seconds.")
            (map (λ r. (r, p.f64_div r.response_ms (p.of_nat 1000))) probes)
          ++ (render_family (codes "huginn_probe_http_status_code")
                (codes "HTTP status code of the last probe run (HTTP probes only).")
                (with_status probes)
              ++ (render_family (codes "huginn_probe_last_run_timestamp_seconds")
                    (codes "Unix timestamp of the last probe run.")
                    (map (λ r. (r, p.unix_seconds r.timestamp)) probes)
                  ++ (render_extra (collect_extra probes []) ++ render_write_path p stats))))

  -- `results.values()`, in whatever order the hash map has them.
  unfoldable pub render : List (ProbeResult p) → WriteStats → Text
  unfolding sort_by_name render_sorted
  render results stats = render_sorted (sort_by_name results) stats
