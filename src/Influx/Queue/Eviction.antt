-- ===== src/Influx/Queue/Eviction.antt =====
-- crates/huginn-influx/src/queue.rs: which batches `push` evicts, and what it counts.
use huginn_io.Prelude.{
  ℕ, ◌+◌, ◌≤◌, ◌<◌, ◌≡◌, refl, ap, ◌∙◌, ◌⊎◌, inl, inr, List, [], ◌∷◌, ◌++◌, arith, length, ltb,
  u64_mod, wrapping_add, wrapping_sub, wrapping_add_lem, wrapping_sub_lem, Bool-cases, ltb→lt,
}
use huginn_io.Core.Stats.{WriteStats, set_queue_depth, record_eviction}
use huginn_io.Influx.Queue.Invariant.{total, IsValid, InRange, total-append}
use huginn_io.Influx.Queue.{
  Batch, Inner, RetryQueue, batch_len, evict, push, dropped_batches, dropped_bytes,
}

-- Every batch of `gone` left while it, those behind it and the new one were too much together.
abbrev pub Needed : ℕ → ℕ → List Batch → List Batch → Type 0
Needed capacity len [] kept = Unit {0}
Needed capacity len (b ∷ gone) kept =
    (capacity < total (b ∷ gone) + total kept + len) × Needed capacity len gone kept

abbrev evictions : WriteStats → List Batch → WriteStats
evictions s [] = s
evictions s (b ∷ gone) = evictions (record_eviction s (batch_len b)) gone

evictions_count :
    (s : WriteStats) (gone : List Batch)
    → InRange s
    → ((evictions s gone).dropped_batches ≡ wrapping_add s.dropped_batches (length gone))
      × ((evictions s gone).dropped_bytes ≡ wrapping_add s.dropped_bytes (total gone))
unfolding wrapping_add record_eviction
evictions_count s [] h = omega arith
evictions_count s (b ∷ gone) h =
    let ih = evictions_count (record_eviction s (batch_len b)) gone (omega arith) in
    omega (arith, ih.0, ih.1)

-- What the loop leaves, for the batches that it took.
record Evicts (capacity len : ℕ) (bs : List Batch) (s : WriteStats) (r : Inner × WriteStats)
    : Type 0 where
  gone : List Batch
  split : bs ≡ gone ++ r.0.batches
  stats : r.1 ≡ evictions s gone
  room : (r.0.batches ≡ []) ⊎ (total r.0.batches + len ≤ capacity)
  needed : Needed capacity len gone r.0.batches

evict-Evicts :
    (capacity len : ℕ) (bs : List Batch) (bytes : ℕ) (s : WriteStats)
    → bytes ≡ total bs
    → total bs + len < u64_mod
    → Evicts capacity len bs s (evict capacity len bs bytes s)
unfolding evict
evict-Evicts capacity len [] bytes s h k = record {
  gone = [];
  split = refl;
  stats = refl;
  room = inl refl;
  needed = tt;
}
evict-Evicts capacity len (old ∷ rest) bytes s h k =
    let e : wrapping_sub bytes (batch_len old) ≡ total rest =
      rw (wrapping_sub_lem bytes (batch_len old) (omega arith) (omega arith)) (omega arith) in
    let sum = wrapping_add_lem bytes len (omega arith) in
    let ih =
      evict-Evicts capacity len rest (wrapping_sub bytes (batch_len old))
        (record_eviction s (batch_len old)) e (omega arith) in
    elim (Bool-cases (ltb capacity (wrapping_add bytes len))) [
      | inl full ↦
          rw (full, evict)
            (record {
              gone = old ∷ ih.gone;
              split = ap (◌∷◌ old) ih.split;
              stats = ih.stats;
              room = ih.room;
              needed = (
                omega (
                  arith,
                  ltb→lt capacity (wrapping_add bytes len) full,
                  sum,
                  ap total ih.split,
                  total-append ih.gone
                      (evict capacity len rest (wrapping_sub bytes (batch_len old))
                        (record_eviction s (batch_len old))).0.batches,
                ),
                ih.needed,
              );
            })
      | inr fits ↦
          rw (fits, evict)
            (record {
              gone = [];
              split = refl;
              stats = refl;
              room = inr (ground (arith, sum));
              needed = tt;
            })
    ]

-- For a valid queue whose bytes with the new batch fit a word: push keeps a suffix of the batches
-- followed by the new one, the suffix fits the capacity with it or is empty, each batch that left
-- had to leave, and the dropped counters grow, modulo their width, by exactly the number and the
-- bytes of those that left.
pub push_drops_oldest :
    (q : RetryQueue) (b : Batch)
    → IsValid q
    → total q.inner.batches + batch_len b < u64_mod
    → (gone kept : List Batch) × (q.inner.batches ≡ gone ++ kept)
      × ((push q b).inner.batches ≡ kept ++ b ∷ [])
      × ((kept ≡ []) ⊎ (total kept + batch_len b ≤ q.capacity_bytes))
      × Needed q.capacity_bytes (batch_len b) gone kept
      × (dropped_batches (push q b) ≡ wrapping_add (dropped_batches q) (length gone))
      × (dropped_bytes (push q b) ≡ wrapping_add (dropped_bytes q) (total gone))
unfolding push dropped_batches dropped_bytes set_queue_depth
push_drops_oldest q b v fits =
    let r = evict q.capacity_bytes (batch_len b) q.inner.batches q.inner.bytes q.stats in
    let e =
      evict-Evicts q.capacity_bytes (batch_len b) q.inner.batches q.inner.bytes q.stats v.counted
        fits in
    let c = evictions_count q.stats e.gone v.range in
    (
      e.gone,
      r.0.batches,
      e.split,
      refl,
      e.room,
      e.needed,
      ap (λ (t : WriteStats). t.dropped_batches) e.stats ∙ c.0,
      ap (λ (t : WriteStats). t.dropped_bytes) e.stats ∙ c.1,
    )
