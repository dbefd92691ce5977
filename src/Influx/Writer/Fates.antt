-- ===== src/Influx/Writer/Fates.antt =====
-- crates/huginn-influx: what becomes of batches in a run of both tasks, read off the server's
-- answers and the counter of dropped batches.
use huginn_io.Prelude.{
  ℕ, suc, ◌+◌, ◌-◌, ◌≤◌, ◌<◌, ◌≡◌, inl, inr, refl, ap, ◌∙◌, Bool, true, false, ◌||◌, List, [], ◌∷◌,
  ◌++◌, Option, none, some, take, arith, length, u64_mod, wrapping_add, wrapping_sub, Bool-cases,
  ◌==◌, if◌then◌else◌, ltb,
}
use huginn_io.Core.Platform.{Platform}
use huginn_io.Core.Stats.{WriteStats, record_eviction}
use huginn_io.Influx.Queue.{Batch, RetryQueue, batch_len, evict, pop_if_front}
use huginn_io.Influx.Queue.Removal.{pop_if_front-Removes}
use huginn_io.Influx.Writer.{
  WriterConfig, WriteError, is_retryable, Phase, waiting, writing, sleeping, drained, abandoned,
  Pipeline, Action, batch_event, poll, answer, wake, shutdown, step, write_lines,
}

-- The batches that the server accepted, those that it refused for good, and those that `push`
-- dropped, by their ids.
pub record Fates : Type 0 where
  pub written : List ℕ
  pub rejected : List ℕ
  pub dropped : List ℕ

abbrev pub ids : List Batch → List ℕ
ids [] = []
ids (b ∷ bs) = b.id ∷ ids bs

-- The oldest batches, as many as the counter of dropped batches grew by.
abbrev pub dropped_between : RetryQueue → RetryQueue → List ℕ
dropped_between q q' =
    ids (take (q'.stats.dropped_batches - q.stats.dropped_batches) q.inner.batches)

abbrev pub judged : Batch → Option WriteError → Fates
judged b none = record { written = b.id ∷ []; rejected = []; dropped = [] }
judged b (some e) =
    if is_retryable e
    then record { written = []; rejected = []; dropped = [] }
    else record { written = []; rejected = b.id ∷ []; dropped = [] }

abbrev pub unmoved : Fates
unmoved = record { written = []; rejected = []; dropped = [] }

-- What the outcome of a request means for the batch that was sent.
abbrev pub sent_fates : Phase → Option WriteError → Fates
sent_fates (writing b attempt) outcome = judged b outcome
sent_fates _ outcome = unmoved

abbrev pub answered_fates : {p : Platform} → Action p → Phase → Fates
answered_fates (answer now response) phase = sent_fates phase (write_lines response)
answered_fates _ phase = unmoved

abbrev pub both : Fates → Fates → Fates
both f g = record {
  written = f.written ++ g.written;
  rejected = f.rejected ++ g.rejected;
  dropped = f.dropped ++ g.dropped;
}

-- What a run does to batches, read off the answers and the counter of dropped batches.
abbrev pub fates_of : {p : Platform} → ℕ → WriterConfig → Pipeline p → List (Action p) → Fates
fates_of batch_size cfg s [] = unmoved
fates_of batch_size cfg s (a ∷ as_) =
    let s' = step batch_size cfg s a in
    let rest = fates_of batch_size cfg s' as_ in
    both
      (record (answered_fates a s.phase) {
        dropped = dropped_between s.batcher.queue s'.batcher.queue;
      })
      rest

abbrev pub has : ℕ → List ℕ → Bool
has id [] = false
has id (x ∷ xs) = x == id || has id xs

-- The batch was written, rejected or dropped, or is in the queue.
abbrev pub traced : ℕ → Fates → RetryQueue → Bool
traced id f q =
    has id f.written || has id f.rejected || has id f.dropped || has id (ids q.inner.batches)

pub has-append : (id : ℕ) (xs ys : List ℕ) → has id (xs ++ ys) ≡ (has id xs || has id ys)
has-append id [] ys = refl
has-append id (x ∷ xs) ys = ground (arith, has-append id xs ys)

pub ids-append : (bs cs : List Batch) → ids (bs ++ cs) ≡ ids bs ++ ids cs
ids-append [] cs = refl
ids-append (b ∷ bs) cs = ap (◌∷◌ b.id) (ids-append bs cs)

pub take_appended : {A : Type 0} (xs ys : List A) → take (length xs) (xs ++ ys) ≡ xs
take_appended [] ys = refl
take_appended (x ∷ xs) ys = ap (◌∷◌ x) (take_appended xs ys)

pub length-ids : (bs : List Batch) → length (ids bs) ≡ length bs
length-ids [] = refl
length-ids (b ∷ bs) = ap suc (length-ids bs)

-- The loop of `push` takes batches from the front and counts each.
pub record Gone (bs rest : List Batch) (s s' : WriteStats) : Type 0 where
  pub gone : List Batch
  pub split : bs ≡ gone ++ rest
  pub counted : s'.dropped_batches ≡ s.dropped_batches + length gone
  pub written : s'.written_batches ≡ s.written_batches
  pub rejected : s'.rejected_batches ≡ s.rejected_batches

pub evict-Gone :
    (capacity len : ℕ) (bs : List Batch) (bytes : ℕ) (s : WriteStats)
    → s.dropped_batches + length bs < u64_mod
    → let r = evict capacity len bs bytes s in Gone bs r.0.batches s r.1
unfolding evict record_eviction wrapping_add
evict-Gone capacity len [] bytes s h = record {
  gone = [];
  split = refl;
  counted = omega arith;
  written = refl;
  rejected = refl;
}
evict-Gone capacity len (old ∷ rest) bytes s h =
    elim (Bool-cases (ltb capacity (wrapping_add bytes len))) [
      | inl full ↦
          let g =
            evict-Gone capacity len rest (wrapping_sub bytes (batch_len old))
              (record_eviction s (batch_len old)) (omega arith) in
          rw (evict, full)
            (record {
              gone = old ∷ g.gone;
              split = ap (◌∷◌ old) g.split;
              counted = omega (arith, g.counted);
              written = g.written;
              rejected = g.rejected;
            })
      | inr room ↦
          rw (evict, room)
            (record {
              gone = [];
              split = refl;
              counted = omega arith;
              written = refl;
              rejected = refl;
            })
    ]

pub traced-both :
    (id : ℕ) (f g : Fates) (q : RetryQueue)
    → traced id (both f g) q
      ≡ (has id f.written || has id f.rejected || has id f.dropped || traced id g q)
traced-both id f g q = ground (
  arith,
  has-append id f.written g.written,
  has-append id f.rejected g.rejected,
  has-append id f.dropped g.dropped,
)

-- What is traced at some time is traced later on.
pub traced_later :
    (id : ℕ) (f g : Fates) (q q' : RetryQueue)
    → traced id f q ≡ true
    → (has id (ids q.inner.batches) ≡ true → traced id g q' ≡ true)
    → traced id (both f g) q' ≡ true
traced_later id f g q q' h k =
    traced-both id f g q' ∙ (elim (Bool-cases (has id (ids q.inner.batches))) [
      | inl here ↦ ground (arith, k here)
      | inr gone ↦ ground (arith, h, gone)
    ])

-- One answer is about one batch.
judged_few :
    (b : Batch) (o : Option WriteError)
    → length (judged b o).written + length (judged b o).rejected ≤ 1
judged_few b none = omega arith
judged_few b (some e) = ground arith

sent_few :
    (phase : Phase) (o : Option WriteError)
    → length (sent_fates phase o).written + length (sent_fates phase o).rejected ≤ 1
sent_few waiting o = omega arith
sent_few (writing b attempt) o = judged_few b o
sent_few (sleeping b attempt delay) o = omega arith
sent_few drained o = omega arith
sent_few abandoned o = omega arith

pub fates_few :
    {p : Platform} (a : Action p) (phase : Phase)
    → length (answered_fates a phase).written + length (answered_fates a phase).rejected ≤ 1
fates_few (answer now response) phase = sent_few phase (write_lines response)
fates_few (batch_event e) phase = omega arith
fates_few poll phase = omega arith
fates_few wake phase = omega arith
fates_few shutdown phase = omega arith

pub drained_fates : {p : Platform} (a : Action p) → answered_fates a drained ≡ unmoved
drained_fates (answer now response) = refl
drained_fates (batch_event e) = refl
drained_fates poll = refl
drained_fates wake = refl
drained_fates shutdown = refl

pub abandoned_fates : {p : Platform} (a : Action p) → answered_fates a abandoned ≡ unmoved
abandoned_fates (answer now response) = refl
abandoned_fates (batch_event e) = refl
abandoned_fates poll = refl
abandoned_fates wake = refl
abandoned_fates shutdown = refl

pub none_dropped :
    (q q' : RetryQueue)
    → q'.stats.dropped_batches ≡ q.stats.dropped_batches
    → dropped_between q q' ≡ []
none_dropped q q' e =
    let zero_ : q'.stats.dropped_batches - q.stats.dropped_batches ≡ 0 = omega (arith, e) in
    ap (λ k. ids (take k q.inner.batches)) zero_

-- The batch is taken from the front, and from nowhere else.
pub popped_kept :
    (id : ℕ) (q : RetryQueue) (batch : Batch)
    → has id (ids q.inner.batches) ≡ true
    → (has id (batch.id ∷ []) || has id (ids (pop_if_front q batch).0.inner.batches)) ≡ true
popped_kept id q batch h = elim (pop_if_front-Removes q batch) [
  | inl (x, split, same, _) ↦ ground (arith, ap (λ bs. has id (ids bs)) split, same, h)
  | inr (_, same, _) ↦ ground (arith, ap (λ r. has id (ids r.inner.batches)) same, h)
]
