-- ===== src/Influx/Batcher/Delivery.antt =====
-- crates/huginn-influx/src/writer.rs: what `run_batcher` queues, against what it receives.
use huginn_io.Prelude.{
  ℕ, suc, ◌≤◌, ◌<◌, ◌≡◌, refl, sym, ap, ◌∙◌, Bool, true, false, List, [], ◌∷◌, ◌++◌, length, leb,
  if◌then◌else◌, arith, concat, All, append-nil, append_assoc, length-append, Bool-cases, inl, inr,
  ◌⊎◌,
}
use huginn_io.Core.Platform.{Platform}
use huginn_io.Core.Types.{ProbeResult}
use huginn_io.Influx.Batcher.{
  Event, completed, lagged, hub_closed, deadline, Batcher, render, enqueue_results, enqueue, handle,
  run_batcher,
}
use huginn_io.Influx.Queue.{RetryQueue, push, close}

module _ {p : Platform} where
  -- The results that arrive before the hub closes.
  abbrev pub received : List (Event p) → List (ProbeResult p)
  received [] = []
  received (completed r ∷ es) = r ∷ received es
  received (lagged n ∷ es) = received es
  received (hub_closed ∷ es) = []
  received (deadline ∷ es) = received es

  abbrev pub closes : List (Event p) → Bool
  closes [] = false
  closes (hub_closed ∷ es) = true
  closes (e ∷ es) = closes es

  -- The queue after batches of these results were pushed, one after another.
  abbrev pub push_all : RetryQueue → ℕ → List (List (ProbeResult p)) → RetryQueue
  push_all q id [] = q
  push_all q id (c ∷ cs) = push_all (push q (render id c)) (suc id) cs

  -- A batch holds at least one result and at most `batch_size`.
  abbrev pub IsChunk : ℕ → List (ProbeResult p) → Type 0
  IsChunk batch_size c = (0 < length c) × (length c ≤ batch_size)

  -- `b'` follows from `b` by queueing the chunks, with `arrived` behind what was buffered.
  pub record Delivers (batch_size : ℕ) (b : Batcher p) (arrived : List (ProbeResult p))
      (ended : Bool) (b' : Batcher p) : Type 0 where
    pub chunks : List (List (ProbeResult p))
    pub content : concat chunks ++ b'.buffer ≡ b.buffer ++ arrived
    pub queued : b'.queue ≡ (
        if ended
        then close (push_all b.queue b.next_id chunks)
        else push_all b.queue b.next_id chunks)
    pub sizes : All (IsChunk batch_size) chunks
    pub small : length b'.buffer < batch_size
    pub emptied : ended ≡ true → b'.buffer ≡ []

  run_batcher_stopped :
      (batch_size : ℕ) (b : Batcher p) (es : List (Event p))
      → b.running ≡ false
      → run_batcher batch_size b es ≡ b
  unfolding run_batcher
  run_batcher_stopped batch_size b [] h = refl
  run_batcher_stopped batch_size b (e ∷ es) h = rw h

  -- The batcher after it queued `buf`.
  abbrev pub flushed : Batcher p → List (ProbeResult p) → Batcher p
  flushed b buf = record b {
    queue = push b.queue (render b.next_id buf);
    buffer = [];
    next_id = suc b.next_id;
  }

  Delivers-flush :
      (batch_size : ℕ) (b : Batcher p) (buf arrived rest : List (ProbeResult p)) (ended : Bool)
      (b' : Batcher p)
      → b.buffer ++ arrived ≡ buf ++ rest
      → IsChunk batch_size buf
      → Delivers batch_size (flushed b buf) rest ended b'
      → Delivers batch_size b arrived ended b'
  Delivers-flush batch_size b buf arrived rest ended b' e c d = record {
    chunks = buf ∷ d.chunks;
    content = append_assoc buf (concat d.chunks) b'.buffer ∙ ap (◌++◌ buf) d.content ∙ sym e;
    queued = d.queued;
    sizes = (c, d.sizes);
    small = d.small;
    emptied = d.emptied;
  }

  Delivers-keep :
      (batch_size : ℕ) (b : Batcher p) (buf arrived rest : List (ProbeResult p)) (ended : Bool)
      (b' : Batcher p)
      → b.buffer ++ arrived ≡ buf ++ rest
      → Delivers batch_size (record b { buffer = buf }) rest ended b'
      → Delivers batch_size b arrived ended b'
  Delivers-keep batch_size b buf arrived rest ended b' e d = record {
    chunks = d.chunks;
    content = d.content ∙ sym e;
    queued = d.queued;
    sizes = d.sizes;
    small = d.small;
    emptied = d.emptied;
  }

  pub enqueue_cases :
      (b : Batcher p)
      → ((b.buffer ≡ []) × (enqueue b ≡ b))
        ⊎ ((0 < length b.buffer) × (enqueue b ≡ flushed b b.buffer))
  unfolding enqueue
  enqueue_cases b = go b.buffer refl
    where
      go :
          (buf : List (ProbeResult p))
          → b.buffer ≡ buf
          → ((b.buffer ≡ []) × (enqueue_results b buf ≡ b))
            ⊎ ((0 < length b.buffer) × (enqueue_results b buf ≡ flushed b b.buffer))
      go [] e = inl (e, refl)
      go (r ∷ rs) e = inr (ground arith, ground arith)

  -- Flushing the buffer, and then whatever follows.
  Delivers-enqueue :
      (batch_size : ℕ) (b : Batcher p) (arrived : List (ProbeResult p)) (ended : Bool)
      (b' : Batcher p)
      → length b.buffer ≤ batch_size
      → Delivers batch_size (enqueue b) arrived ended b'
      → Delivers batch_size b arrived ended b'
  Delivers-enqueue batch_size b arrived ended b' h d = elim (enqueue_cases b) [
    | inl (_, e) ↦ rw e at d
    | inr (some_, e) ↦
        Delivers-flush batch_size b b.buffer arrived arrived ended b' refl (some_, h) (rw e at d)
  ]

  pub enqueue_buffer : (b : Batcher p) → (enqueue b).buffer ≡ []
  enqueue_buffer b = ground (arith, enqueue_cases b)

  pub enqueue_running : (b : Batcher p) → (enqueue b).running ≡ b.running
  enqueue_running b = ground (arith, enqueue_cases b)

  pub run_batcher_cons :
      (batch_size : ℕ) (b : Batcher p) (e : Event p) (es : List (Event p))
      → b.running ≡ true
      → run_batcher batch_size b (e ∷ es) ≡ run_batcher batch_size (handle batch_size b e) es
  unfolding run_batcher
  run_batcher_cons batch_size b e es h = simp h

  pub handle_full :
      (batch_size : ℕ) (b : Batcher p) (r : ProbeResult p)
      → leb batch_size (length (b.buffer ++ r ∷ [])) ≡ true
      → handle batch_size b (completed r) ≡ enqueue (record b { buffer = b.buffer ++ r ∷ [] })
  unfolding handle
  handle_full batch_size b r h = simp h

  pub handle_room :
      (batch_size : ℕ) (b : Batcher p) (r : ProbeResult p)
      → leb batch_size (length (b.buffer ++ r ∷ [])) ≡ false
      → handle batch_size b (completed r) ≡ record b { buffer = b.buffer ++ r ∷ [] }
  unfolding handle
  handle_room batch_size b r h = simp h

  handle_lagged : (batch_size : ℕ) (b : Batcher p) (n : ℕ) → handle batch_size b (lagged n) ≡ b
  unfolding handle
  handle_lagged batch_size b n = refl

  handle-deadline : (batch_size : ℕ) (b : Batcher p) → handle batch_size b deadline ≡ enqueue b
  unfolding handle
  handle-deadline batch_size b = refl

  -- The hub's end: one last flush, and the queue is closed.
  closing-Delivers :
      (batch_size : ℕ) (b : Batcher p)
      → length b.buffer < batch_size
      → Delivers batch_size b [] true (handle batch_size b hub_closed)
  unfolding handle
  closing-Delivers batch_size b h = elim (enqueue_cases b) [
    | inl (none_, e) ↦ record {
      chunks = [];
      content = rw (enqueue_buffer b, none_);
      queued = simp e;
      sizes = tt;
      small = rw (enqueue_buffer b) (omega arith);
      emptied = λ _. enqueue_buffer b;
    }
    | inr (some_, e) ↦ record {
      chunks = b.buffer ∷ [];
      content = rw (enqueue_buffer b) (append-nil (b.buffer ++ []));
      queued = simp e;
      sizes = ((some_, omega arith), tt);
      small = rw (enqueue_buffer b) (omega arith);
      emptied = λ _. enqueue_buffer b;
    }
  ]

  -- For a running batcher whose buffer is smaller than the batch size and any events: the batches
  -- it queued and its buffer, concatenated, are what it had buffered and then received, in order;
  -- batches are pushed one after another with one to batch_size results each; and when the hub
  -- closes nothing stays buffered and the queue is closed.
  pub run_batcher-Delivers :
      (batch_size : ℕ) (b : Batcher p) (es : List (Event p))
      → length b.buffer < batch_size
      → b.running ≡ true
      → Delivers batch_size b (received es) (closes es) (run_batcher batch_size b es)
  run_batcher-Delivers batch_size b [] h k =
      unfold run_batcher in
      record {
        chunks = [];
        content = sym (append-nil b.buffer);
        queued = refl;
        sizes = tt;
        small = h;
        emptied = λ e. cc;
      }
  run_batcher-Delivers batch_size b (completed r ∷ es) h k =
      let b1 = record b { buffer = b.buffer ++ r ∷ [] } in
      let len = length-append b.buffer (r ∷ []) in
      Delivers-keep batch_size b (b.buffer ++ r ∷ []) (r ∷ received es) (received es) (closes es) _
        (sym (append_assoc b.buffer (r ∷ []) (received es)))
        (rw (run_batcher_cons batch_size b (completed r) es k)
          (elim (Bool-cases (leb batch_size (length b1.buffer))) [
            | inl full ↦ rw (handle_full batch_size b r full) (
                Delivers-enqueue batch_size b1 (received es) (closes es) _ (omega (arith, len)) (
                  run_batcher-Delivers batch_size (enqueue b1) es
                    (rw (enqueue_buffer b1) (omega arith)) (enqueue_running b1 ∙ k)))
            | inr room ↦
                rw (handle_room batch_size b r room)
                  (run_batcher-Delivers batch_size b1 es (ground arith) k)
          ]))
  run_batcher-Delivers batch_size b (lagged n ∷ es) h k =
      rw (run_batcher_cons batch_size b (lagged n) es k, handle_lagged batch_size b n)
        (run_batcher-Delivers batch_size b es h k)
  run_batcher-Delivers batch_size b (hub_closed ∷ es) h k =
      rw
        (
          run_batcher_cons batch_size b hub_closed es k,
          run_batcher_stopped batch_size (handle batch_size b hub_closed) es
              (unfold handle in refl),
        )
        (closing-Delivers batch_size b h)
  run_batcher-Delivers batch_size b (deadline ∷ es) h k =
      rw (run_batcher_cons batch_size b deadline es k, handle-deadline batch_size b)
        (Delivers-enqueue batch_size b (received es) (closes es) _ (omega arith) (
          run_batcher-Delivers batch_size (enqueue b) es (rw (enqueue_buffer b) (omega arith))
            (enqueue_running b ∙ k)))
