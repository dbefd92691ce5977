-- ===== src/Web/Serve/Permits.antt =====
-- crates/huginn-web/src/serve.rs: the permits of `serve_with` against its connections.
use huginn_io.Prelude.{
  ℕ, suc, ◌+◌, ◌≤◌, ◌≡◌, ◌↔◌, inl, inr, refl, List, [], ◌∷◌, none, some, arith, length,
  length-append, Option-cases,
}
use huginn_io.Web.Serve.{
  SemaphoreApi, Server, Loop, acquiring, accepting, Happens, ask, accepted, accept_failed, closed,
  remove, start_server, acquire, end_task, serve_step, serve_with,
}

-- What tokio documents: a semaphore is created with so many permits, one that is taken is missing
-- until it is given back, and there is one to take exactly if the number is not zero.
pub record SemaphoreLaws (api : SemaphoreApi) : Type 0 where
  pub available : api.Semaphore → ℕ
  pub created : (n : ℕ) → available (api.new_semaphore n) ≡ n
  pub taken :
      (s s' : api.Semaphore) → api.try_acquire s ≡ some s' → available s ≡ suc (available s')
  pub none_left : (s : api.Semaphore) → api.try_acquire s ≡ none → available s ≡ 0
  pub given_back : (s : api.Semaphore) → available (api.release s) ≡ suc (available s)

-- The permit that the loop holds.
abbrev pub held : Loop → ℕ
held acquiring = 0
held accepting = 1

remove-length : (id : ℕ) (xs ys : List ℕ) → remove id xs ≡ some ys → length xs ≡ suc (length ys)
unfolding remove
remove-length id [] ys e = cc
remove-length id (x ∷ xs) ys e = elim (Option-cases (remove id xs)) [
  | inl f ↦ ground (arith, f)
  | inr (zs, f) ↦ ground (arith, f, remove-length id xs zs f)
]

module _ (api : SemaphoreApi) (laws : SemaphoreLaws api) where
  -- Every permit is free, with the loop, or with a task.
  abbrev pub Balanced : ℕ → Server api → Type 0
  Balanced max s = laws.available s.permits + held s.loop + length s.serving ≡ max

  end_task-Balanced :
      (max id : ℕ) (s : Server api)
      → Balanced max s
      → Balanced max (end_task api s (remove id s.serving))
  unfolding end_task
  end_task-Balanced max id s b = elim (Option-cases (remove id s.serving)) [
    | inl f ↦ rw f b
    | inr (ys, f) ↦
        rw f (ground (arith, b, laws.given_back s.permits, remove-length id s.serving ys f))
  ]

  step-Balanced :
      (max : ℕ) (s : Server api) (loop : Loop) (h : Happens)
      → s.loop ≡ loop
      → Balanced max s
      → Balanced max (serve_step api s loop h)
  unfolding serve_step acquire end_task
  step-Balanced max s acquiring ask e b = elim (Option-cases (api.try_acquire s.permits)) [
    | inl f ↦ rw f b
    | inr (permits, f) ↦ rw f (ground (arith, e, b, laws.taken s.permits permits f))
  ]
  step-Balanced max s accepting (accepted id) e b =
      ground (arith, e, b, length-append s.serving (id ∷ []))
  step-Balanced max s accepting accept_failed e b = ground (arith, e, b, laws.given_back s.permits)
  step-Balanced max s acquiring (closed id) e b = end_task-Balanced max id s b
  step-Balanced max s accepting (closed id) e b = end_task-Balanced max id s b
  step-Balanced max s acquiring (accepted id) e b = b
  step-Balanced max s acquiring accept_failed e b = b
  step-Balanced max s accepting ask e b = b

  run-Balanced :
      (max : ℕ) (s : Server api) (hs : List Happens)
      → Balanced max s
      → Balanced max (serve_with api s hs)
  unfolding serve_with
  run-Balanced max s [] b = b
  run-Balanced max s (h ∷ hs) b =
      run-Balanced max (serve_step api s s.loop h) hs (step-Balanced max s s.loop h refl b)

  admits_lem :
      (max : ℕ) (s : Server api)
      → Balanced max s
      → s.loop ≡ acquiring
      → ((serve_with api s (ask ∷ [])).loop ≡ accepting) ↔ (suc (length s.serving) ≤ max)
  unfolding serve_with serve_step acquire
  admits_lem max s b e = elim (Option-cases (api.try_acquire s.permits)) [
    | inl f ↦ (
      λ h. absurd (ground (arith, e, f, h)),
      λ h. absurd (ground (arith, e, b, h, laws.none_left s.permits f)),
    )
    | inr (permits, f) ↦
        (λ h. ground (arith, e, b, laws.taken s.permits permits f), λ h. ground (arith, e, f))
  ]

  -- What a listener promises at any time. It takes the next connection exactly if there is room.
  pub record Caps (max : ℕ) (s : Server api) : Type 0 where
    pub balanced : Balanced max s
    pub capped : length s.serving ≤ max
    pub admits :
        s.loop ≡ acquiring
        → ((serve_with api s (ask ∷ [])).loop ≡ accepting) ↔ (suc (length s.serving) ≤ max)

  Balanced-Caps : (max : ℕ) (s : Server api) → Balanced max s → Caps max s
  Balanced-Caps max s b = record {
    balanced = b;
    capped = omega (arith, b);
    admits = admits_lem max s b;
  }

  start_server-Balanced : (max : ℕ) → Balanced max (start_server api max)
  unfolding start_server
  start_server-Balanced max = omega (arith, laws.created max)

-- If the semaphore does what tokio documents, then after anything that can happen to a listener,
-- failed accepts and closed connections included, its permits are the free ones, the one of the
-- loop and one for each connection that is served; so no more connections are served than the
-- limit, and a loop that asks for a permit gets one exactly if there is room for a connection.
pub serve_with-Caps :
    (api : SemaphoreApi) (laws : SemaphoreLaws api) (max : ℕ) (hs : List Happens)
    → Caps api laws max (serve_with api (start_server api max) hs)
serve_with-Caps api laws max hs =
    Balanced-Caps api laws max _
      (run-Balanced api laws max (start_server api max) hs (start_server-Balanced api laws max))
