-- ===== src/Web/Serve.antt =====
-- crates/huginn-web/src/serve.rs: `serve_with`. tokio's semaphore is a parameter; what the listener
-- accepts, and when hyper is done with a connection, are inputs.
pub mod Permits
mod Tests
use huginn_io.Prelude.{
  ℕ, suc, ◌≡◌, Bool, true, false, List, [], ◌∷◌, ◌++◌, Option, none, some, ◌==◌, if◌then◌else◌,
}

-- `Semaphore::new`, a permit taken if there is one, and a permit given back.
pub record SemaphoreApi : Type 1 where
  pub Semaphore : Type 0
  pub new_semaphore : ℕ → Semaphore
  pub try_acquire : Semaphore → Option Semaphore
  pub release : Semaphore → Semaphore

abbrev pub max_connections : ℕ
max_connections = 256

-- Where the loop stands: it awaits a permit, or it has one and awaits a connection.
pub data Loop : Type 0 where
  acquiring : Loop
  accepting : Loop

-- The connections that are served, by an id, each of whose tasks holds a permit.
pub record Server (api : SemaphoreApi) : Type 0 where
  pub permits : api.Semaphore
  pub loop : Loop
  pub serving : List ℕ

-- What can happen next: the loop asks for a permit, `accept` gives a connection or fails, and the
-- task of a connection ends: it is closed, or its head was not complete when the timeout ended.
pub data Happens : Type 0 where
  ask : Happens
  accepted : ℕ → Happens
  accept_failed : Happens
  closed : ℕ → Happens

-- The first task of this id ends, if there is one.
pub remove : ℕ → List ℕ → Option (List ℕ)
remove id [] = none
remove id (x ∷ xs) =
    let rest = remove id xs in
    if x == id then some xs else elim rest [ none ↦ none | some ys ↦ some (x ∷ ys) ]

module _ (api : SemaphoreApi) where
  -- `serve_with` before its loop.
  unfoldable pub start_server : ℕ → Server api
  start_server max = record { permits = api.new_semaphore max; loop = acquiring; serving = [] }

  acquire : Server api → Option api.Semaphore → Server api
  acquire s none = s
  acquire s (some permits) = record s { permits = permits; loop = accepting }

  end_task : Server api → Option (List ℕ) → Server api
  end_task s none = s
  end_task s (some serving) = record s { permits = api.release s.permits; serving = serving }

  serve_step : Server api → Loop → Happens → Server api
  unfolding acquire end_task
  serve_step s acquiring ask = acquire s (api.try_acquire s.permits)
  serve_step s accepting (accepted id) = record s {
    loop = acquiring;
    serving = s.serving ++ id ∷ [];
  }
  serve_step s accepting accept_failed = record s {
    permits = api.release s.permits;
    loop = acquiring;
  }
  serve_step s loop (closed id) = end_task s (remove id s.serving)
  serve_step s _ _ = s

  unfoldable pub serve_with : Server api → List Happens → Server api
  unfolding serve_step
  serve_with s [] = s
  serve_with s (h ∷ hs) = serve_with (serve_step s s.loop h) hs
