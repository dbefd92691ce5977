-- ===== src/Web/Serve/Tests.antt =====
-- The theorem on the permits at a small server.
use huginn_io.Prelude.{ℕ, zero, suc, ◌≡◌, refl, List, [], ◌∷◌, Option, none, some, arith}
use huginn_io.Web.Serve.Permits.{SemaphoreLaws, Caps, serve_with-Caps}
use huginn_io.Web.Serve.{
  SemaphoreApi, Happens, ask, accepted, accept_failed, closed, start_server, serve_with,
}

take_one : ℕ → Option ℕ
take_one zero = none
take_one (suc n) = some n

-- A semaphore is its number of free permits.
abbrev counter_api : SemaphoreApi
counter_api = record {
  Semaphore = ℕ;
  new_semaphore = λ n. n;
  try_acquire = take_one;
  release = λ n. suc n;
}

taken_one : (s s' : ℕ) → take_one s ≡ some s' → s ≡ suc s'
unfolding take_one
taken_one zero s' e = cc
taken_one (suc n) s' e = ground arith

none_left_lem : (s : ℕ) → take_one s ≡ none → s ≡ 0
unfolding take_one
none_left_lem zero e = refl
none_left_lem (suc n) e = cc

abbrev counter_laws : SemaphoreLaws counter_api
counter_laws = record {
  available = λ s. s;
  created = λ n. refl;
  taken = taken_one;
  none_left = none_left_lem;
  given_back = λ s. refl;
}

abbrev flood : List Happens
flood = ask ∷ accepted 7 ∷ ask ∷ accept_failed ∷ ask ∷ accepted 8 ∷ ask ∷ closed 7 ∷ closed 9 ∷ []

serve_with-Caps_example :
    Caps counter_api counter_laws 2 (serve_with counter_api (start_server counter_api 2) flood)
serve_with-Caps_example = serve_with-Caps counter_api counter_laws 2 flood
