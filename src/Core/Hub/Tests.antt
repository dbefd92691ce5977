-- ===== src/Core/Hub/Tests.antt =====
-- A channel that keeps the last values of a list, and that it does what a broadcast channel should.
use huginn_io.Core.Hub.Lossless.{BroadcastLaws}
use huginn_io.Core.Hub.{Recv, event, lagged, empty, BroadcastApi}
use huginn_io.Prelude.{
  ℕ, zero, suc, ◌+◌, ◌-◌, ◌≤◌, ◌<◌, ◌≡◌, refl, List, [], ◌∷◌, ◌++◌, length, drop, arith, leb, ◌==◌,
  if◌then◌else◌,
}

drop_next :
    {A : Type 0} (n : ℕ) (xs : List A) → n < length xs → (x : A) × (drop n xs ≡ x ∷ drop (suc n) xs)
drop_next zero [] h = absurd (omega arith)
drop_next zero (x ∷ xs) h = (x, refl)
drop_next (suc n) [] h = absurd (omega arith)
drop_next (suc n) (x ∷ xs) h = drop_next n xs (omega arith)

pub record ListChannel (A : Type 0) : Type 0 where
  pub sent : List A
  pub room : ℕ

pub next_value : {A : Type 0} → List A → ℕ → Recv A × ℕ
next_value [] r = (empty, r)
next_value (x ∷ xs) r = (event x, suc r)

pub receive : {A : Type 0} → ListChannel A → ℕ → Recv A × ℕ
unfolding next_value
receive c r =
    if r == length c.sent
    then (empty, r)
    else if leb (length c.sent) (r + c.room)
    then next_value (drop r c.sent) r
    else (lagged (length c.sent - c.room - r), length c.sent - c.room)

abbrev pub list_api : (A : Type 0) → BroadcastApi A
list_api A = record {
  Channel = ListChannel A;
  Receiver = ℕ;
  channel = λ n. record { sent = []; room = n };
  send = λ c e. record { sent = c.sent ++ e ∷ []; room = c.room };
  subscribe = λ c. length c.sent;
  recv = receive;
}

module _ {A : Type 0} where
  pub list_waits : (c : ListChannel A) (r : ℕ) → r ≡ length c.sent → receive c r ≡ (empty, r)
  unfolding receive
  list_waits c r h = ground arith

  pub list_gives :
      (c : ListChannel A) (r : ℕ)
      → r < length c.sent
      → length c.sent ≤ r + c.room
      → (e : A) × (r' : ℕ) × (receive c r ≡ (event e, r'))
        × (r' ≡ suc r)
        × (drop r c.sent ≡ e ∷ drop r' c.sent)
  unfolding receive next_value
  list_gives c r h k = let (x, e) = drop_next r c.sent h in (x, suc r, ground (arith, e), refl, e)

  pub list_lags :
      (c : ListChannel A) (r : ℕ)
      → r + c.room < length c.sent
      → (r' : ℕ) × (receive c r ≡ (lagged (length c.sent - c.room - r), r'))
        × (r' ≡ length c.sent - c.room)
  unfolding receive
  list_lags c r h = (length c.sent - c.room, ground arith, refl)

abbrev pub list_laws : (A : Type 0) → BroadcastLaws (list_api A)
list_laws A = record {
  log = λ c. c.sent;
  kept = λ c. c.room;
  seen = λ r. r;
  created = λ n. (refl, omega arith);
  logged = λ c e. (refl, refl);
  subscribed = λ c. refl;
  waits = list_waits;
  gives = list_gives;
  lags = list_lags;
}
