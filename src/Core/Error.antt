-- ===== src/Core/Error.antt =====
-- crates/huginn-core/src/error.rs: the errors, and the chaining of steps that may fail (`?`).
use huginn_io.Prelude.{Bool, true, false, Option, none, some, Text, ◌≡◌, ◌⊎◌, inl, inr, refl, ap}

-- `Io` and `Other` wrap foreign errors; they carry the text that they print.
pub data HuginError : Type 0 where
  config : Text → HuginError
  probe : Text → Text → HuginError
  influx : Text → HuginError
  io : Text → HuginError
  secret : Text → Text → HuginError
  other : Text → HuginError

-- A refusal, or what was asked for.
pub data Result {κ} (Found : Type κ) : Type κ where
  err : HuginError → Result Found
  ok : Found → Result Found

-- `step?`, and then `next` with what it found.
infixl 5 ◌>>=◌
abbrev pub ◌>>=◌ {κ ℓ} :
    {Found : Type κ} {Next : Type ℓ} (step : Result Found) (next : Found → Result Next)
    → Result Next
err why >>= next = err why
ok found >>= next = next found

-- `step?;` for a step that finds nothing.
infixl 5 ◌>>◌
abbrev pub ◌>>◌ {ℓ} : {Next : Type ℓ} (step : Result (Unit {0})) (next : Result Next) → Result Next
step >> next = step >>= (λ _. next)

-- A call of code outside the program: its value, or the text that its error prints.
pub data Foreign {ℓ} (A : Type ℓ) : Type ℓ where
  value : A → Foreign A
  failed : Text → Foreign A

-- `if bad { return Err(HuginError::Config(message)) }`
abbrev pub refuse_if : Bool → Text → Result (Unit {0})
refuse_if true message = err (config message)
refuse_if false message = ok tt

-- `.ok_or(HuginError::Config(message))?`
abbrev pub or_refuse {ℓ} : {A : Type ℓ} → Option A → Text → Result A
or_refuse none message = err (config message)
or_refuse (some a) message = ok a

-- A chain that found something found something at each step.
pub ok_chain {κ ℓ} :
    {Found : Type κ} {Next : Type ℓ} (step : Result Found) (next : Found → Result Next) {end : Next}
    → (step >>= next) ≡ ok end
    → (found : Found) × (next found ≡ ok end) × (step ≡ ok found)
ok_chain (err why) next chain = cc
ok_chain (ok found) next chain = (found, chain, refl)

value_or {ℓ} : {A : Type ℓ} → A → Result A → A
value_or a (ok b) = b
value_or a (err e) = a

pub ok-injective {ℓ} : {A : Type ℓ} (a b : A) → ok a ≡ ok b → a ≡ b
unfolding value_or
ok-injective a b e = ap (value_or a) e

pub Result-cases {ℓ} :
    {A : Type ℓ} (r : Result A) → ((why : HuginError) × (r ≡ err why)) ⊎ ((a : A) × (r ≡ ok a))
Result-cases (err why) = inl (why, refl)
Result-cases (ok a) = inr (a, refl)
