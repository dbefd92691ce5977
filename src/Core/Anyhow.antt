-- ===== src/Core/Anyhow.antt =====
-- The errors that crates/huginn-web and huginn/src/main.rs return (`anyhow::Result`): a cause, and
-- the contexts that were put around it.
use huginn_io.Core.Error.{HuginError, Foreign, value, failed, Result, ok, err}
use huginn_io.Prelude.{
  Bool, true, false, List, [], ◌∷◌, Option, none, some, Text, ◌≡◌, ◌↔◌, ◌⊎◌, inl, inr, refl, ap,
}

pub data Cause : Type 0 where
  message : Text → Cause
  hugin : HuginError → Cause

-- The outermost context first.
pub record AnyError : Type 0 where
  pub contexts : List Text
  pub cause : Cause

pub data Outcome {κ} (Found : Type κ) : Type κ where
  refused : AnyError → Outcome Found
  fine : Found → Outcome Found

-- `step?`, and then `next` with what it found.
infixl 5 ◌>>=◌
abbrev pub ◌>>=◌ {κ ℓ} :
    {Found : Type κ} {Next : Type ℓ} (step : Outcome Found) (next : Found → Outcome Next)
    → Outcome Next
refused why >>= next = refused why
fine found >>= next = next found

-- `bail!`
abbrev pub bail {κ} : {Found : Type κ} → Text → Outcome Found
bail text = refused (record { contexts = []; cause = message text })

-- `.context(..)` and `.with_context(..)`
abbrev pub context {κ} : {Found : Type κ} → Text → Outcome Found → Outcome Found
context text (fine found) = fine found
context text (refused why) = refused (record why { contexts = text ∷ why.contexts })

-- What another library's call, the program's own result and the parser of addresses come to.
abbrev pub of_foreign {κ} : {Found : Type κ} → Foreign Found → Outcome Found
of_foreign (value found) = fine found
of_foreign (failed e) = bail e

abbrev pub of_result {κ} : {Found : Type κ} → Result Found → Outcome Found
of_result (ok found) = fine found
of_result (err e) = refused (record { contexts = []; cause = hugin e })

abbrev pub of_option {κ} : {Found : Type κ} → Text → Option Found → Outcome Found
of_option text (some found) = fine found
of_option text none = bail text

-- `if enabled { Some(step?) } else { None }`
abbrev pub if_enabled {κ} : {Found : Type κ} → Bool → Outcome Found → Outcome (Option Found)
if_enabled true step = step >>= λ found. fine (some found)
if_enabled false step = fine none

-- A chain that found something found something at each step.
pub fine_chain {κ ℓ} :
    {Found : Type κ} {Next : Type ℓ} (step : Outcome Found) (next : Found → Outcome Next)
    {end : Next}
    → (step >>= next) ≡ fine end
    → (found : Found) × (next found ≡ fine end) × (step ≡ fine found)
fine_chain (refused why) next chain = cc
fine_chain (fine found) next chain = (found, chain, refl)

found_or {κ} : {Found : Type κ} → Found → Outcome Found → Found
found_or other (fine found) = found
found_or other (refused why) = other

pub fine-injective {κ} : {Found : Type κ} (a b : Found) → fine a ≡ fine b → a ≡ b
unfolding found_or
fine-injective a b e = ap (found_or a) e

pub context_fine_iff {κ} :
    {Found : Type κ} (text : Text) (step : Outcome Found) (found : Found)
    → (context text step ≡ fine found) ↔ (step ≡ fine found)
context_fine_iff text (fine x) found = (λ e. e, λ e. e)
context_fine_iff text (refused why) found = (λ e. cc, λ e. cc)

pub of_foreign_fine_iff {κ} :
    {Found : Type κ} (call : Foreign Found) (found : Found)
    → (of_foreign call ≡ fine found) ↔ (call ≡ value found)
of_foreign_fine_iff (value x) found =
    (λ e. ap value (fine-injective x found e), λ e. ap of_foreign e)
of_foreign_fine_iff (failed why) found = (λ e. cc, λ e. cc)

pub Foreign-cases {κ} :
    {Found : Type κ} (call : Foreign Found)
    → ((why : Text) × (call ≡ failed why)) ⊎ ((found : Found) × (call ≡ value found))
Foreign-cases (value found) = inr (found, refl)
Foreign-cases (failed why) = inl (why, refl)

pub of_result_fine_iff {κ} :
    {Found : Type κ} (r : Result Found) (found : Found)
    → (of_result r ≡ fine found) ↔ (r ≡ ok found)
of_result_fine_iff (ok x) found = (λ e. ap ok (fine-injective x found e), λ e. ap of_result e)
of_result_fine_iff (err why) found = (λ e. cc, λ e. cc)

pub Outcome-cases {κ} :
    {Found : Type κ} (o : Outcome Found)
    → ((why : AnyError) × (o ≡ refused why)) ⊎ ((found : Found) × (o ≡ fine found))
Outcome-cases (refused why) = inl (why, refl)
Outcome-cases (fine found) = inr (found, refl)
