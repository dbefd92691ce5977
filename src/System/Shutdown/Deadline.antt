-- ===== src/System/Shutdown/Deadline.antt =====
-- huginn/src/main.rs: `stop_probes` against its one deadline.
use huginn_io.Prelude.{
  ℕ, ◌+◌, ◌≤◌, ◌≡◌, ◌↔◌, ◌⊎◌, inl, inr, refl, ap, Bool, true, List, [], ◌∷◌, Option, none, some,
  arith, All, Bool-cases,
}
use huginn_io.System.Shutdown.{JoinHandle, await_handle, await_handles, abort_all, stop_probes}

-- The task ends by itself, no later than this.
abbrev pub EndsBy : ℕ → Option ℕ → Type 0
EndsBy deadline none = ⊥
EndsBy deadline (some at) = at ≤ deadline

-- A test with the time that it took: it holds exactly when the tasks end in time, and no time after
-- the deadline was waited.
record Waits (deadline now : ℕ) (InTime : Type 0) (r : Bool × ℕ) : Type 0 where
  decides : (r.0 ≡ true) ↔ InTime
  onward : now ≤ r.1
  within : r.1 ≤ deadline

await_handle-Waits :
    (deadline now : ℕ) (o : Option ℕ)
    → now ≤ deadline
    → Waits deadline now (EndsBy deadline o) (await_handle deadline now o)
unfolding await_handle
await_handle-Waits deadline now none h = record {
  decides = ground arith;
  onward = omega arith;
  within = omega arith;
}
await_handle-Waits deadline now (some at) h = record {
  decides = ground arith;
  onward = ground arith;
  within = ground arith;
}

abbrev pub AllEndBy : ℕ → List JoinHandle → Type 0
AllEndBy deadline = All (λ h. EndsBy deadline h.ends_at)

await_handles-Waits :
    (deadline now : ℕ) (hs : List JoinHandle)
    → now ≤ deadline
    → Waits deadline now (AllEndBy deadline hs) (await_handles deadline now hs)
unfolding await_handles
await_handles-Waits deadline now [] h = record {
  decides = (λ e. tt, λ e. refl);
  onward = omega arith;
  within = h;
}
await_handles-Waits deadline now (x ∷ hs) h =
    let first = await_handle-Waits deadline now x.ends_at h in
    let rest =
      await_handles-Waits deadline (await_handle deadline now x.ends_at).1 hs first.within in
    elim (Bool-cases (await_handle deadline now x.ends_at).0) [
      | inl on ↦ rw on (record {
        decides = (λ e. (first.decides.0 on, rest.decides.0 e), λ a. rest.decides.1 a.1);
        onward = omega (arith, first.onward, rest.onward);
        within = rest.within;
      })
      | inr late ↦ rw late (record {
        decides = (
          λ e. absurd (ground (arith, e, late)),
          λ a. absurd (ground (arith, first.decides.1 a.0, late)),
        );
        onward = first.onward;
        within = first.within;
      })
    ]

-- The task no longer holds the hub once the deadline is over.
abbrev pub LetGo : ℕ → JoinHandle → Type 0
LetGo deadline h = EndsBy deadline h.ends_at ⊎ (h.aborted ≡ true)

abort_all-LetGo : (deadline : ℕ) (hs : List JoinHandle) → All (LetGo deadline) (abort_all hs)
unfolding abort_all
abort_all-LetGo deadline [] = tt
abort_all-LetGo deadline (h ∷ hs) = (inr refl, abort_all-LetGo deadline hs)

EndsBy-LetGo :
    (deadline : ℕ) (hs : List JoinHandle) → AllEndBy deadline hs → All (LetGo deadline) hs
EndsBy-LetGo deadline [] a = tt
EndsBy-LetGo deadline (h ∷ hs) a = (inl a.0, EndsBy-LetGo deadline hs a.1)

-- The tasks behind the handles, each by when it ends.
abbrev pub tasks : List JoinHandle → List (Option ℕ)
tasks [] = []
tasks (h ∷ hs) = h.ends_at ∷ tasks hs

abort_all-tasks : (hs : List JoinHandle) → tasks (abort_all hs) ≡ tasks hs
unfolding abort_all
abort_all-tasks [] = refl
abort_all-tasks (h ∷ hs) = ap (◌∷◌ h.ends_at) (abort_all-tasks hs)

-- What `stop_probes` promises its caller.
pub record Stops (now grace : ℕ) (hs : List JoinHandle) (r : List JoinHandle × Bool × ℕ)
    : Type 0 where
  pub verdict : (r.1 ≡ true) ↔ AllEndBy (now + grace) hs
  pub left_alone : r.1 ≡ true → r.0 ≡ hs
  pub same : tasks r.0 ≡ tasks hs
  pub let_go : All (LetGo (now + grace)) r.0
  pub bounded : (now ≤ r.2) × (r.2 ≤ now + grace)

-- stop_probes returns within the grace period, however many probe loops there are; it says true
-- exactly if every loop ends by itself before one common deadline, and then aborts none; and in
-- either case the handles afterwards are of the same loops, one for one and in order, and none of
-- these has neither ended by the deadline nor been aborted.
pub stop_probes-Stops :
    (now grace : ℕ) (hs : List JoinHandle) → Stops now grace hs (stop_probes now grace hs)
unfolding stop_probes
stop_probes-Stops now grace [] = record {
  verdict = (λ e. tt, λ e. refl);
  left_alone = λ e. refl;
  same = refl;
  let_go = tt;
  bounded = (omega arith, omega arith);
}
stop_probes-Stops now grace (x ∷ xs) =
    let hs = x ∷ xs in
    let w = await_handles-Waits (now + grace) now hs (omega arith) in
    elim (Bool-cases (await_handles (now + grace) now hs).0) [
      | inl on ↦ record {
        verdict = w.decides;
        left_alone = λ e. rw on refl;
        same = rw on refl;
        let_go = rw on (EndsBy-LetGo (now + grace) hs (w.decides.0 on));
        bounded = (w.onward, w.within);
      }
      | inr late ↦ record {
        verdict = w.decides;
        left_alone = λ e. absurd (ground (arith, e, late));
        same = rw late (abort_all-tasks hs);
        let_go = rw late (abort_all-LetGo (now + grace) hs);
        bounded = (w.onward, w.within);
      }
    ]
