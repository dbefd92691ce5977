-- ===== src/System/Loop.antt =====
-- huginn/src/scheduler.rs: what `run_probe_loop` publishes, and its end.
use huginn_io.Core.Config.Address.{Parsers}
use huginn_io.Core.Config.{ProbeConfig, show_probe_type}
use huginn_io.Core.Platform.{Platform}
use huginn_io.Core.Types.{ProbeResult}
use huginn_io.Prelude.{
  ℕ, suc, ◌+◌, ◌≤◌, ◌≡◌, refl, sym, ap, ◌∙◌, append-nil, append_assoc, List, [], ◌∷◌, ◌++◌, arith,
  length, length-append, All, All-append,
}
use huginn_io.Probes.Registry.Contract.{IsAbout, execute_probe-IsAbout}
use huginn_io.Probes.Registry.{execute_probe}
use huginn_io.System.{
  Stage, between, probing, stopped, Signal, tick, finished, shutdown, ProbeLoop, react,
  run_probe_loop,
}

-- A probe that is on its way owes one result.
abbrev pub owed : Stage → ℕ
owed probing = 1
owed _ = 0

module _ {p : Platform} where
  abbrev pub ticks : List (Signal p) → ℕ
  ticks [] = 0
  ticks (tick ∷ as_) = suc (ticks as_)
  ticks (_ ∷ as_) = ticks as_

  ticks_cons : (a : Signal p) (as_ : List (Signal p)) → ticks (a ∷ as_) ≡ ticks (a ∷ []) + ticks as_
  ticks_cons tick as_ = omega arith
  ticks_cons (finished w now ms) as_ = omega arith
  ticks_cons shutdown as_ = omega arith

  -- The results between the two states: each about the probe, and no more than the ticks allow.
  pub record Publishes (cfg : ProbeConfig p) (n : ℕ) (s s' : ProbeLoop p) : Type 0 where
    pub new : List (ProbeResult p)
    pub appended : s'.published ≡ s.published ++ new
    pub about : All (IsAbout cfg (show_probe_type cfg.probe_type)) new
    pub few : length new + owed s'.stage ≤ n + owed s.stage

  Publishes-none :
      (cfg : ProbeConfig p) (n : ℕ) (s s' : ProbeLoop p)
      → s'.published ≡ s.published
      → owed s'.stage ≤ n + owed s.stage
      → Publishes cfg n s s'
  Publishes-none cfg n s s' e h = record {
    new = [];
    appended = e ∙ sym (append-nil s.published);
    about = tt;
    few = omega arith;
  }

  Publishes-trans :
      (cfg : ProbeConfig p) (m n : ℕ) (s t u : ProbeLoop p)
      → Publishes cfg m s t
      → Publishes cfg n t u
      → Publishes cfg (m + n) s u
  Publishes-trans cfg m n s t u a b = record {
    new = a.new ++ b.new;
    appended = b.appended ∙ ap (λ x. x ++ b.new) a.appended ∙ append_assoc s.published a.new b.new;
    about = All-append _ a.new b.new a.about b.about;
    few = omega (arith, a.few, b.few, length-append a.new b.new);
  }

  module _ (n : Parsers) (cfg : ProbeConfig p) where
    pub react-Publishes :
        (s : ProbeLoop p) (stage : Stage) (a : Signal p)
        → s.stage ≡ stage
        → Publishes cfg (ticks (a ∷ [])) s (react n cfg s stage a)
    unfolding react
    react-Publishes s between tick e = Publishes-none cfg 1 s _ refl (omega arith)
    react-Publishes s between shutdown e = Publishes-none cfg 0 s _ refl (omega arith)
    react-Publishes s probing (finished w now ms) e = record {
      new = execute_probe n w now ms cfg ∷ [];
      appended = refl;
      about = (execute_probe-IsAbout n w now ms cfg, tt);
      few = ground (arith, e);
    }
    react-Publishes s probing shutdown e = Publishes-none cfg 0 s _ refl (omega arith)
    react-Publishes s between (finished w now ms) e = Publishes-none cfg 0 s s refl (omega arith)
    react-Publishes s probing tick e = Publishes-none cfg 1 s s refl (omega arith)
    react-Publishes s stopped tick e = Publishes-none cfg 1 s s refl (omega arith)
    react-Publishes s stopped (finished w now ms) e = Publishes-none cfg 0 s s refl (omega arith)
    react-Publishes s stopped shutdown e = Publishes-none cfg 0 s s refl (omega arith)

    -- Over any signals, a probe loop publishes, behind what it had published, only results about
    -- its own probe, and the results together with the probe that is on its way are at most the
    -- ticks together with the probe that was on its way.
    pub run_probe_loop-Publishes :
        (s : ProbeLoop p) (as_ : List (Signal p))
        → Publishes cfg (ticks as_) s (run_probe_loop n cfg s as_)
    unfolding run_probe_loop
    run_probe_loop-Publishes s [] = Publishes-none cfg 0 s s refl (omega arith)
    run_probe_loop-Publishes s (a ∷ as_) = rw (ticks_cons a as_) (
        Publishes-trans cfg (ticks (a ∷ [])) (ticks as_) s (react n cfg s s.stage a) _
          (react-Publishes s s.stage a refl)
          (run_probe_loop-Publishes (react n cfg s s.stage a) as_))

    react_shutdown :
        (s : ProbeLoop p) (stage : Stage)
        → s.stage ≡ stage
        → react n cfg s stage shutdown ≡ (record s { stage = stopped })
    unfolding react
    react_shutdown s between e = refl
    react_shutdown s probing e = refl
    react_shutdown s stopped e = ap (λ x. record s { stage = x }) e

    react_stopped :
        (s : ProbeLoop p) (stage : Stage) (a : Signal p)
        → stage ≡ stopped
        → react n cfg s stage a ≡ s
    unfolding react
    react_stopped s stopped a e = refl
    react_stopped s between a e = cc
    react_stopped s probing a e = cc

    stopped_stays :
        (s : ProbeLoop p) (as_ : List (Signal p))
        → s.stage ≡ stopped
        → run_probe_loop n cfg s as_ ≡ s
    unfolding run_probe_loop
    stopped_stays s [] e = refl
    stopped_stays s (a ∷ as_) e =
        rw (react_stopped s s.stage a e, run_probe_loop) (stopped_stays s as_ e)

    -- From the shutdown signal on, whatever signals follow, the loop is stopped with exactly what
    -- it had published before: a probe that was on its way publishes nothing.
    pub run_probe_loop_shutdown :
        (s : ProbeLoop p) (as_ later : List (Signal p))
        → run_probe_loop n cfg s (as_ ++ shutdown ∷ later)
          ≡ (record (run_probe_loop n cfg s as_) { stage = stopped })
    unfolding run_probe_loop
    run_probe_loop_shutdown s [] later =
        rw (react_shutdown s s.stage refl, run_probe_loop)
          (stopped_stays (record s { stage = stopped }) later refl)
    run_probe_loop_shutdown s (a ∷ as_) later =
        run_probe_loop_shutdown (react n cfg s s.stage a) as_ later
