-- ===== src/System/Start/Enabled.antt =====
-- huginn/src/main.rs: `run` starts exactly what the configuration asks for, or does not start.
use huginn_io.Core.Anyhow.{
  Outcome, refused, fine, if_enabled, fine-injective, context_fine_iff, of_result_fine_iff,
  Outcome-cases,
}
use huginn_io.Core.Config.Address.{Parsers, health_bind}
use huginn_io.Core.Config.Secrets.Closed.{Guards, read_api_key_iff}
use huginn_io.Core.Config.Secrets.{read_api_key}
use huginn_io.Core.Config.{UiConfig, MetricsConfig, HealthConfig, InfluxConfig, AppConfig}
use huginn_io.Core.Error.{Result-cases}
use huginn_io.Core.Platform.{Platform}
use huginn_io.Influx.Client.{InfluxWriter}
use huginn_io.Influx.Client.Ready.{IsWriter, new_writer_iff}
use huginn_io.Prelude.{
  ↔_trans, ◌≡◌, ◌↔◌, refl, sym, ap, subst, ◌∙◌, Bool, true, false, ◌||◌, List, [], Option, none,
  some, arith, Text, inl, inr, Bool-cases,
}
use huginn_io.System.Start.{
  Outside, WebTasks, holding, start_health, start_writer, start_ui, bound_metrics, start_metrics,
  start_listeners, start_web, all_started, start_pipeline, retry_config, Started, start,
}
use huginn_io.System.{start_loops}
use huginn_io.Web.Listeners.Bound.{Binds, bind_health_iff, bind_ui_iff, bind_metrics_iff}
use huginn_io.Web.Listeners.{Listener, bind_metrics}

-- What is on if it is enabled, and is then as it should be.
abbrev pub Enabled : {A : Type 0} → Bool → (A → Type 0) → Option A → Type 0
Enabled true P (some a) = P a
Enabled false P none = Unit
Enabled _ P _ = ⊥

if_enabled_fine_iff :
    {A : Type 0} (enabled : Bool) (step : Outcome A) (o : Option A)
    → (if_enabled enabled step ≡ fine o) ↔ Enabled enabled (λ a. step ≡ fine a) o
if_enabled_fine_iff false step none = ground arith
if_enabled_fine_iff false step (some a) = ground arith
if_enabled_fine_iff true (refused why) none = ground arith
if_enabled_fine_iff true (refused why) (some a) = ground arith
if_enabled_fine_iff true (fine b) none = ground arith
if_enabled_fine_iff true (fine b) (some a) = ground arith

Enabled-iff :
    {A : Type 0} (enabled : Bool) (P Q : A → Type 0) (o : Option A)
    → ((a : A) → P a ↔ Q a)
    → Enabled enabled P o ↔ Enabled enabled Q o
Enabled-iff true P Q none f = (λ h. h, λ h. h)
Enabled-iff true P Q (some a) f = f a
Enabled-iff false P Q none f = (λ h. h, λ h. h)
Enabled-iff false P Q (some a) f = (λ h. h, λ h. h)

Enabled-off :
    {A : Type 0} (enabled : Bool) (P : A → Type 0) (o : Option A)
    → enabled ≡ false
    → Enabled enabled P o ↔ (o ≡ none)
Enabled-off true P o e = absurd (ground (arith, e))
Enabled-off false P none e = (λ h. refl, λ h. tt)
Enabled-off false P (some a) e = (λ h. absurd h, λ h. ground arith)

||_false : (a b : Bool) → (a || b) ≡ false → (a ≡ false) × (b ≡ false)
||_false a b e = ground arith

-- A bound metrics listener, and the key that guards it.
abbrev pub BindsGuarded :
    Parsers → Outside → List Listener → MetricsConfig → Listener × Option Text → Type 0
BindsGuarded n o held metrics (l, key) =
    Guards o.files metrics.api_key_file key × Binds n (o.bind_tcp held) metrics.bind metrics.port l

module _ (n : Parsers) (o : Outside) where
  start_health_iff :
      (health : HealthConfig) (l : Option Listener)
      → (start_health n o health ≡ fine l)
        ↔ Enabled health.enabled (Binds n (o.bind_tcp []) health_bind health.port) l
  unfolding start_health
  start_health_iff health l = ↔_trans (if_enabled_fine_iff health.enabled _ l) (
      Enabled-iff health.enabled _ _ l (λ a.
        ↔_trans (context_fine_iff _ _ a)
          (bind_health_iff n (o.bind_tcp []) health_bind health.port a)))

  start_ui_iff :
      (held : List Listener) (ui : UiConfig) (l : Option Listener)
      → (start_ui n o held ui ≡ fine l)
        ↔ Enabled ui.enabled (Binds n (o.bind_tcp held) ui.bind ui.port) l
  unfolding start_ui
  start_ui_iff held ui l = ↔_trans (if_enabled_fine_iff ui.enabled _ l) (
      Enabled-iff ui.enabled _ _ l
        (λ a. ↔_trans (context_fine_iff _ _ a) (bind_ui_iff n (o.bind_tcp held) ui.bind ui.port a)))

  start_writer_iff :
      (influx : InfluxConfig) (w : InfluxWriter)
      → (start_writer o influx ≡ fine w) ↔ IsWriter o.files o.client influx w
  unfolding start_writer
  start_writer_iff influx w =
      ↔_trans (context_fine_iff _ _ w)
        (↔_trans (of_result_fine_iff _ w) (new_writer_iff o.files influx o.client w))

  bound_metrics_iff :
      (held : List Listener) (metrics : MetricsConfig) (l : Listener) (key : Option Text)
      → (bound_metrics n o held metrics ≡ fine (l, key)) ↔ BindsGuarded n o held metrics (l, key)
  unfolding bound_metrics
  bound_metrics_iff held metrics l key =
      let k = read_api_key_iff o.files metrics in
      let b = bind_metrics_iff n (o.bind_tcp held) metrics.bind metrics.port in
      elim (Result-cases (read_api_key o.files metrics)) [
        | inl (why, e) ↦
            (λ h. absurd (ground (arith, e)), λ r. absurd (ground (arith, e, (k key).1 r.0)))
        | inr (found, e) ↦
            elim (Outcome-cases (bind_metrics n (o.bind_tcp held) metrics.bind metrics.port)) [
              | inl (why, f) ↦ (
                λ h. absurd (ground (arith, e, f)),
                λ r. absurd (ground (arith, e, f, (b l).1 r.1)),
              )
              | inr (bound, f) ↦ (
                λ h. (
                  subst (Guards o.files metrics.api_key_file) (ground (arith, e, f))
                      ((k found).0 e),
                  subst (Binds n (o.bind_tcp held) metrics.bind metrics.port) (ground (arith, e, f))
                      ((b bound).0 f),
                ),
                λ r. ground (arith, e, f, (k key).1 r.0, (b l).1 r.1),
              )
            ]
      ]

  start_metrics_iff :
      (held : List Listener) (metrics : MetricsConfig) (b : Option (Listener × Option Text))
      → (start_metrics n o held metrics ≡ fine b)
        ↔ Enabled metrics.enabled (BindsGuarded n o held metrics) b
  unfolding start_metrics
  start_metrics_iff held metrics b =
      ↔_trans (if_enabled_fine_iff metrics.enabled _ b)
        (Enabled-iff metrics.enabled _ _ b (λ (l, key). bound_metrics_iff held metrics l key))

  -- Both listeners as they were asked for, and the web state follows the hub if there is one.
  pub record IsServing (held : List Listener) (ui : UiConfig) (metrics : MetricsConfig)
      (web : WebTasks) : Type 0 where
    pub ui_bound : Enabled ui.enabled (Binds n (o.bind_tcp held) ui.bind ui.port) web.ui
    pub metrics_bound :
        Enabled metrics.enabled (BindsGuarded n o (holding web.ui held) metrics) web.metrics
    pub follows : web.follows_hub ≡ (ui.enabled || metrics.enabled)

  start_listeners_iff :
      (held : List Listener) (ui : UiConfig) (metrics : MetricsConfig) (web : WebTasks)
      → (start_listeners n o held ui metrics ≡ fine web) ↔ (
          (start_ui n o held ui ≡ fine web.ui)
          × (start_metrics n o (holding web.ui held) metrics ≡ fine web.metrics)
          × (web.follows_hub ≡ true))
  unfolding start_listeners
  start_listeners_iff held ui metrics web = elim (Outcome-cases (start_ui n o held ui)) [
    | inl (why, e) ↦ (λ h. absurd (ground (arith, e)), λ r. absurd (ground (arith, e)))
    | inr (l, e) ↦ elim (Outcome-cases (start_metrics n o (holding l held) metrics)) [
      | inl (why, f) ↦ (λ h. absurd (ground (arith, e, f)), λ r. absurd (ground (arith, e, f)))
      | inr (b, f) ↦ (λ h. ground (arith, e, f), λ r. ground (arith, e, f))
    ]
  ]

  start_web_iff :
      (held : List Listener) (ui : UiConfig) (metrics : MetricsConfig) (web : WebTasks)
      → (start_web n o held ui metrics ≡ fine web) ↔ IsServing held ui metrics web
  unfolding start_web
  start_web_iff held ui metrics web =
      let u = start_ui_iff held ui web.ui in
      let m = start_metrics_iff (holding web.ui held) metrics web.metrics in
      let both = start_listeners_iff held ui metrics web in
      elim (Bool-cases (ui.enabled || metrics.enabled)) [
        | inl on ↦ (
          λ h.
              let b = both.0 (rw on at h) in
              record { ui_bound = u.0 b.0; metrics_bound = m.0 b.1; follows = b.2 ∙ sym on },
          λ r. rw on (both.1 (u.1 r.ui_bound, m.1 r.metrics_bound, r.follows ∙ on)),
        )
        | inr off ↦
            let offs = ||_false ui.enabled metrics.enabled off in
            let ui_off =
              Enabled-off ui.enabled (Binds n (o.bind_tcp held) ui.bind ui.port) web.ui offs.0 in
            let metrics_off =
              Enabled-off metrics.enabled (BindsGuarded n o (holding web.ui held) metrics)
                web.metrics offs.1 in
            (
              λ h.
                  let e = fine-injective _ web (rw off at h) in
                  record {
                    ui_bound = ui_off.1 (sym (ap (λ w. w.ui) e));
                    metrics_bound = metrics_off.1 (sym (ap (λ w. w.metrics) e));
                    follows = sym (ap (λ w. w.follows_hub) e) ∙ sym off;
                  },
              λ r. rw off (
                  ground
                    (arith, ui_off.0 r.ui_bound, metrics_off.0 r.metrics_bound, r.follows, off)),
            )
      ]

-- What runs once the program has started: every listener that is enabled and no other, bound to its
-- configured address and port while those before it are held, the metrics endpoint with the key of
-- its file; the writer with the token of its file; and the tasks around an empty queue, and one
-- loop for each probe.
pub record IsStarted {p : Platform} (n : Parsers) (o : Outside) (cfg : AppConfig p) (s : Started p)
    : Type 0 where
  pub health :
      Enabled cfg.health.enabled (Binds n (o.bind_tcp []) health_bind cfg.health.port) s.health
  pub writer : IsWriter o.files o.client cfg.influx s.writer
  pub web : IsServing n o (holding s.health []) cfg.ui cfg.metrics s.web
  pub pipeline : s.pipeline ≡ start_pipeline cfg.influx
  pub writer_config : s.writer_config ≡ retry_config cfg.influx
  pub loops : s.loops ≡ start_loops cfg.probes

-- The program starts exactly if every enabled listener can be bound to its configured address and
-- port, the health listener first, the debug UI next to it and the metrics endpoint next to both,
-- the token file holds a token, the HTTP client can be built, and the key file of an enabled
-- metrics endpoint, if one is named, holds a key. What then runs is each of these and no other
-- listener, the metrics endpoint with the key of its file, the web state if a web listener is on,
-- both writer tasks around an empty queue, and one loop per probe.
pub start_iff :
    {p : Platform} (n : Parsers) (o : Outside) (cfg : AppConfig p) (s : Started p)
    → (start n o cfg ≡ fine s) ↔ IsStarted n o cfg s
unfolding start all_started
start_iff n o cfg s =
    let h = start_health_iff n o cfg.health s.health in
    let w = start_writer_iff n o cfg.influx s.writer in
    let b = start_web_iff n o (holding s.health []) cfg.ui cfg.metrics s.web in
    elim (Outcome-cases (start_health n o cfg.health)) [
      | inl (why, e) ↦
          (λ r. absurd (ground (arith, e)), λ r. absurd (ground (arith, e, h.1 r.health)))
      | inr (l, e) ↦ elim (Outcome-cases (start_writer o cfg.influx)) [
        | inl (why, f) ↦
            (λ r. absurd (ground (arith, e, f)), λ r. absurd (ground (arith, f, w.1 r.writer)))
        | inr (x, f) ↦ elim (Outcome-cases (start_web n o (holding l []) cfg.ui cfg.metrics)) [
          | inl (why, g) ↦
              (λ r. absurd (ground (arith, e, f, g)), λ r. absurd (ground (arith, g, b.1 r.web)))
          | inr (y, g) ↦ (
            λ r. record {
              health = h.0 (ground (arith, e, f, g));
              writer = w.0 (ground (arith, e, f, g));
              web = b.0 (ground (arith, e, f, g));
              pipeline = ground (arith, e, f, g);
              writer_config = ground (arith, e, f, g);
              loops = ground (arith, e, f, g);
            },
            λ r. ground (
              arith,
              e,
              f,
              g,
              h.1 r.health,
              w.1 r.writer,
              b.1 r.web,
              r.pipeline,
              r.writer_config,
              r.loops,
            ),
          )
        ]
      ]
    ]
