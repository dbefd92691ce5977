-- ===== src/System/Start.antt =====
-- huginn/src/main.rs: how `run` starts the program, up to the wait for the shutdown signal. What
-- the file system, the system's sockets and reqwest come back with are inputs.
pub mod Enabled
pub mod Safe
pub mod Tests
use huginn_io.Core.Anyhow.{Outcome, fine, context, of_result, if_enabled, ◌>>=◌}
use huginn_io.Core.Config.Address.{Parsers, health_bind}
use huginn_io.Core.Config.Secrets.{read_api_key}
use huginn_io.Core.Config.{
  InfluxConfig, UiConfig, MetricsConfig, HealthConfig, AppConfig, ProbeConfig,
}
use huginn_io.Core.Error.{Foreign}
use huginn_io.Core.Platform.{Platform}
use huginn_io.Core.Stats.{default_stats}
use huginn_io.Influx.Client.{InfluxWriter, new_writer}
use huginn_io.Influx.Queue.{new}
use huginn_io.Influx.Writer.{Pipeline, WriterConfig, waiting}
use huginn_io.Prelude.{
  Bool, true, false, ◌||◌, List, [], ◌∷◌, Option, none, some, if◌then◌else◌, Text, codes,
}
use huginn_io.System.{ProbeLoop, start_loops}
use huginn_io.Web.Listeners.{Binder, Listener, bind_health, bind_ui, bind_metrics}

-- The system answers to a bind while the program holds the sockets that it has bound so far, so
-- that a bind can fail because of an earlier one.
pub record Outside : Type 0 where
  pub bind_tcp : List Listener → Binder
  pub files : Text → Foreign Text
  pub client : Foreign (Unit {0})

-- The two optional listeners, and whether the web state follows the hub. A metrics listener has the
-- key that it asks for, if any.
pub record WebTasks : Type 0 where
  pub ui : Option Listener
  pub metrics : Option (Listener × Option Text)
  pub follows_hub : Bool

-- The sockets that are held once this listener is bound, if it is.
abbrev pub holding : Option Listener → List Listener → List Listener
holding none held = held
holding (some l) held = l ∷ held

start_health : Parsers → Outside → HealthConfig → Outcome (Option Listener)
start_health n o health = if_enabled health.enabled (
    context (codes "Failed to start the health listener")
      (bind_health n (o.bind_tcp []) health_bind health.port))

start_writer : Outside → InfluxConfig → Outcome InfluxWriter
start_writer o influx =
    context (codes "Failed to initialise InfluxDB writer")
      (of_result (new_writer o.files o.client influx))

start_ui : Parsers → Outside → List Listener → UiConfig → Outcome (Option Listener)
start_ui n o held ui =
    if_enabled ui.enabled
      (context (codes "Failed to start the debug UI") (bind_ui n (o.bind_tcp held) ui.bind ui.port))

bound_metrics : Parsers → Outside → List Listener → MetricsConfig → Outcome (Listener × Option Text)
bound_metrics n o held metrics = do
  key ←
      context (codes "Failed to read the metrics API key file")
        (of_result (read_api_key o.files metrics))
  listener ←
      context (codes "Failed to start the Prometheus metrics listener")
        (bind_metrics n (o.bind_tcp held) metrics.bind metrics.port)
  fine (listener, key)

start_metrics :
    Parsers → Outside → List Listener → MetricsConfig → Outcome (Option (Listener × Option Text))
unfolding bound_metrics
start_metrics n o held metrics = if_enabled metrics.enabled (bound_metrics n o held metrics)

start_listeners : Parsers → Outside → List Listener → UiConfig → MetricsConfig → Outcome WebTasks
unfolding start_ui start_metrics
start_listeners n o held ui metrics = do
  ui_listener ← start_ui n o held ui
  metrics_bound ← start_metrics n o (holding ui_listener held) metrics
  fine (record { ui = ui_listener; metrics = metrics_bound; follows_hub = true })

start_web : Parsers → Outside → List Listener → UiConfig → MetricsConfig → Outcome WebTasks
unfolding start_listeners
start_web n o held ui metrics =
    if ui.enabled || metrics.enabled
    then start_listeners n o held ui metrics
    else fine (record { ui = none; metrics = none; follows_hub = false })

pub record Started (p : Platform) : Type 0 where
  pub health : Option Listener
  pub writer : InfluxWriter
  pub pipeline : Pipeline p
  pub writer_config : WriterConfig
  pub web : WebTasks
  pub loops : List (ProbeConfig p × ProbeLoop p)

pub retry_config : InfluxConfig → WriterConfig
retry_config influx = record {
  initial_backoff_ms = influx.retry_initial_backoff_ms;
  max_backoff_ms = influx.retry_max_backoff_ms;
}

module _ {p : Platform} where
  -- The queue of the batcher and the writer, empty, and both at their beginning.
  pub start_pipeline : InfluxConfig → Pipeline p
  start_pipeline influx = record {
    batcher = record {
      queue = new influx.max_buffered_bytes default_stats;
      buffer = [];
      next_id = 0;
      running = true;
    };
    phase = waiting;
  }

  -- What runs, once each part of it could be had.
  all_started : AppConfig p → Option Listener → InfluxWriter → WebTasks → Started p
  unfolding start_pipeline retry_config
  all_started cfg health writer web = record {
    health = health;
    writer = writer;
    pipeline = start_pipeline cfg.influx;
    writer_config = retry_config cfg.influx;
    web = web;
    loops = start_loops cfg.probes;
  }

  unfoldable pub start : Parsers → Outside → AppConfig p → Outcome (Started p)
  unfolding start_health start_writer start_web all_started
  start n o cfg = do
    health ← start_health n o cfg.health
    writer ← start_writer o cfg.influx
    web ← start_web n o (holding health []) cfg.ui cfg.metrics
    fine (all_started cfg health writer web)
