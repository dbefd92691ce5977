-- ===== src/System/Start/Tests.antt =====
-- The theorems on the start at small configurations.
use huginn_io.Core.Anyhow.{fine}
use huginn_io.Core.Config.Address.{health_addr, health_bind}
use huginn_io.Core.Config.Secrets.Closed.{Holds}
use huginn_io.Core.Config.Tests.{no_env, sample_load}
use huginn_io.Core.Config.{AppConfig, default_metrics}
use huginn_io.Core.Error.{value}
use huginn_io.Core.Samples.{sample_platform, sample_parsers, sample_config}
use huginn_io.Influx.Client.{write_url_of}
use huginn_io.Prelude.{
  ◌≡◌, ◌↔◌, ◌⊎◌, refl, true, false, [], Option, none, some, Text, codes, text_eq, trim, trim_start,
  trim_end, is_empty, is_whitespace,
}
use huginn_io.System.Start.Enabled.{IsStarted, start_iff}
use huginn_io.System.Start.Safe.{
  KeepApart, listener_of, start-closed, start-KeepApart, start-loaded,
}
use huginn_io.System.Start.{Outside, Started, start, start_pipeline, retry_config}
use huginn_io.System.{start_loops}
use huginn_io.Web.Auth.Bits.{Presents}
use huginn_io.Web.Auth.{handle_prometheus, exposition, unauthorized}
use huginn_io.Web.Listeners.{Listener}

-- Every port is free, and every file holds the same secret.
abbrev pub open_machine : Outside
open_machine = record {
  bind_tcp = λ held addr port. value tt;
  files = λ path. value (codes "s3\n");
  client = value tt;
}

abbrev health_listener : Listener
health_listener = record { addr = health_addr; port = 9115 }

abbrev pub sample_started : Started sample_platform
sample_started = record {
  health = some health_listener;
  writer = record { write_url = write_url_of sample_config.influx; token = codes "s3" };
  pipeline = start_pipeline sample_config.influx;
  writer_config = retry_config sample_config.influx;
  web = record { ui = none; metrics = none; follows_hub = false };
  loops = start_loops sample_config.probes;
}

start_iff_example :
    (start sample_parsers open_machine sample_config ≡ fine sample_started)
    ↔ IsStarted sample_parsers open_machine sample_config sample_started
start_iff_example = start_iff sample_parsers open_machine sample_config sample_started

-- The health listener's text is the loopback address.
loopback : sample_parsers.parse_ip health_bind ≡ some health_addr
unfolding text_eq
loopback = refl

secret_found : Holds (value (codes "s3\n")) (codes "s3")
unfolding trim trim_start trim_end is_empty is_whitespace
secret_found = (refl, refl)

pub sample_IsStarted : IsStarted sample_parsers open_machine sample_config sample_started
sample_IsStarted = record {
  health = record { reads = loopback; free = refl; same = refl };
  writer = record { token = secret_found; built = refl; write_url = refl };
  web = record { ui_bound = tt; metrics_bound = tt; follows = refl };
  pipeline = refl;
  writer_config = refl;
  loops = refl;
}

sample_start : start sample_parsers open_machine sample_config ≡ fine sample_started
sample_start =
    (start_iff sample_parsers open_machine sample_config sample_started).1 sample_IsStarted

start-KeepApart_example :
    KeepApart sample_started.web.ui (listener_of sample_started.web.metrics)
    × KeepApart sample_started.web.ui sample_started.health
    × KeepApart (listener_of sample_started.web.metrics) sample_started.health
start-KeepApart_example =
    start-KeepApart sample_parsers open_machine no_env (codes "c.yaml") (value [])
      (λ t. value sample_config) sample_config [] sample_started loopback sample_load sample_start

start-loaded_example :
    (s : Started sample_platform) × (start sample_parsers open_machine sample_config ≡ fine s)
start-loaded_example =
    start-loaded sample_parsers open_machine no_env (codes "c.yaml") (value [])
      (λ t. value sample_config) sample_config [] (codes "s3") none loopback sample_load
      (λ held addr port unheld. refl) refl secret_found refl

-- With a metrics listener that has a key file.
abbrev guarded_config : AppConfig sample_platform
guarded_config = record sample_config {
  metrics = record default_metrics { enabled = true; api_key_file = some (codes "key") };
}

abbrev metrics_listener : Listener
metrics_listener = record { addr = health_addr; port = 9464 }

abbrev guarded_started : Started sample_platform
guarded_started = record sample_started {
  web = record {
    ui = none;
    metrics = some (metrics_listener, some (codes "s3"));
    follows_hub = true;
  };
}

guarded_start : start sample_parsers open_machine guarded_config ≡ fine guarded_started
guarded_start = (start_iff sample_parsers open_machine guarded_config guarded_started).1 (record {
  health = record { reads = loopback; free = refl; same = refl };
  writer = record { token = secret_found; built = refl; write_url = refl };
  web = record {
    ui_bound = tt;
    metrics_bound = (secret_found, record { reads = loopback; free = refl; same = refl });
    follows = refl;
  };
  pipeline = refl;
  writer_config = refl;
  loops = refl;
})

start-closed_example :
    (found : Text) × Holds (open_machine.files (codes "key")) found
    × ((header : Option Text) (rendered : Text)
        → (Presents header found
            × (handle_prometheus (some (codes "s3")) header rendered ≡ exposition rendered))
          ⊎ ((¬ Presents header found)
              × (handle_prometheus (some (codes "s3")) header rendered ≡ unauthorized)))
start-closed_example =
    start-closed sample_parsers open_machine guarded_config guarded_started (codes "key")
      metrics_listener (some (codes "s3")) guarded_start refl refl
