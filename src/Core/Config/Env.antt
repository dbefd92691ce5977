-- ===== src/Core/Config/Env.antt =====
-- crates/huginn-core/src/config.rs: `apply_env_overrides`, section by section in the order of the
-- source. The environment says what each variable is set to, if it is set and readable.
pub mod Overrides
use huginn_io.Prelude.{
  ℕ, ◌+◌, Bool, true, false, ◌&&◌, ◌||◌, List, [], ◌∷◌, ◌++◌, Option, none, some, leb,
  if◌then◌else◌, map, Text, codes, text_eq,
}
use huginn_io.Core.Config.Address.{Parsers, IpAddr}
use huginn_io.Core.Config.{
  InfluxConfig, UiConfig, MetricsConfig, LogConfig, LogFormat, pretty, json, AppConfig,
}
use huginn_io.Core.Decimal.{show_nat, parse_u16}
use huginn_io.Core.Platform.{Platform}

abbrev pub Env : Type 0
Env = Text → Option Text

-- `to_lowercase`, for the comparison with ASCII words that hold no `k`: no character beyond ASCII
-- has a lower case that is a letter of such a word and nothing else.
unfoldable pub to_lowercase : Text → Text
to_lowercase = map (λ c. if leb b'A' c && leb c b'Z' then c + 32 else c)

unfoldable pub parse_bool : Text → Option Bool
parse_bool v =
    let w = to_lowercase v in
    if text_eq w (codes "true") || text_eq w (codes "1")
    then some true
    else if text_eq w (codes "false") || text_eq w (codes "0")
    then some false
    else none

unfoldable pub parse_format : Text → Option LogFormat
parse_format v =
    let w = to_lowercase v in
    if text_eq w (codes "json")
    then some json
    else if text_eq w (codes "pretty")
    then some pretty
    else none

pub show_bool : Bool → Text
show_bool true = codes "true"
show_bool false = codes "false"

-- `{:?}`
pub show_format : LogFormat → Text
show_format pretty = codes "Pretty"
show_format json = codes "Json"

-- `{variable}='{v}' {problem} — keeping {key}={kept}`
pub warning : Text → Text → Text → Text → Text → Text
warning variable v problem key kept =
    variable
    ++ (codes "='"
        ++ (v ++ (codes "' " ++ (problem ++ (codes " — keeping " ++ (key ++ (b'=' ∷ kept)))))))

pub not_boolean : Text
not_boolean = codes "is not a boolean (expected true/false/1/0)"

pub not_ip : Text
not_ip = codes "is not a valid IP address"

pub not_port : Text
not_port = codes "is not a valid port"

pub not_format : Text
not_format = codes "is not a known format (expected json/pretty)"

-- A variable that is taken as it stands.
abbrev take_text : Option Text → Text → Text
take_text none old = old
take_text (some v) old = v

-- A variable that is parsed: the new value, or the old one with a warning.
unfoldable pub take_parsed :
    {A : Type 0} → (Text → Option A) → (Text → Text) → Option Text → A → A × List Text
take_parsed parse complain none old = (old, [])
take_parsed parse complain (some v) old = elim (parse v) [
  | some new ↦ (new, [])
  | none ↦ (old, complain v ∷ [])
]

-- A text that is kept as it was written, if it is an address.
unfoldable pub keep_ip : Parsers → Text → Option Text
keep_ip n v = elim (n.parse_ip v) [ some a ↦ some v | none ↦ none ]

unfoldable pub env_influx : Env → InfluxConfig → InfluxConfig
env_influx env c = record c {
  url = take_text (env (codes "INFLUX_URL")) c.url;
  org = take_text (env (codes "INFLUX_ORG")) c.org;
  bucket = take_text (env (codes "INFLUX_BUCKET")) c.bucket;
  token_file = take_text (env (codes "INFLUX_TOKEN_FILE")) c.token_file;
}

-- The three variables that both listeners have: `HUGINN_{NAME}_ENABLED`, `_BIND` and `_PORT`.
listener_enabled : Env → Text → Text → Bool → Bool × List Text
listener_enabled env variable key old =
    take_parsed parse_bool (λ v. warning variable v not_boolean key (show_bool old)) (env variable)
      old

listener_bind : Parsers → Env → Text → Text → Text → Text × List Text
unfolding keep_ip
listener_bind n env variable key old =
    take_parsed (keep_ip n) (λ v. warning variable v not_ip key old) (env variable) old

listener_port : Env → Text → Text → ℕ → ℕ × List Text
listener_port env variable key old =
    take_parsed parse_u16 (λ v. warning variable v not_port key (show_nat old)) (env variable) old

unfoldable pub env_ui : Parsers → Env → UiConfig → UiConfig × List Text
unfolding listener_enabled listener_bind listener_port
env_ui n env c =
    let enabled = listener_enabled env (codes "HUGINN_UI_ENABLED") (codes "ui.enabled") c.enabled in
    let bind = listener_bind n env (codes "HUGINN_UI_BIND") (codes "ui.bind") c.bind in
    let port = listener_port env (codes "HUGINN_UI_PORT") (codes "ui.port") c.port in
    (record { enabled = enabled.0; bind = bind.0; port = port.0 }, enabled.1 ++ (bind.1 ++ port.1))

take_some : Option Text → Option Text → Option Text
take_some none old = old
take_some (some v) old = some v

unfoldable pub env_metrics : Parsers → Env → MetricsConfig → MetricsConfig × List Text
unfolding listener_enabled listener_bind listener_port take_some
env_metrics n env c =
    let enabled =
      listener_enabled env (codes "HUGINN_METRICS_ENABLED") (codes "metrics.enabled") c.enabled in
    let bind = listener_bind n env (codes "HUGINN_METRICS_BIND") (codes "metrics.bind") c.bind in
    let port = listener_port env (codes "HUGINN_METRICS_PORT") (codes "metrics.port") c.port in
    (
      record {
        enabled = enabled.0;
        bind = bind.0;
        port = port.0;
        api_key_file = take_some (env (codes "HUGINN_METRICS_API_KEY_FILE")) c.api_key_file;
      },
      enabled.1 ++ (bind.1 ++ port.1),
    )

unfoldable pub env_log : Env → LogConfig → LogConfig × List Text
env_log env c =
    let format =
      take_parsed parse_format
        (λ v.
          warning (codes "HUGINN_LOG_FORMAT") v not_format (codes "log.format")
            (show_format c.format))
        (env (codes "HUGINN_LOG_FORMAT")) c.format in
    (
      record { format = format.0; level = take_text (env (codes "HUGINN_LOG_LEVEL")) c.level },
      format.1,
    )

-- The new configuration, and a warning for each variable that is set and cannot be used.
unfoldable pub apply_env_overrides :
    {p : Platform} → Parsers → Env → AppConfig p → AppConfig p × List Text
apply_env_overrides n env cfg =
    let ui = env_ui n env cfg.ui in
    let metrics = env_metrics n env cfg.metrics in
    let log = env_log env cfg.log in
    (
      record cfg {
        influx = env_influx env cfg.influx;
        ui = ui.0;
        metrics = metrics.0;
        log = log.0;
      },
      ui.1 ++ (metrics.1 ++ log.1),
    )
