-- ===== src/Core/Config/Env/Overrides.antt =====
-- crates/huginn-core/src/config.rs: which variable decides which setting in `apply_env_overrides`,
-- and how many warnings there are.
use huginn_io.Prelude.{
  ℕ, ◌+◌, ◌≡◌, refl, Bool, List, ◌++◌, Option, none, some, arith, length, length-append, Text,
  codes, Option-cases, inl, inr,
}
use huginn_io.Core.Config.Address.{Parsers}
use huginn_io.Core.Config.Env.{
  Env, parse_bool, parse_format, take_parsed, keep_ip, env_ui, env_metrics, env_log, env_influx,
  take_some, take_text, listener_enabled, listener_bind, listener_port, apply_env_overrides,
}
use huginn_io.Core.Config.{AppConfig, LogConfig}
use huginn_io.Core.Decimal.{parse_u16}
use huginn_io.Core.Platform.{Platform}

-- The setting that a variable asks for: what it says, if that can be read, and otherwise the old.
abbrev pub asked : {A : Type 0} → (Text → Option A) → Option Text → A → A
asked parse none old = old
asked parse (some v) old = elim (parse v) [ some new ↦ new | none ↦ old ]

-- 1 for a variable that is set and cannot be read.
abbrev pub unusable : {A : Type 0} → (Text → Option A) → Option Text → ℕ
unusable parse none = 0
unusable parse (some v) = elim (parse v) [ some new ↦ 0 | none ↦ 1 ]

take_parsed_lem :
    {A : Type 0} (parse : Text → Option A) (complain : Text → Text) (v : Option Text) (old : A)
    → let r = take_parsed parse complain v old in
      (r.0 ≡ asked parse v old) × (length r.1 ≡ unusable parse v)
unfolding take_parsed
take_parsed_lem parse complain none old = (refl, refl)
take_parsed_lem parse complain (some v) old = elim (Option-cases (parse v)) [
  | inl e ↦ ground (arith, e)
  | inr (a, e) ↦ ground (arith, e)
]

-- A variable that is taken as it stands.
abbrev pub text : Text → Option Text
text v = some v

-- The same for a setting that may be missing.
abbrev pub a_text : Text → Option (Option Text)
a_text v = some (some v)

-- Every setting that has a variable is what its variable asks for, every other one is as it was,
-- and every variable that cannot be read costs one warning and changes nothing.
pub record Overridden {p : Platform} (n : Parsers) (env : Env) (cfg : AppConfig p)
    (r : AppConfig p × List Text) : Type 0 where
  pub ui_enabled :
      r.0.ui.enabled ≡ asked parse_bool (env (codes "HUGINN_UI_ENABLED")) cfg.ui.enabled
  pub ui_bind : r.0.ui.bind ≡ asked (keep_ip n) (env (codes "HUGINN_UI_BIND")) cfg.ui.bind
  pub ui_port : r.0.ui.port ≡ asked parse_u16 (env (codes "HUGINN_UI_PORT")) cfg.ui.port
  pub metrics_enabled :
      r.0.metrics.enabled
      ≡ asked parse_bool (env (codes "HUGINN_METRICS_ENABLED")) cfg.metrics.enabled
  pub metrics_bind :
      r.0.metrics.bind ≡ asked (keep_ip n) (env (codes "HUGINN_METRICS_BIND")) cfg.metrics.bind
  pub metrics_port :
      r.0.metrics.port ≡ asked parse_u16 (env (codes "HUGINN_METRICS_PORT")) cfg.metrics.port
  pub metrics_key :
      r.0.metrics.api_key_file
      ≡ asked a_text (env (codes "HUGINN_METRICS_API_KEY_FILE")) cfg.metrics.api_key_file
  pub influx : r.0.influx ≡ (record cfg.influx {
    url = asked text (env (codes "INFLUX_URL")) cfg.influx.url;
    org = asked text (env (codes "INFLUX_ORG")) cfg.influx.org;
    bucket = asked text (env (codes "INFLUX_BUCKET")) cfg.influx.bucket;
    token_file = asked text (env (codes "INFLUX_TOKEN_FILE")) cfg.influx.token_file;
  })
  pub level : r.0.log.level ≡ asked text (env (codes "HUGINN_LOG_LEVEL")) cfg.log.level
  pub format : r.0.log.format ≡ asked parse_format (env (codes "HUGINN_LOG_FORMAT")) cfg.log.format
  pub untouched :
      (r.0.probes ≡ cfg.probes)
      × (r.0.health ≡ cfg.health)
      × (r.0.event_hub_capacity ≡ cfg.event_hub_capacity)
  pub warnings :
      length r.1
      ≡ (unusable parse_bool (env (codes "HUGINN_UI_ENABLED"))
          + unusable (keep_ip n) (env (codes "HUGINN_UI_BIND"))
          + unusable parse_u16 (env (codes "HUGINN_UI_PORT")))
        + (unusable parse_bool (env (codes "HUGINN_METRICS_ENABLED"))
            + unusable (keep_ip n) (env (codes "HUGINN_METRICS_BIND"))
            + unusable parse_u16 (env (codes "HUGINN_METRICS_PORT")))
        + unusable parse_format (env (codes "HUGINN_LOG_FORMAT"))

taken : (v : Option Text) (old : Text) → take_text v old ≡ asked text v old
taken none old = refl
taken (some v) old = refl

taken_some : (v : Option Text) (old : Option Text) → take_some v old ≡ asked a_text v old
unfolding take_some
taken_some none old = refl
taken_some (some v) old = refl

length-append3 :
    (xs ys zs : List Text) → length (xs ++ (ys ++ zs)) ≡ length xs + length ys + length zs
length-append3 xs ys zs = omega (arith, length-append xs (ys ++ zs), length-append ys zs)

listener_enabled_lem :
    (env : Env) (variable key : Text) (old : Bool)
    → let r = listener_enabled env variable key old in
      (r.0 ≡ asked parse_bool (env variable) old)
      × (length r.1 ≡ unusable parse_bool (env variable))
unfolding listener_enabled
listener_enabled_lem env variable key old = take_parsed_lem parse_bool _ (env variable) old

listener_bind_lem :
    (n : Parsers) (env : Env) (variable key : Text) (old : Text)
    → let r = listener_bind n env variable key old in
      (r.0 ≡ asked (keep_ip n) (env variable) old)
      × (length r.1 ≡ unusable (keep_ip n) (env variable))
unfolding listener_bind
listener_bind_lem n env variable key old = take_parsed_lem (keep_ip n) _ (env variable) old

listener_port_lem :
    (env : Env) (variable key : Text) (old : ℕ)
    → let r = listener_port env variable key old in
      (r.0 ≡ asked parse_u16 (env variable) old) × (length r.1 ≡ unusable parse_u16 (env variable))
unfolding listener_port
listener_port_lem env variable key old = take_parsed_lem parse_u16 _ (env variable) old

-- The three lists of warnings of a listener, together.
listener_warnings :
    (n : Parsers) (env : Env) (on bind port key key' key'' : Text) (a : Bool) (b : Text) (c : ℕ)
    → length (
        (listener_enabled env on key a).1
        ++ ((listener_bind n env bind key' b).1 ++ (listener_port env port key'' c).1))
      ≡ unusable parse_bool (env on)
        + unusable (keep_ip n) (env bind)
        + unusable parse_u16 (env port)
listener_warnings n env on bind port key key' key'' a b c = omega (
  arith,
  length-append3 (listener_enabled env on key a).1 (listener_bind n env bind key' b).1
      (listener_port env port key'' c).1,
  (listener_enabled_lem env on key a).1,
  (listener_bind_lem n env bind key' b).1,
  (listener_port_lem env port key'' c).1,
)

log_format_lem :
    (env : Env) (c : LogConfig)
    → let r = env_log env c in
      (r.0.format ≡ asked parse_format (env (codes "HUGINN_LOG_FORMAT")) c.format)
      × (length r.1 ≡ unusable parse_format (env (codes "HUGINN_LOG_FORMAT")))
unfolding env_log
log_format_lem env c = take_parsed_lem parse_format _ (env (codes "HUGINN_LOG_FORMAT")) c.format

length_three :
    (xs ys zs : List Text) (a b c : ℕ)
    → length xs ≡ a
    → length ys ≡ b
    → length zs ≡ c
    → length (xs ++ (ys ++ zs)) ≡ a + b + c
length_three xs ys zs a b c h k l = omega (arith, length-append3 xs ys zs)

-- Each of the thirteen variables decides its own setting of InfluxDB, the two listeners and the
-- log, every other setting is as it was, and the number of warnings is the number of variables that
-- are set and unusable.
pub apply_env_overrides-Overridden :
    {p : Platform} (n : Parsers) (env : Env) (cfg : AppConfig p)
    → Overridden n env cfg (apply_env_overrides n env cfg)
unfolding apply_env_overrides env_ui env_metrics env_influx env_log
apply_env_overrides-Overridden n env cfg = record {
  ui_enabled = (listener_enabled_lem env _ _ cfg.ui.enabled).0;
  ui_bind = (listener_bind_lem n env _ _ cfg.ui.bind).0;
  ui_port = (listener_port_lem env _ _ cfg.ui.port).0;
  metrics_enabled = (listener_enabled_lem env _ _ cfg.metrics.enabled).0;
  metrics_bind = (listener_bind_lem n env _ _ cfg.metrics.bind).0;
  metrics_port = (listener_port_lem env _ _ cfg.metrics.port).0;
  metrics_key = taken_some (env (codes "HUGINN_METRICS_API_KEY_FILE")) cfg.metrics.api_key_file;
  influx =
      rw
        (
          taken (env (codes "INFLUX_URL")) cfg.influx.url,
          taken (env (codes "INFLUX_ORG")) cfg.influx.org,
          taken (env (codes "INFLUX_BUCKET")) cfg.influx.bucket,
          taken (env (codes "INFLUX_TOKEN_FILE")) cfg.influx.token_file,
        )
        refl;
  level = taken (env (codes "HUGINN_LOG_LEVEL")) cfg.log.level;
  format = (log_format_lem env cfg.log).0;
  untouched = (refl, refl, refl);
  warnings =
      length_three _ _ _ _ _ _ (listener_warnings n env _ _ _ _ _ _ _ _ _)
        (listener_warnings n env _ _ _ _ _ _ _ _ _) (log_format_lem env cfg.log).1;
}
