-- ===== src/Core/Config/Load.antt =====
-- crates/huginn-core/src/config.rs: `escape_control_chars_in_names` and `load_with_warnings`. What
-- the file system and the YAML parser come back with are inputs.
pub mod Safe
use huginn_io.Prelude.{
  ℕ, Bool, true, false, List, [], ◌∷◌, ◌++◌, if◌then◌else◌, Text, codes, text_eq,
}
use huginn_io.Core.Config.Address.{Parsers}
use huginn_io.Core.Config.Env.{Env, apply_env_overrides}
use huginn_io.Core.Config.Validate.{validate}
use huginn_io.Core.Config.{ProbeConfig, AppConfig}
use huginn_io.Core.Error.{Foreign, value, failed, Result, ok, err, config, ◌>>=◌, ◌>>◌}
use huginn_io.Core.Platform.{Platform}
use huginn_io.Core.Types.{escape_control_chars}

rewritten : Text → Text → Text
rewritten field escaped =
    codes "probe "
    ++ (field
        ++ (codes " contains control characters and was rewritten to '"
            ++ (escaped
                ++ (codes
                      "' — they reach the console, the Prometheus labels and the InfluxDB tags, "
                    ++ codes "where a control byte drives the reader's terminal"))))

-- One field: its value from now on, and the warning if that is another.
escape_field : Text → Text → Text × List Text
unfolding rewritten
escape_field field current =
    let escaped = escape_control_chars current in
    if text_eq escaped current then (current, []) else (escaped, rewritten field escaped ∷ [])

module _ {p : Platform} where
  escape_probe : ProbeConfig p → ProbeConfig p × List Text
  unfolding escape_field
  escape_probe c =
      let name = escape_field (codes "name") c.name in
      let target = escape_field (codes "target") c.target in
      (record c { name = name.0; target = target.0 }, name.1 ++ target.1)

  unfoldable pub escape_probes : List (ProbeConfig p) → List (ProbeConfig p) × List Text
  unfolding escape_probe
  escape_probes [] = ([], [])
  escape_probes (c ∷ cs) =
      let first = escape_probe c in
      let rest = escape_probes cs in (first.0 ∷ rest.0, first.1 ++ rest.1)

  unfoldable pub escape_control_chars_in_names : AppConfig p → AppConfig p × List Text
  escape_control_chars_in_names cfg =
      let r = escape_probes cfg.probes in (record cfg { probes = r.0 }, r.1)

  -- The configuration in force and the warnings, from what was read and parsed.
  unfoldable pub prepare : Parsers → Env → AppConfig p → Result (AppConfig p × List Text)
  prepare n env cfg = do
    let overridden = apply_env_overrides n env cfg
    let escaped = escape_control_chars_in_names overridden.0
    validate n escaped.0
    ok (escaped.0, overridden.1 ++ escaped.1)

-- `.map_err(|e| HuginError::Config(..))`
map_err : {A : Type 0} → Text → Foreign A → Result A
map_err what (value a) = ok a
map_err what (failed e) = err (config (what ++ e))

cannot_read : Text → Text
cannot_read path = codes "Cannot read config file '" ++ (path ++ codes "': ")

-- `path` is what the path prints as.
unfoldable pub load_with_warnings :
    {p : Platform}
    → Parsers
    → Env
    → Text
    → Foreign Text
    → (Text → Foreign (AppConfig p))
    → Result (AppConfig p × List Text)
unfolding map_err cannot_read
load_with_warnings n env path file from_str = do
  content ← map_err (cannot_read path) file
  cfg ← map_err (codes "YAML parse error: ") (from_str content)
  prepare n env cfg
