-- ===== src/Core/Config/Load/Safe.antt =====
-- crates/huginn-core/src/config.rs: the configurations that `load_with_warnings` returns.
use huginn_io.Prelude.{◌≡◌, ap, subst, List, [], ◌∷◌, ◌++◌, arith, Text, text_eq_iff, All, codes}
use huginn_io.Core.Config.Address.{Parsers}
use huginn_io.Core.Config.Env.{Env, apply_env_overrides}
use huginn_io.Core.Config.Load.{
  escape_field, escape_probe, escape_probes, escape_control_chars_in_names, prepare, map_err,
  load_with_warnings,
}
use huginn_io.Core.Config.Validate.Whole.{IsValid, validate_iff}
use huginn_io.Core.Config.Validate.{validate}
use huginn_io.Core.Config.{ProbeConfig, AppConfig}
use huginn_io.Core.Error.{Foreign, value, failed, ok, ◌>>=◌, ok_chain, ok-injective}
use huginn_io.Core.Platform.{Platform}
use huginn_io.Core.Types.Escape.{IsPlain, escape_control_chars-IsPlain}
use huginn_io.Core.Types.{escape_control_chars}

escape_field_value : (field v : Text) → (escape_field field v).0 ≡ escape_control_chars v
unfolding escape_field
escape_field_value field v = ground (arith, text_eq_iff (escape_control_chars v) v)

-- Nothing in the two texts moves a terminal's cursor or ends a line.
pub record IsPrintable {p : Platform} (c : ProbeConfig p) : Type 0 where
  pub name : IsPlain c.name
  pub target : IsPlain c.target

module _ {p : Platform} where
  escape_probe-IsPrintable : (c : ProbeConfig p) → IsPrintable (escape_probe c).0
  unfolding escape_probe
  escape_probe-IsPrintable c = record {
    name = rw (escape_field_value (codes "name") c.name) (escape_control_chars-IsPlain c.name);
    target =
        rw (escape_field_value (codes "target") c.target) (escape_control_chars-IsPlain c.target);
  }

  escape_probes-IsPrintable : (cs : List (ProbeConfig p)) → All IsPrintable (escape_probes cs).0
  unfolding escape_probes
  escape_probes-IsPrintable [] = tt
  escape_probes-IsPrintable (c ∷ cs) = (escape_probe-IsPrintable c, escape_probes-IsPrintable cs)

  -- Whatever comes out of loading is in order after the overrides and the escaping: what was
  -- checked is what is in force, and every probe's name and target are free of control characters.
  pub prepare-IsValid :
      (n : Parsers) (env : Env) (cfg : AppConfig p) {r : AppConfig p × List Text}
      → prepare n env cfg ≡ ok r
      → IsValid n r.0 × All IsPrintable r.0.probes
  unfolding prepare escape_control_chars_in_names
  prepare-IsValid n env cfg {r} h =
      let overridden = apply_env_overrides n env cfg in
      let escaped = escape_control_chars_in_names overridden.0 in
      let result : AppConfig p × List Text = (escaped.0, overridden.1 ++ escaped.1) in
      let parts = ok_chain (validate n escaped.0) (λ _. ok result) h in
      let same = ap (λ (t : AppConfig p × List Text). t.0) (ok-injective result r parts.1) in
      (
        subst (IsValid n) same ((validate_iff n escaped.0).0 parts.2),
        subst (λ (c : AppConfig p). All IsPrintable c.probes) same
            (escape_probes-IsPrintable overridden.0.probes),
      )

  -- Whatever configuration load_with_warnings returns, after environment overrides and escaping, is
  -- valid as a whole, and every probe name and target in it is free of control characters.
  pub load_with_warnings-IsValid :
      (n : Parsers) (env : Env) (path : Text) (file : Foreign Text)
      (from_str : Text → Foreign (AppConfig p)) {r : AppConfig p × List Text}
      → load_with_warnings n env path file from_str ≡ ok r
      → IsValid n r.0 × All IsPrintable r.0.probes
  unfolding load_with_warnings
  load_with_warnings-IsValid n env path (failed e) from_str h = cc
  load_with_warnings-IsValid n env path (value content) from_str {r} h = go (from_str content) h
    where
      go :
          (parsed : Foreign (AppConfig p))
          → (map_err (codes "YAML parse error: ") parsed >>= prepare n env) ≡ ok r
          → IsValid n r.0 × All IsPrintable r.0.probes
      go (failed e) k = cc
      go (value cfg) k = prepare-IsValid n env cfg k
