-- ===== src/System/Output/Tests.antt =====
-- The theorems on the console at concrete arguments and results.
use huginn_io.Core.Config.Tests.{no_env, sample_load}
use huginn_io.Core.Decimal.{show_nat, show_nat-IsDigitText}
use huginn_io.Core.Error.{value}
use huginn_io.Core.Samples.{sample_platform, sample_parsers, sample_config, mail_probe}
use huginn_io.Core.Types.{is_control}
use huginn_io.Prelude.{
  ℕ, ◌≡◌, ◌⊎◌, inl, inr, refl, ap, false, [], ◌∷◌, ◌++◌, Option, none, some, All, append_assoc,
  Text, codes, arith, subst,
}
use huginn_io.Probes.Tests.{sample_world}
use huginn_io.Probes.{broke}
use huginn_io.System.EndToEnd.{ProbeRun, result_of}
use huginn_io.System.Output.Console.{
  AllPlain, OneOf, text_chars, PrintsPlain, digits-IsPlain, print_result-loaded,
}
use huginn_io.System.Output.{Terminal, print_result}

-- A terminal that prints a result's name between quotes for its JSON.
abbrev sample_terminal : Terminal sample_platform
sample_terminal = record {
  timestamp = codes "2026-08-12 10:00:00";
  to_uppercase = λ s. s;
  to_json = λ r. some (b'"' ∷ (r.probe_name ++ b'"' ∷ []));
}

abbrev text_of : Option Text → Text
text_of none = []
text_of (some t) = t

OneOf-here : (c : ℕ) (s t : Text) → OneOf c t → OneOf c (s ++ t)
OneOf-here c [] t m = m
OneOf-here c (x ∷ s) t m = inr (OneOf-here c s t m)

-- The characters of a name that stands somewhere are drawn from there, and a quote follows.
name_drawn :
    (before s rest : Text)
    → All (λ c. (is_control c ≡ false) ⊎ OneOf c (before ++ (s ++ rest))) (s ++ b'"' ∷ [])
unfolding is_control
name_drawn before [] rest = (inl refl, tt)
name_drawn before (c ∷ s) rest = (
  inr (OneOf-here c before (c ∷ (s ++ rest)) (inl refl)),
  subst (λ x. All (λ d. (is_control d ≡ false) ⊎ OneOf d x) (s ++ b'"' ∷ []))
      (append_assoc before (c ∷ []) (s ++ rest)) (name_drawn (before ++ c ∷ []) s rest),
)

quoted_name :
    (s rest : Text)
    → All (λ c. (is_control c ≡ false) ⊎ OneOf c (s ++ rest)) (b'"' ∷ (s ++ b'"' ∷ []))
unfolding is_control
quoted_name s rest = (inl refl, name_drawn [] s rest)

sample_PrintsPlain : PrintsPlain sample_terminal
unfolding is_control
sample_PrintsPlain = record {
  timestamp = ground arith;
  upper = λ s h. h;
  fixed = λ n x. digits-IsPlain (show_nat x) (show_nat-IsDigitText x);
  to_json = λ r j e.
      subst (All (λ c. (is_control c ≡ false) ⊎ OneOf c (text_chars r))) (ap (text_of) e)
        (quoted_name r.probe_name _);
}

abbrev refused_run : ProbeRun sample_platform
refused_run = record {
  config = mail_probe;
  world = record sample_world { tcp_connect = broke (codes "refused\nagain") };
  now = 5;
  elapsed = 3;
}

print_result-loaded_example :
    AllPlain (print_result sample_terminal (result_of sample_parsers refused_run) false)
print_result-loaded_example =
    print_result-loaded sample_terminal sample_parsers no_env (codes "c.yaml") (value [])
      (λ t. value sample_config) sample_config [] refused_run false sample_PrintsPlain sample_load
      (inl refl)
