-- ===== src/System/Main/Tests.antt =====
-- The theorem on the commands at a small machine.
use huginn_io.Core.Anyhow.{fine}
use huginn_io.Core.Config.Tests.{no_env}
use huginn_io.Core.Config.{AppConfig}
use huginn_io.Core.Error.{value}
use huginn_io.Core.Samples.{sample_platform, sample_parsers, sample_config}
use huginn_io.Prelude.{◌≡◌, ◌↔◌, refl, List, [], some, Text, codes, none}
use huginn_io.Probes.{done}
use huginn_io.System.Main.Commands.{Loads, Does, main_iff}
use huginn_io.System.Main.{Args, healthcheck, Machine, checked, main}
use huginn_io.System.Start.Tests.{open_machine}

-- Its health listener answers.
abbrev sample_machine : Machine sample_platform
sample_machine = record {
  parsers = sample_parsers;
  env = no_env;
  read_to_string = λ path. value [];
  from_str = λ t. value sample_config;
  outside = open_machine;
  lossy = λ bytes. bytes;
  exchange = λ host port request. done (codes "HTTP/1.0 200 OK\r\n");
}

abbrev check_args : Args
check_args = record { command = some healthcheck; config = codes "c.yaml"; output = none }

main_iff_example : (main sample_machine check_args ≡ fine checked) ↔ (
    (cfg : AppConfig sample_platform) × (warnings : List Text) × Loads sample_machine check_args cfg
      warnings
    × Does sample_machine (some healthcheck) check_args cfg warnings checked)
main_iff_example = main_iff sample_machine check_args checked (λ p s h. refl)
