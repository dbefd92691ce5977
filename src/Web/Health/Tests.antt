-- ===== src/Web/Health/Tests.antt =====
-- The theorem on the health check at a listener that answers.
use huginn_io.Core.Anyhow.{fine}
use huginn_io.Core.Config.Address.{health_bind}
use huginn_io.Core.Config.{default_health}
use huginn_io.Prelude.{◌≡◌, ◌↔◌, refl, true, codes}
use huginn_io.Probes.{done}
use huginn_io.Web.Health.Check.{Answers200, run_healthcheck_iff}
use huginn_io.Web.Health.{Exchange, health_request, run_healthcheck}

abbrev answering : Exchange
answering host port request = done (codes "HTTP/1.0 200 OK\r\ncontent-length: 2\r\n\r\nOK")

run_healthcheck_iff_example :
    (run_healthcheck (λ bytes. bytes) answering default_health ≡ fine tt) ↔ (
      (default_health.enabled ≡ true)
      × Answers200 (answering health_bind default_health.port (health_request health_bind)))
run_healthcheck_iff_example =
    run_healthcheck_iff (λ bytes. bytes) answering default_health (λ p s h. refl)
