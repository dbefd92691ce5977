-- ===== src/Web/Server/Check.antt =====
-- crates/huginn-web/src/health.rs: the health check of a listener that serves. hyper is a
-- parameter, with what the code relies on.
use huginn_io.Core.Anyhow.{fine}
use huginn_io.Core.Config.Address.{health_bind}
use huginn_io.Core.Config.{HealthConfig}
use huginn_io.Core.Platform.{Platform}
use huginn_io.Prelude.{
  ◌≡◌, refl, ap, sym, subst, ◌∙◌, true, ◌&&◌, ◌++◌, Option, none, some, arith, leb, All, Text,
  Bytes, codes,
}
use huginn_io.Probes.{Timed, done, broke}
use huginn_io.Web.Headers.{HeaderApi}
use huginn_io.Web.Health.Check.{KeepsAscii, Answers200, run_healthcheck_iff}
use huginn_io.Web.Health.{Exchange, health_request, is_ok_status, run_healthcheck}
use huginn_io.Web.Server.Answers.{AxumLaws, only_routed}
use huginn_io.Web.Server.{Request, Response, AxumApi, serve_health}

-- How hyper reads a request and writes a response.
pub record HyperApi (http : HeaderApi) : Type 0 where
  pub read_request : Text → Option Request
  pub write_response : Response http → Bytes

-- Letters, digits and punctuation, without spaces.
abbrev pub IsToken : Text → Type 0
IsToken = All (λ c. (leb b'!' c && leb c b'~') ≡ true)

-- What is documented: such a request is read as what it asks for, and the answer to it begins with
-- a status line of its version.
pub record HyperLaws {http : HeaderApi} (hyper : HyperApi http) : Type 0 where
  pub reads :
      (path host : Text)
      → IsToken path
      → IsToken host
      → hyper.read_request (
          codes "GET "
          ++ (path
              ++ (codes " HTTP/1.0\r\nHost: " ++ (host ++ codes "\r\nConnection: close\r\n\r\n"))))
        ≡ some (record { method = codes "GET"; path = path; authorization = none })
  pub writes :
      (r : Response http)
      → r.status ≡ 200
      → (rest : Bytes) × (hyper.write_response r ≡ codes "HTTP/1.0 200" ++ rest)

-- One request to a router and its answer, over the wire.
abbrev pub answer_read :
    {http : HeaderApi} → HyperApi http → (Request → Response http) → Option Request → Timed Bytes
answer_read hyper answer none = broke (codes "connection closed")
answer_read hyper answer (some q) = done (hyper.write_response (answer q))

abbrev pub over_wire :
    {http : HeaderApi} → HyperApi http → (Request → Response http) → Text → Timed Bytes
over_wire hyper answer request = answer_read hyper answer (hyper.read_request request)

-- If axum and hyper do what they document, the decoding keeps ASCII, the health listener is
-- enabled, and what connects to its address and the configured port reaches the router that
-- serve_health serves, then the healthcheck command passes.
pub run_healthcheck-serve_health :
    {p : Platform} (http : HeaderApi) (axum : AxumApi p http) (laws : AxumLaws axum)
    (hyper : HyperApi http) (wire : HyperLaws hyper) (lossy : Bytes → Text) (exchange : Exchange)
    (health : HealthConfig)
    → KeepsAscii lossy
    → health.enabled ≡ true
    → ((request : Text)
        → exchange health_bind health.port request
          ≡ over_wire hyper (axum.answer (serve_health http axum)) request)
    → run_healthcheck lossy exchange health ≡ fine tt
unfolding serve_health health_request is_ok_status
run_healthcheck-serve_health http axum laws hyper wire lossy exchange health k on net =
    let q : Request = record {
      method = codes "GET";
      path = codes "/health";
      authorization = none;
    } in
    let reply = axum.answer (serve_health http axum) q in
    let (status, _) =
      only_routed http axum laws (codes "/health") (λ q. axum.text (codes "OK")) q refl refl in
    let (rest, sent) = wire.writes reply (status ∙ (laws.texts (codes "OK")).0) in
    let read = wire.reads (codes "/health") health_bind (ground arith) (ground arith) in
    let arrived : exchange health_bind health.port (health_request health_bind)
        ≡ done (codes "HTTP/1.0 200" ++ rest) =
      net _ ∙ ap (answer_read hyper (axum.answer (serve_health http axum))) read ∙ ap done sent in
    (run_healthcheck_iff lossy exchange health k).1 (on, subst Answers200 (sym arrived) refl)
