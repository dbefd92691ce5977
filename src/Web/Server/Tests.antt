-- ===== src/Web/Server/Tests.antt =====
-- The theorems on the listeners at a router that is a function and a wire that carries plain texts.
use huginn_io.Core.Anyhow.{fine}
use huginn_io.Core.Config.{default_health}
use huginn_io.Core.Samples.{sample_platform, sample_up}
use huginn_io.Core.Stats.{default_stats}
use huginn_io.Prelude.{
  ℕ, ◌≡◌, ◌↔◌, refl, sym, ap, ◌==◌, drop, Bool, true, false, ◌||◌, List, [], ◌∷◌, ◌++◌, none, some,
  arith, Text, codes, text_eq, text_eq_iff, if◌then◌else◌,
}
use huginn_io.Web.Auth.Bits.{Opens}
use huginn_io.Web.Headers.Tests.{text_api, text_laws}
use huginn_io.Web.Health.{Exchange, run_healthcheck}
use huginn_io.Web.Prometheus.{render}
use huginn_io.Web.Server.Answers.{AxumLaws, Guarded, answer-Guarded, serve_metrics_ok_iff}
use huginn_io.Web.Server.Check.{
  IsToken, HyperApi, HyperLaws, over_wire, run_healthcheck-serve_health,
}
use huginn_io.Web.Server.{
  Request, Response, Next, AxumApi, Assets, serve_ui, serve_health, serve_metrics,
}
use huginn_io.Web.State.{WebState, message, values}

-- The paths that have a route, and what is answered.
record Routes : Type 0 where
  paths : List Text
  handle : Next text_api

abbrev has_path : List Text → Text → Bool
has_path [] path = false
has_path (p ∷ ps) path = text_eq p path || has_path ps path

abbrev plain : Text → Response text_api
plain body = record { status = 200; headers = λ key. []; body = body }

abbrev error : ℕ → Response text_api
error status = record { status = status; headers = λ key. []; body = [] }

abbrev get_only : Next text_api → Next text_api
get_only handler q =
    if text_eq q.method (codes "GET")
    then handler q
    else if text_eq q.method (codes "HEAD")
    then error 200
    else error 405

abbrev function_axum : AxumApi sample_platform text_api
function_axum = record {
  Router = Routes;
  new_router = record { paths = []; handle = λ q. error 404 };
  route = λ path handler r. record {
    paths = path ∷ r.paths;
    handle = λ q. if text_eq path q.path then get_only handler q else r.handle q;
  };
  layer = λ middleware r. record { paths = r.paths; handle = λ q. middleware q r.handle };
  answer = λ r q. r.handle q;
  text = plain;
  html = plain;
  json = λ rs. plain [];
  sse = λ events. plain [];
  with_header = λ header body. plain body;
  parts = λ r. record { status = r.status; headers = λ key. []; body = r.body };
}

same_path : (path other : Text) → other ≡ path → text_eq path other ≡ true
same_path path other e = (text_eq_iff path other).1 (sym e)

function_laws : AxumLaws function_axum
function_laws = record {
  serves = λ r path. has_path r.paths path;
  serves_new = λ path. refl;
  serves_route = λ path handler r other. refl;
  routed = λ path handler r q new get at_path.
      rw (same_path path q.path at_path, (text_eq_iff q.method (codes "GET")).1 get) refl;
  not_allowed = λ path handler r q new not_get not_head at_path.
      rw (same_path path q.path at_path, not_get, not_head) refl;
  elsewhere = λ path handler r q other. rw other refl;
  not_found = λ q. refl;
  layered = λ middleware r q. refl;
  texts = λ t. (refl, refl);
  replies = λ r. (refl, refl);
}

abbrev files : Assets
files = record { index_html = codes "<p>"; style_css = codes "p {}"; app_js = codes ";" }

abbrev one_result : WebState sample_platform
one_result = record { results = (sample_up.probe_name, sample_up) ∷ []; sse_sent = [] }

abbrev post_unknown : Request
post_unknown = record { method = codes "POST"; path = codes "/x"; authorization = none }

answer-Guarded_example :
    Guarded text_api (
      (serve_ui text_api function_axum files one_result (message (codes "{}") ∷ [])).handle
        post_unknown)
    × Guarded text_api ((serve_health text_api function_axum).handle post_unknown)
    × Guarded text_api (
        (serve_metrics text_api function_axum one_result default_stats (some (codes "k"))).handle
          post_unknown)
answer-Guarded_example =
    answer-Guarded text_api function_axum function_laws text_laws files one_result
      (message (codes "{}") ∷ []) default_stats (some (codes "k")) post_unknown

abbrev scrape : Request
scrape = record {
  method = codes "GET";
  path = codes "/metrics";
  authorization = some (codes "Bearer k");
}

serve_metrics_ok_iff_example :
    let r =
      (serve_metrics text_api function_axum one_result default_stats (some (codes "k"))).handle
        scrape in
    ((r.status ≡ 200) ↔ (
      (codes "GET" ≡ codes "GET")
      × (codes "/metrics" ≡ codes "/metrics")
      × Opens (some (codes "k")) (some (codes "Bearer k"))))
    × (r.status ≡ 200 → r.body ≡ render (values one_result.results) default_stats)
unfolding text_eq
serve_metrics_ok_iff_example =
    serve_metrics_ok_iff text_api function_axum function_laws one_result default_stats
      (some (codes "k")) scrape refl

-- The path of a request line up to the next space.
abbrev until_space : Text → Text
until_space [] = []
until_space (c ∷ s) = let rest = until_space s in if c == b' ' then [] else c ∷ rest

abbrev text_hyper : HyperApi text_api
text_hyper = record {
  read_request = λ s.
      some (record { method = codes "GET"; path = until_space (drop 4 s); authorization = none });
  write_response =
      λ r. (if r.status == 200 then codes "HTTP/1.0 200" else codes "HTTP/1.0 500") ++ r.body;
}

until_space_token : (path rest : Text) → IsToken path → until_space (path ++ b' ' ∷ rest) ≡ path
until_space_token [] rest h = refl
until_space_token (c ∷ path) rest h = ground (arith, h.0, until_space_token path rest h.1)

text_hyper_laws : HyperLaws text_hyper
text_hyper_laws = record {
  reads = λ path host p h.
      ap (λ x. some (record { method = codes "GET"; path = x; authorization = none }))
        (until_space_token path _ p);
  writes = λ r ok. (r.body, ground (arith, ok));
}

abbrev connected : Exchange
connected host port request =
    over_wire text_hyper (serve_health text_api function_axum).handle request

run_healthcheck-serve_health_example :
    run_healthcheck (λ bytes. bytes) connected default_health ≡ fine tt
run_healthcheck-serve_health_example =
    run_healthcheck-serve_health text_api function_axum function_laws text_hyper text_hyper_laws
      (λ bytes. bytes) connected default_health (λ p s h. refl) refl (λ request. refl)
