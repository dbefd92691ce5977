-- ===== src/Web/Server.antt =====
-- crates/huginn-web/src/server.rs, and `serve_health`, `serve_metrics` and the middleware of its
-- neighbours: the routes of the three listeners. axum is a parameter, with what the code relies on;
-- what a router answers is with the state that it finds. Serve has the loop that serves a router.
pub mod Answers
pub mod Check
mod Tests
use huginn_io.Core.Platform.{Platform}
use huginn_io.Core.Stats.{WriteStats}
use huginn_io.Core.Types.{ProbeResult}
use huginn_io.Prelude.{ℕ, List, Option, Text, codes}
use huginn_io.Web.Auth.{Reply, handle_prometheus}
use huginn_io.Web.Headers.{HeaderApi, apply_security_headers}
use huginn_io.Web.Prometheus.{render}
use huginn_io.Web.State.{WebState, Streamed, sse_events, values}

-- What the routes and the handlers read of a request.
pub record Request : Type 0 where
  pub method : Text
  pub path : Text
  pub authorization : Option Text

pub record Response (http : HeaderApi) : Type 0 where
  pub status : ℕ
  pub headers : http.HeaderMap
  pub body : Text

-- A handler, and what the middleware runs.
abbrev pub Next : HeaderApi → Type 0
Next http = Request → Response http

-- The router, and what `IntoResponse` makes of the handlers' values.
pub record AxumApi (p : Platform) (http : HeaderApi) : Type 1 where
  pub Router : Type 0
  pub new_router : Router
  -- `.route(path, get(handler))`
  pub route : Text → Next http → Router → Router
  -- `.layer(axum::middleware::from_fn(..))`
  pub layer : (Request → Next http → Response http) → Router → Router
  pub answer : Router → Next http
  pub text : Text → Response http
  pub html : Text → Response http
  pub json : List (ProbeResult p) → Response http
  pub sse : List Text → Response http
  pub with_header : Text × Text → Text → Response http
  pub parts : Reply → Response http

-- The files that are embedded at compile time.
pub record Assets : Type 0 where
  pub index_html : Text
  pub style_css : Text
  pub app_js : Text

-- What the metrics listener's handler shares. The counters stand beside the web state, not in it.
pub record MetricsState (p : Platform) : Type 0 where
  pub web : WebState p
  pub write_stats : WriteStats
  pub api_key : Option Text

module _ {p : Platform} (http : HeaderApi) (axum : AxumApi p http) where
  -- The middleware `security_headers`.
  unfoldable pub attach_headers : Request → Next http → Response http
  attach_headers request next =
      let response = next request in
      record response { headers = apply_security_headers http response.headers }

  handle_index : Assets → Response http
  handle_index assets = axum.html assets.index_html

  unfoldable pub handle_health : Response http
  handle_health = axum.text (codes "OK")

  handle_metrics : WebState p → Response http
  handle_metrics state = axum.json (values state.results)

  handle_css : Assets → Response http
  handle_css assets =
      axum.with_header (codes "content-type", codes "text/css; charset=utf-8") assets.style_css

  handle_js : Assets → Response http
  handle_js assets =
      axum.with_header (codes "content-type", codes "application/javascript; charset=utf-8")
        assets.app_js

  -- `items` is what the browser's stream gives while it is open.
  sse_handler : List Streamed → Response http
  sse_handler items = axum.sse (sse_events items)

  -- The last call of a chain is the outermost.
  unfoldable pub serve_ui : Assets → WebState p → List Streamed → axum.Router
  unfolding attach_headers handle_index handle_health handle_metrics handle_css handle_js
      sse_handler
  serve_ui assets state items = axum.layer attach_headers (
      axum.route (codes "/assets/app.js") (λ q. handle_js assets)
        (axum.route (codes "/assets/style.css") (λ q. handle_css assets)
          (axum.route (codes "/health") (λ q. handle_health)
            (axum.route (codes "/metrics/latest") (λ q. handle_metrics state)
              (axum.route (codes "/events") (λ q. sse_handler items)
                (axum.route (codes "/") (λ q. handle_index assets) axum.new_router))))))

  unfoldable pub serve_health : axum.Router
  unfolding attach_headers handle_health
  serve_health =
      axum.layer attach_headers (axum.route (codes "/health") (λ q. handle_health) axum.new_router)

  unfoldable pub answer_prometheus : MetricsState p → Request → Response http
  answer_prometheus state request = axum.parts (
      handle_prometheus state.api_key request.authorization
        (render (values state.web.results) state.write_stats))

  unfoldable pub serve_metrics : WebState p → WriteStats → Option Text → axum.Router
  unfolding attach_headers answer_prometheus
  serve_metrics web write_stats api_key =
      let state : MetricsState p = record {
        web = web;
        write_stats = write_stats;
        api_key = api_key;
      } in
      axum.layer attach_headers
        (axum.route (codes "/metrics") (answer_prometheus state) axum.new_router)
