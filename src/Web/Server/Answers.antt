-- ===== src/Web/Server/Answers.antt =====
-- crates/huginn-web: what the three listeners answer to any request, and the health check of a
-- listener that serves.
use huginn_io.Core.Platform.{Platform}
use huginn_io.Core.Stats.{WriteStats}
use huginn_io.Prelude.{
  ◌≡◌, ◌↔◌, ◌⊎◌, inl, inr, sym, ap, subst, ◌∙◌, Bool, false, ◌||◌, List, [], ◌∷◌, Option, arith,
  All, Text, codes, text_eq, text_eq_iff, Bool-cases,
}
use huginn_io.Web.Auth.Bits.{Opens, handle_prometheus_cases}
use huginn_io.Web.Auth.{Reply, handle_prometheus}
use huginn_io.Web.Headers.Applied.{HeaderLaws, apply_security_headers_lem}
use huginn_io.Web.Headers.{HeaderApi, security_headers}
use huginn_io.Web.Prometheus.{render}
use huginn_io.Web.Server.{
  Request, Response, Next, AxumApi, Assets, serve_ui, serve_health, serve_metrics, attach_headers,
  answer_prometheus,
}
use huginn_io.Web.State.{WebState, Streamed, values}

-- What axum documents. `serves` is whether a router has a route at a path.
pub record AxumLaws {p : Platform} {http : HeaderApi} (axum : AxumApi p http) : Type 0 where
  pub serves : axum.Router → Text → Bool
  pub serves_new : (path : Text) → serves axum.new_router path ≡ false
  pub serves_route :
      (path : Text) (handler : Next http) (r : axum.Router) (other : Text)
      → serves (axum.route path handler r) other ≡ (text_eq path other || serves r other)
  pub routed :
      (path : Text) (handler : Next http) (r : axum.Router) (q : Request)
      → serves r path ≡ false
      → q.method ≡ codes "GET"
      → q.path ≡ path
      → axum.answer (axum.route path handler r) q ≡ handler q
  pub not_allowed :
      (path : Text) (handler : Next http) (r : axum.Router) (q : Request)
      → serves r path ≡ false
      → text_eq q.method (codes "GET") ≡ false
      → text_eq q.method (codes "HEAD") ≡ false
      → q.path ≡ path
      → (axum.answer (axum.route path handler r) q).status ≡ 405
  pub elsewhere :
      (path : Text) (handler : Next http) (r : axum.Router) (q : Request)
      → text_eq path q.path ≡ false
      → axum.answer (axum.route path handler r) q ≡ axum.answer r q
  pub not_found : (q : Request) → (axum.answer axum.new_router q).status ≡ 404
  pub layered :
      (middleware : Request → Next http → Response http) (r : axum.Router) (q : Request)
      → axum.answer (axum.layer middleware r) q ≡ middleware q (axum.answer r)
  pub texts : (t : Text) → ((axum.text t).status ≡ 200) × ((axum.text t).body ≡ t)
  pub replies : (r : Reply) → ((axum.parts r).status ≡ r.status) × ((axum.parts r).body ≡ r.body)

-- The response has each of the five security headers, once and with its configured value.
abbrev pub Guarded : (http : HeaderApi) → Response http → Type 0
Guarded http r = All (λ e. http.get_all e.0 r.headers ≡ e.1 ∷ []) security_headers

module _ {p : Platform} (http : HeaderApi) (axum : AxumApi p http) where
  layered-Guarded :
      (laws : AxumLaws axum) (h : HeaderLaws http) (r : axum.Router) (q : Request)
      → Guarded http (axum.answer (axum.layer (attach_headers http axum) r) q)
  unfolding attach_headers
  layered-Guarded laws h r q =
      subst (Guarded http) (sym (laws.layered (attach_headers http axum) r q))
        (apply_security_headers_lem http h (axum.answer r q).headers).0

-- If axum and the http crate do what they document, then whatever the request is, its method and
-- path included, what each of the three listeners answers has each of the five security headers
-- once and with its configured value, errors such as 404 included.
pub answer-Guarded :
    {p : Platform} (http : HeaderApi) (axum : AxumApi p http) (laws : AxumLaws axum)
    (h : HeaderLaws http) (assets : Assets) (state : WebState p) (items : List Streamed)
    (stats : WriteStats) (key : Option Text) (q : Request)
    → Guarded http (axum.answer (serve_ui http axum assets state items) q)
      × Guarded http (axum.answer (serve_health http axum) q)
      × Guarded http (axum.answer (serve_metrics http axum state stats key) q)
unfolding serve_ui serve_health serve_metrics
answer-Guarded http axum laws h assets state items stats key q = (
  layered-Guarded http axum laws h _ q,
  layered-Guarded http axum laws h _ q,
  layered-Guarded http axum laws h _ q,
)

module _ {p : Platform} (http : HeaderApi) (axum : AxumApi p http) (laws : AxumLaws axum) where
  -- A listener with one route, at this path.
  abbrev pub only : Text → Next http → axum.Router
  only path handler =
      axum.layer (attach_headers http axum) (axum.route path handler axum.new_router)

  pub only_routed :
      (path : Text) (handler : Next http) (q : Request)
      → q.method ≡ codes "GET"
      → q.path ≡ path
      → ((axum.answer (only path handler) q).status ≡ (handler q).status)
        × ((axum.answer (only path handler) q).body ≡ (handler q).body)
  unfolding attach_headers
  only_routed path handler q get at_path =
      let e = laws.layered (attach_headers http axum) (axum.route path handler axum.new_router) q in
      let r = laws.routed path handler axum.new_router q (laws.serves_new path) get at_path in
      (ap (λ x. x.status) e ∙ ap (λ x. x.status) r, ap (λ x. x.body) e ∙ ap (λ x. x.body) r)

  only_elsewhere :
      (path : Text) (handler : Next http) (q : Request)
      → text_eq path q.path ≡ false
      → (axum.answer (only path handler) q).status ≡ 404
  unfolding attach_headers
  only_elsewhere path handler q other =
      let e = laws.layered (attach_headers http axum) (axum.route path handler axum.new_router) q in
      ap (λ x. x.status) e
      ∙ ap (λ x. x.status) (laws.elsewhere path handler axum.new_router q other)
      ∙ laws.not_found q

  only_not_allowed :
      (path : Text) (handler : Next http) (q : Request)
      → text_eq q.method (codes "GET") ≡ false
      → text_eq q.method (codes "HEAD") ≡ false
      → q.path ≡ path
      → (axum.answer (only path handler) q).status ≡ 405
  unfolding attach_headers
  only_not_allowed path handler q not_get not_head at_path =
      let e = laws.layered (attach_headers http axum) (axum.route path handler axum.new_router) q in
      ap (λ x. x.status) e
      ∙ laws.not_allowed path handler axum.new_router q (laws.serves_new path) not_get not_head
          at_path

  -- A request other than HEAD is answered by the handler, exactly if it is GET on the path; or with
  -- an error.
  only_cases :
      (path : Text) (handler : Next http) (q : Request)
      → text_eq q.method (codes "HEAD") ≡ false
      → let r = axum.answer (only path handler) q in
        ((q.method ≡ codes "GET")
          × (q.path ≡ path)
          × ((r.status ≡ (handler q).status) × (r.body ≡ (handler q).body)))
        ⊎ ((¬ ((q.method ≡ codes "GET") × (q.path ≡ path))) × ¬ (r.status ≡ 200))
  only_cases path handler q not_head = elim (Bool-cases (text_eq path q.path)) [
    | inr other ↦ inr (
      (λ g. absurd (ground (arith, other, (text_eq_iff path q.path).1 (sym g.1)))),
      (λ ok. absurd (omega (arith, ok, only_elsewhere path handler q other))),
    )
    | inl same ↦
        let at_path = sym ((text_eq_iff path q.path).0 same) in
        elim (Bool-cases (text_eq q.method (codes "GET"))) [
          | inl get ↦
              let is_get = (text_eq_iff q.method (codes "GET")).0 get in
              inl (is_get, at_path, only_routed path handler q is_get at_path)
          | inr not_get ↦ inr (
            (λ g. absurd (ground (arith, not_get, (text_eq_iff q.method (codes "GET")).1 g.0))),
            (λ ok.
                absurd
                  (omega (arith, ok, only_not_allowed path handler q not_get not_head at_path))),
          )
        ]
  ]

-- If axum does what it documents, then the metrics listener answers a request other than HEAD with
-- 200 exactly if it is GET on /metrics and either no key is set or it presents the key, and the
-- body is then the exposition of the latest results.
pub serve_metrics_ok_iff :
    {p : Platform} (http : HeaderApi) (axum : AxumApi p http) (laws : AxumLaws axum)
    (state : WebState p) (stats : WriteStats) (key : Option Text) (q : Request)
    → text_eq q.method (codes "HEAD") ≡ false
    → let r = axum.answer (serve_metrics http axum state stats key) q in
      ((r.status ≡ 200)
        ↔ ((q.method ≡ codes "GET") × (q.path ≡ codes "/metrics") × Opens key q.authorization))
      × (r.status ≡ 200 → r.body ≡ render (values state.results) stats)
unfolding serve_metrics answer_prometheus
serve_metrics_ok_iff http axum laws state stats key q not_head =
    let rendered = render (values state.results) stats in
    let (s, b) = laws.replies (handle_prometheus key q.authorization rendered) in
    elim (only_cases http axum laws (codes "/metrics")
      (λ q. axum.parts (handle_prometheus key q.authorization rendered)) q not_head) [
        | inr (missed, failed) ↦
            ((λ ok. absurd (failed ok), λ g. absurd (missed (g.0, g.1))), λ ok. absurd (failed ok))
        | inl (get, at_path, (status, body)) ↦
            elim (handle_prometheus_cases key q.authorization rendered) [
              | inl (opens, e) ↦ (
                (λ ok. (get, at_path, opens), λ g. status ∙ s ∙ ap (λ r. r.status) e),
                λ ok. body ∙ b ∙ ap (λ r. r.body) e,
              )
              | inr (closed, e) ↦
                  let denied = status ∙ s ∙ ap (λ r. r.status) e in
                  (
                    (λ ok. absurd (omega (arith, ok, denied)), λ g. absurd (closed g.2)),
                    λ ok. absurd (omega (arith, ok, denied)),
                  )
            ]
      ]
