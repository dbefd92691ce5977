-- ===== src/System/Start/Safe.antt =====
-- huginn/src/main.rs: what the started program's listeners are like.
use huginn_io.Core.Anyhow.{fine}
use huginn_io.Core.Config.Address.{Parsers, IpAddr, Serves, health_addr, health_bind}
use huginn_io.Core.Config.Env.{Env}
use huginn_io.Core.Config.Load.Safe.{load_with_warnings-IsValid}
use huginn_io.Core.Config.Load.{load_with_warnings}
use huginn_io.Core.Config.Secrets.Closed.{Holds, Guards}
use huginn_io.Core.Config.Validate.Sound.{Apart}
use huginn_io.Core.Config.{AppConfig, MetricsConfig}
use huginn_io.Core.Error.{Foreign, value, ok}
use huginn_io.Core.Platform.{Platform}
use huginn_io.Prelude.{
  ℕ, ◌≡◌, ◌⊎◌, refl, sym, subst, ◌∙◌, Bool, true, false, ◌||◌, List, [], All, Option, none, some,
  arith, Text,
}
use huginn_io.System.Start.Enabled.{Enabled, BindsGuarded, start_iff}
use huginn_io.System.Start.{Outside, holding, Started, start, start_pipeline, retry_config}
use huginn_io.System.{start_loops}
use huginn_io.Influx.Client.{write_url_of}
use huginn_io.Web.Auth.Bits.{Presents, handle_prometheus_cases}
use huginn_io.Web.Auth.{handle_prometheus, exposition, unauthorized}
use huginn_io.Web.Listeners.Bound.{Binds}
use huginn_io.Web.Listeners.{Binder, Listener}

Enabled-some :
    {A : Type 0} (enabled : Bool) (P : A → Type 0) (o : Option A) (a : A)
    → Enabled enabled P o
    → o ≡ some a
    → (enabled ≡ true) × P a
Enabled-some true P none a h e = cc
Enabled-some true P (some b) a h e = (refl, subst P (ground (arith, e)) h)
Enabled-some false P none a h e = cc
Enabled-some false P (some b) a h e = absurd h

-- The key that guards an endpoint whose key file is named.
Guards-named :
    (files : Text → Foreign Text) (file key : Option Text) (path : Text)
    → Guards files file key
    → file ≡ some path
    → (found : Text) × Holds (files path) found × (key ≡ some found)
Guards-named files none key path g e = cc
Guards-named files (some x) none path g e = absurd g
Guards-named files (some x) (some found) path g e =
    (found, subst (λ f. Holds (files f) found) (ground (arith, e)) g, refl)

-- If the program started with a metrics listener and a key file is configured, that file holds a
-- key, and for every request the endpoint answers with the exposition if the request presents that
-- key, and with 401 if it does not: there is no start that leaves it open.
pub start-closed :
    {p : Platform} (n : Parsers) (o : Outside) (cfg : AppConfig p) (s : Started p) (path : Text)
    (l : Listener) (key : Option Text)
    → start n o cfg ≡ fine s
    → cfg.metrics.api_key_file ≡ some path
    → s.web.metrics ≡ some (l, key)
    → (found : Text) × Holds (o.files path) found
      × ((header : Option Text) (rendered : Text)
          → (Presents header found × (handle_prometheus key header rendered ≡ exposition rendered))
            ⊎ ((¬ Presents header found) × (handle_prometheus key header rendered ≡ unauthorized)))
start-closed n o cfg s path l key e named bound =
    let started = (start_iff n o cfg s).0 e in
    let on =
      Enabled-some cfg.metrics.enabled
        (BindsGuarded n o (holding s.web.ui (holding s.health [])) cfg.metrics) s.web.metrics
        (l, key) started.web.metrics_bound bound in
    let (found, holds, same) =
      Guards-named o.files cfg.metrics.api_key_file key path on.1.0 named in
    (
      found,
      holds,
      λ header rendered. rw same (handle_prometheus_cases (some found) header rendered),
    )

-- Two listeners on one port have no address in common.
abbrev pub KeepApart : Option Listener → Option Listener → Type 0
KeepApart (some a) (some b) = a.port ≡ b.port → (d : IpAddr) → Serves a.addr d → ¬ Serves b.addr d
KeepApart _ _ = Unit

abbrev pub listener_of : Option (Listener × Option Text) → Option Listener
listener_of none = none
listener_of (some (l, key)) = some l

module _ (n : Parsers) (o : Outside) where
  bound_KeepApart :
      (held held' : List Listener) (on : Bool) (bind : Text) (port : ℕ) (addr : IpAddr)
      (l : Option Listener) (on' : Bool) (bind' : Text) (port' : ℕ) (addr' : IpAddr)
      (l' : Option Listener)
      → Apart on port addr on' port' addr'
      → n.parse_ip bind ≡ some addr
      → n.parse_ip bind' ≡ some addr'
      → Enabled on (Binds n (o.bind_tcp held) bind port) l
      → Enabled on' (Binds n (o.bind_tcp held') bind' port') l'
      → KeepApart l l'
  bound_KeepApart held held' true bind port addr (some a) true bind' port' addr' (some a') f r r' b
        b' =
      λ same d s s'.
        let here : a.addr ≡ addr = ground (arith, r, b.reads) in
        let there : a'.addr ≡ addr' = ground (arith, r', b'.reads) in
        f refl refl (sym b.same ∙ same ∙ b'.same) d (subst (λ x. Serves x d) here s)
          (subst (λ x. Serves x d) there s')
  bound_KeepApart held held' _ bind port addr none _ bind' port' addr' _ f r r' b b' = tt
  bound_KeepApart held held' _ bind port addr (some a) _ bind' port' addr' none f r r' b b' = tt
  bound_KeepApart held held' false bind port addr (some a) _ bind' port' addr' (some a') f r r' b
        b' =
      absurd b
  bound_KeepApart held held' true bind port addr (some a) false bind' port' addr' (some a') f r r' b
        b' =
      absurd b'

  guarded_bound :
      (held : List Listener) (enabled : Bool) (metrics : MetricsConfig)
      (b : Option (Listener × Option Text))
      → Enabled enabled (BindsGuarded n o held metrics) b
      → Enabled enabled (Binds n (o.bind_tcp held) metrics.bind metrics.port) (listener_of b)
  guarded_bound held true metrics none h = h
  guarded_bound held false metrics none h = h
  guarded_bound held true metrics (some (l, key)) h = h.1
  guarded_bound held false metrics (some (l, key)) h = h

  -- If the parser reads the health listener's address as 127.0.0.1, then whatever starts from the
  -- configuration of any successful load: no two of the three listeners have a port and an address
  -- in common.
  pub start-KeepApart :
      {p : Platform} (env : Env) (file_path : Text) (file : Foreign Text)
      (from_str : Text → Foreign (AppConfig p)) (cfg : AppConfig p) (warnings : List Text)
      (s : Started p)
      → n.parse_ip health_bind ≡ some health_addr
      → load_with_warnings n env file_path file from_str ≡ ok (cfg, warnings)
      → start n o cfg ≡ fine s
      → KeepApart s.web.ui (listener_of s.web.metrics)
        × KeepApart s.web.ui s.health
        × KeepApart (listener_of s.web.metrics) s.health
  start-KeepApart env file_path file from_str cfg warnings s r loaded e =
      let valid = (load_with_warnings-IsValid n env file_path file from_str loaded).0 in
      let k = valid.listeners in
      let started = (start_iff n o cfg s).0 e in
      let metrics =
        guarded_bound (holding s.web.ui (holding s.health [])) cfg.metrics.enabled cfg.metrics
          s.web.metrics started.web.metrics_bound in
      let ui = started.web.ui_bound in
      (
        bound_KeepApart _ _ _ cfg.ui.bind cfg.ui.port k.ui_addr _ _ cfg.metrics.bind
            cfg.metrics.port k.metrics_addr _ k.apart k.ui_reads k.metrics_reads ui metrics,
        bound_KeepApart _ _ _ cfg.ui.bind cfg.ui.port k.ui_addr _ _ health_bind cfg.health.port
            health_addr _ k.ui_health k.ui_reads r ui started.health,
        bound_KeepApart _ _ _ cfg.metrics.bind cfg.metrics.port k.metrics_addr _ _ health_bind
            cfg.health.port health_addr _ k.metrics_health k.metrics_reads r metrics started.health,
      )

-- A socket of this address and port has nothing in common with those that are held.
abbrev pub Unheld : List Listener → IpAddr → ℕ → Type 0
Unheld held addr port =
    All (λ l. l.port ≡ port → (d : IpAddr) → Serves addr d → ¬ Serves l.addr d) held

Enabled-some_of :
    {A : Type 0} (enabled : Bool) (P : A → Type 0) (a : A)
    → (enabled ≡ true → P a)
    → (found : Option A) × Enabled enabled P found
Enabled-some_of true P a h = (some a, h refl)
Enabled-some_of false P a h = (none, tt)

Apart-sym :
    (on : Bool) (port : ℕ) (addr : IpAddr) (on' : Bool) (port' : ℕ) (addr' : IpAddr)
    → Apart on port addr on' port' addr'
    → Apart on' port' addr' on port addr
Apart-sym on port addr on' port' addr' f e' e same d s' s = f e e' (sym same) d s s'

Unheld-holding :
    (n : Parsers) (bind_tcp : Binder) (held : List Listener) (on : Bool) (port : ℕ) (addr : IpAddr)
    (on' : Bool) (bind' : Text) (port' : ℕ) (addr' : IpAddr) (l : Option Listener)
    → Apart on port addr on' port' addr'
    → on ≡ true
    → n.parse_ip bind' ≡ some addr'
    → Enabled on' (Binds n bind_tcp bind' port') l
    → Unheld held addr port
    → Unheld (holding l held) addr port
Unheld-holding n bind_tcp held on port addr true bind' port' addr' (some l) f e r b h = (
  λ same d s s'.
      let there : l.addr ≡ addr' = ground (arith, r, b.reads) in
      f e refl (sym same ∙ b.same) d s (subst (λ x. Serves x d) there s'),
  h,
)
Unheld-holding n bind_tcp held on port addr true bind' port' addr' none f e r b h = h
Unheld-holding n bind_tcp held on port addr false bind' port' addr' none f e r b h = h
Unheld-holding n bind_tcp held on port addr false bind' port' addr' (some l) f e r b h = absurd b

-- If the parser reads the health listener's address as 127.0.0.1, every address and port can be
-- bound that has nothing in common with the sockets that the program already holds, the HTTP client
-- can be built, the token file holds a token, and the key file, if one is named, holds a key, then
-- the program starts with the configuration of any successful load.
pub start-loaded :
    {p : Platform} (n : Parsers) (o : Outside) (env : Env) (file_path : Text) (file : Foreign Text)
    (from_str : Text → Foreign (AppConfig p)) (cfg : AppConfig p) (warnings : List Text)
    (token : Text) (key : Option Text)
    → n.parse_ip health_bind ≡ some health_addr
    → load_with_warnings n env file_path file from_str ≡ ok (cfg, warnings)
    → ((held : List Listener) (addr : IpAddr) (port : ℕ)
        → Unheld held addr port
        → o.bind_tcp held addr port ≡ value tt)
    → o.client ≡ value tt
    → Holds (o.files cfg.influx.token_file) token
    → Guards o.files cfg.metrics.api_key_file key
    → (s : Started p) × (start n o cfg ≡ fine s)
start-loaded {p} n o env file_path file from_str cfg warnings token key r loaded free built holds
      guards =
    let valid = (load_with_warnings-IsValid n env file_path file from_str loaded).0 in
    let k = valid.listeners in
    let (h, health) =
      Enabled-some_of cfg.health.enabled (Binds n (o.bind_tcp []) health_bind cfg.health.port)
        (record { addr = health_addr; port = cfg.health.port })
        (λ on. record { reads = r; free = free [] health_addr cfg.health.port tt; same = refl }) in
    let held = holding h [] in
    let beside_health : (on : Bool) (port : ℕ) (addr : IpAddr)
        → Apart on port addr cfg.health.enabled cfg.health.port health_addr
        → on ≡ true
        → Unheld held addr port =
      λ on port addr f e.
        Unheld-holding n (o.bind_tcp []) [] on port addr _ health_bind _ health_addr h f e r health
          tt in
    let (u, ui) =
      Enabled-some_of cfg.ui.enabled (Binds n (o.bind_tcp held) cfg.ui.bind cfg.ui.port)
        (record { addr = k.ui_addr; port = cfg.ui.port })
        (λ on. record {
          reads = k.ui_reads;
          free = free held k.ui_addr cfg.ui.port (beside_health _ _ _ k.ui_health on);
          same = refl;
        }) in
    let (m, metrics) =
      Enabled-some_of cfg.metrics.enabled (BindsGuarded n o (holding u held) cfg.metrics)
        (record { addr = k.metrics_addr; port = cfg.metrics.port }, key)
        (λ on. (
          guards,
          record {
            reads = k.metrics_reads;
            free = free (holding u held) k.metrics_addr cfg.metrics.port (
                Unheld-holding n (o.bind_tcp held) held _ _ _ _ cfg.ui.bind _ k.ui_addr u
                  (Apart-sym _ _ _ _ _ _ k.apart) on k.ui_reads ui
                  (beside_health _ _ _ k.metrics_health on));
            same = refl;
          },
        )) in
    let s : Started p = record {
      health = h;
      writer = record { write_url = write_url_of cfg.influx; token = token };
      pipeline = start_pipeline cfg.influx;
      writer_config = retry_config cfg.influx;
      web = record { ui = u; metrics = m; follows_hub = cfg.ui.enabled || cfg.metrics.enabled };
      loops = start_loops cfg.probes;
    } in
    (
      s,
      (start_iff n o cfg s).1 (record {
        health = health;
        writer = record { token = holds; built = built; write_url = refl };
        web = record { ui_bound = ui; metrics_bound = metrics; follows = refl };
        pipeline = refl;
        writer_config = refl;
        loops = refl;
      }),
    )
