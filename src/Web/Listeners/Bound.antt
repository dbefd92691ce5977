-- ===== src/Web/Listeners/Bound.antt =====
-- crates/huginn-web: when the listeners can be bound, and to what.
use huginn_io.Core.Anyhow.{fine, Foreign-cases}
use huginn_io.Core.Config.Address.{Parsers}
use huginn_io.Core.Error.{value}
use huginn_io.Prelude.{ℕ, ◌≡◌, ◌↔◌, some, arith, Text, Option-cases, inl, inr}
use huginn_io.Web.Listeners.{Binder, Listener, bind_listener, bind_health, bind_ui, bind_metrics}

-- The text reads as an address, on which the port is free, and that is what was bound.
pub record Binds (n : Parsers) (bind_tcp : Binder) (bind : Text) (port : ℕ) (l : Listener)
    : Type 0 where
  pub reads : n.parse_ip bind ≡ some l.addr
  pub free : bind_tcp l.addr port ≡ value tt
  pub same : l.port ≡ port

module _ (n : Parsers) (bind_tcp : Binder) where
  bind_listener_iff :
      (invalid busy bind : Text) (port : ℕ) (l : Listener)
      → (bind_listener n bind_tcp invalid busy bind port ≡ fine l) ↔ Binds n bind_tcp bind port l
  unfolding bind_listener
  bind_listener_iff invalid busy bind port l = elim (Option-cases (n.parse_ip bind)) [
    | inl e ↦ (λ h. absurd (ground (arith, e)), λ b. absurd (ground (arith, e, b.reads)))
    | inr (a, e) ↦ elim (Foreign-cases (bind_tcp a port)) [
      | inl (why, f) ↦
          (λ h. absurd (ground (arith, e, f)), λ b. absurd (ground (arith, e, f, b.reads, b.free)))
      | inr (u, f) ↦ (
        λ h. record {
          reads = ground (arith, e, f);
          free = ground (arith, e, f);
          same = ground (arith, e, f);
        },
        λ b. ground (arith, e, f, b.reads, b.same),
      )
    ]
  ]

  pub bind_health_iff :
      (bind : Text) (port : ℕ) (l : Listener)
      → (bind_health n bind_tcp bind port ≡ fine l) ↔ Binds n bind_tcp bind port l
  unfolding bind_health
  bind_health_iff bind port l = bind_listener_iff _ _ bind port l

  pub bind_ui_iff :
      (bind : Text) (port : ℕ) (l : Listener)
      → (bind_ui n bind_tcp bind port ≡ fine l) ↔ Binds n bind_tcp bind port l
  unfolding bind_ui
  bind_ui_iff bind port l = bind_listener_iff _ _ bind port l

  pub bind_metrics_iff :
      (bind : Text) (port : ℕ) (l : Listener)
      → (bind_metrics n bind_tcp bind port ≡ fine l) ↔ Binds n bind_tcp bind port l
  unfolding bind_metrics
  bind_metrics_iff bind port l = bind_listener_iff _ _ bind port l
