-- ===== src/Web/Listeners.antt =====
-- crates/huginn-web: `bind_health`, `bind_ui` and `bind_metrics`. What the system makes of a bind
-- is an input.
pub mod Bound
use huginn_io.Core.Anyhow.{Outcome, fine, context, of_foreign, of_option, ◌>>=◌}
use huginn_io.Core.Config.Address.{Parsers, IpAddr}
use huginn_io.Core.Decimal.{show_nat}
use huginn_io.Core.Error.{Foreign}
use huginn_io.Prelude.{ℕ, ◌∷◌, ◌++◌, Text, codes}

-- What the system answers to a bind at some time: nothing, or why not.
abbrev pub Binder : Type 0
Binder = IpAddr → ℕ → Foreign (Unit {0})

-- A bound socket.
pub record Listener : Type 0 where
  pub addr : IpAddr
  pub port : ℕ

-- The error of `IpAddr::from_str`.
abbrev invalid_address : Text
invalid_address = codes "invalid IP address syntax"

-- The part that all three have in common.
unfoldable pub bind_listener : Parsers → Binder → Text → Text → Text → ℕ → Outcome Listener
bind_listener n bind_tcp invalid busy bind port = do
  addr ← context invalid (of_option invalid_address (n.parse_ip bind))
  socket ← context busy (of_foreign (bind_tcp addr port))
  fine (record { addr = addr; port = port })

at_port : Text → ℕ → Text
at_port bind port = bind ++ b':' ∷ show_nat port

unfoldable pub bind_health : Parsers → Binder → Text → ℕ → Outcome Listener
unfolding bind_listener at_port
bind_health n bind_tcp bind port =
    bind_listener n bind_tcp
      (codes "health bind '" ++ (bind ++ codes "' is not a valid IP address"))
      (codes "could not bind the health listener on " ++ at_port bind port) bind port

unfoldable pub bind_ui : Parsers → Binder → Text → ℕ → Outcome Listener
unfolding bind_listener at_port
bind_ui n bind_tcp bind port =
    bind_listener n bind_tcp (codes "ui.bind '" ++ (bind ++ codes "' is not a valid IP address"))
      (codes "could not bind the debug UI on " ++ at_port bind port) bind port

unfoldable pub bind_metrics : Parsers → Binder → Text → ℕ → Outcome Listener
unfolding bind_listener at_port
bind_metrics n bind_tcp bind port =
    bind_listener n bind_tcp
      (codes "metrics.bind '" ++ (bind ++ codes "' is not a valid IP address"))
      (codes "could not bind the metrics listener on " ++ at_port bind port) bind port
