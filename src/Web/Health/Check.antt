-- ===== src/Web/Health/Check.antt =====
-- crates/huginn-web/src/health.rs and huginn/src/main.rs: when the health check passes.
use huginn_io.Core.Anyhow.{fine, ◌>>=◌}
use huginn_io.Core.Config.Address.{health_bind}
use huginn_io.Core.Config.{HealthConfig}
use huginn_io.Prelude.{
  ℕ, ◌<◌, ◌≡◌, ◌↔◌, inl, inr, refl, true, arith, take, All, Text, Bytes, codes, starts_with,
  Bool-cases,
}
use huginn_io.Probes.{Timed, done, broke, elapsed}
use huginn_io.Web.Health.{
  Exchange, health_request, buffer_size, is_ok_status, read_answer, judge_answer, check_health,
  run_healthcheck,
}

-- Decoding with replacement keeps what is ASCII at the beginning, and makes nothing ASCII there.
abbrev pub KeepsAscii : (Bytes → Text) → Type 0
KeepsAscii lossy =
    (p : Text) (s : Bytes) → All (λ c. c < 128) p → starts_with p (lossy s) ≡ starts_with p s

-- In time there came an answer that begins with the status line of a success.
abbrev pub Answers200 : Timed Bytes → Type 0
Answers200 (done sent) = is_ok_status (take buffer_size sent) ≡ true
Answers200 _ = ⊥

is_ok_status_lossy :
    (lossy : Bytes → Text) (s : Bytes) → KeepsAscii lossy → is_ok_status (lossy s) ≡ is_ok_status s
unfolding is_ok_status
is_ok_status_lossy lossy s k =
    rw (k (codes "HTTP/1.0 200") s (ground arith), k (codes "HTTP/1.1 200") s (ground arith)) refl

checked_iff :
    (lossy : Bytes → Text) (port : ℕ) (bind waited : Text) (answer : Timed Bytes)
    → KeepsAscii lossy
    → ((read_answer lossy bind port waited answer >>= judge_answer bind port) ≡ fine tt)
      ↔ Answers200 answer
unfolding read_answer judge_answer
checked_iff lossy port bind waited (done sent) k =
    ground (arith, is_ok_status_lossy lossy (take buffer_size sent) k)
checked_iff lossy port bind waited (broke e) k = (λ h. cc, λ h. absurd h)
checked_iff lossy port bind waited elapsed k = (λ h. cc, λ h. absurd h)

-- If the decoding keeps ASCII, the health check passes exactly if the health listener is enabled
-- and, at the address that it is bound to and the configured port, the request for /health was
-- answered in time with bytes whose first 64 begin with a status line of code 200.
pub run_healthcheck_iff :
    (lossy : Bytes → Text) (exchange : Exchange) (health : HealthConfig)
    → KeepsAscii lossy
    → (run_healthcheck lossy exchange health ≡ fine tt) ↔ (
        (health.enabled ≡ true)
        × Answers200 (exchange health_bind health.port (health_request health_bind)))
unfolding run_healthcheck check_health
run_healthcheck_iff lossy exchange health k = elim (Bool-cases health.enabled) [
  | inl on ↦
      let c =
        checked_iff lossy health.port health_bind (codes "5s")
          (exchange health_bind health.port (health_request health_bind)) k in
      (λ h. (on, c.0 (rw on at h)), λ r. rw on (c.1 r.1))
  | inr off ↦ (λ h. absurd (ground (arith, off)), λ r. absurd (ground (arith, off, r.0)))
]
