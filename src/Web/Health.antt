-- ===== src/Web/Health.antt =====
-- crates/huginn-web/src/health.rs: `check_health`, and huginn/src/main.rs: `run_healthcheck`. What
-- comes of connecting to an address, sending a request and reading once, within the timeout, is an
-- input, and so is `from_utf8_lossy`.
pub mod Check
mod Tests
use huginn_io.Core.Anyhow.{Outcome, fine, refused, bail, context, ◌>>=◌}
use huginn_io.Core.Config.Address.{health_bind}
use huginn_io.Core.Config.{HealthConfig}
use huginn_io.Core.Decimal.{show_nat}
use huginn_io.Prelude.{
  ℕ, Bool, true, false, not, ◌&&◌, ◌||◌, List, [], ◌∷◌, ◌++◌, Option, none, some, take, ◌==◌,
  if◌then◌else◌, Text, Bytes, codes, starts_with,
}
use huginn_io.Probes.{Timed, done, broke, elapsed}

-- What the code asks of the network: an answer from this host and port to this request.
abbrev pub Exchange : Type 0
Exchange = Text → ℕ → Text → Timed Bytes

unfoldable pub health_request : Text → Text
health_request bind =
    codes "GET /health HTTP/1.0\r\nHost: " ++ (bind ++ codes "\r\nConnection: close\r\n\r\n")

abbrev pub buffer_size : ℕ
buffer_size = 64

-- The first of `str::lines`.
until_line_end : Text → Text
unfolding starts_with
until_line_end [] = []
until_line_end (c ∷ s) =
    let rest = until_line_end s in
    if c == b'\n' || (c == b'\r' && starts_with (codes "\n") s) then [] else c ∷ rest

first_line : Text → Option Text
unfolding until_line_end
first_line [] = none
first_line (c ∷ s) = some (until_line_end (c ∷ s))

line_or_empty : Option Text → Text
line_or_empty none = codes "<empty response>"
line_or_empty (some line) = line

bind_port : Text → ℕ → Text
bind_port bind port = bind ++ b':' ∷ show_nat port

-- Both `with_context` of the awaited exchange. `waited` is what the timeout prints as.
read_answer : (Bytes → Text) → Text → ℕ → Text → Timed Bytes → Outcome Text
unfolding bind_port
read_answer lossy bind port waited (done sent) = fine (lossy (take buffer_size sent))
read_answer lossy bind port waited (broke e) =
    context (codes "could not reach the health listener on " ++ bind_port bind port) (bail e)
read_answer lossy bind port waited elapsed =
    context (codes "no answer from " ++ (bind_port bind port ++ (codes " within " ++ waited)))
      (bail (codes "deadline has elapsed"))

unfoldable pub is_ok_status : Text → Bool
unfolding starts_with
is_ok_status result =
    starts_with (codes "HTTP/1.0 200") result || starts_with (codes "HTTP/1.1 200") result

judge_answer : Text → ℕ → Text → Outcome (Unit {0})
unfolding is_ok_status first_line line_or_empty bind_port
judge_answer bind port result =
    if is_ok_status result
    then fine tt
    else bail (
        codes "health listener on "
        ++ (bind_port bind port
            ++ (codes " did not answer 200: " ++ line_or_empty (first_line result))))

unfoldable pub check_health : (Bytes → Text) → Exchange → ℕ → Text → Outcome (Unit {0})
unfolding read_answer judge_answer health_request
check_health lossy exchange port waited = do
  result ←
      read_answer lossy health_bind port waited
        (exchange health_bind port (health_request health_bind))
  judge_answer health_bind port result

-- `HEALTHCHECK_TIMEOUT`, as it prints.
abbrev healthcheck_timeout : Text
healthcheck_timeout = codes "5s"

unfoldable pub run_healthcheck : (Bytes → Text) → Exchange → HealthConfig → Outcome (Unit {0})
unfolding check_health
run_healthcheck lossy exchange health =
    if not health.enabled
    then bail (
        codes "health.enabled is false in this config, so there is nothing to ask. "
        ++ codes "Either enable it, or drop the HEALTHCHECK from your deployment.")
    else check_health lossy exchange health.port healthcheck_timeout
