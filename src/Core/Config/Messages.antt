-- ===== src/Core/Config/Messages.antt =====
-- crates/huginn-core/src/config.rs: the texts of the errors that `validate` returns.
use huginn_io.Prelude.{ℕ, ◌++◌, [], ◌∷◌, Text, codes}
use huginn_io.Core.Decimal.{show_nat}

pub url_empty : Text
url_empty = codes "influx.url must not be empty"

pub url_relative : Text → Text
url_relative url =
    codes "influx.url '"
    ++ (url ++ codes "' must be an absolute URL starting with http:// or https://")

pub org_empty : Text
org_empty = codes "influx.org must not be empty"

pub bucket_empty : Text
bucket_empty = codes "influx.bucket must not be empty"

pub batch_size_zero : Text
batch_size_zero = codes "influx.batch_size must be > 0 (0 would flush a POST per probe result)"

pub batch_timeout_zero : Text
batch_timeout_zero =
    codes "influx.batch_timeout_ms must be > 0 (0 spins the batcher's flush timer at 100% CPU)"

pub max_buffered_zero : Text
max_buffered_zero =
    codes "influx.max_buffered_bytes must be > 0 "
    ++ codes "(0 makes the retry queue drop every batch during an outage)"

pub initial_backoff_zero : Text
initial_backoff_zero =
    codes "influx.retry_initial_backoff_ms must be > 0 "
    ++ codes "(0 retries in a tight loop against a failing server)"

pub max_backoff_zero : Text
max_backoff_zero = codes "influx.retry_max_backoff_ms must be > 0 (0 caps every retry wait at zero)"

pub ceiling_below_first : ℕ → ℕ → Text
ceiling_below_first max initial =
    codes "influx.retry_max_backoff_ms ("
    ++ (show_nat max
        ++ (codes ") is below influx.retry_initial_backoff_ms ("
            ++ (show_nat initial
                ++ codes ") — the ceiling must not be lower than the first delay")))

pub hub_capacity_zero : Text
hub_capacity_zero = codes "event_hub_capacity must be > 0"

-- For the listener of that name.
pub bind_not_ip : Text → Text → Text
bind_not_ip name bind =
    name
    ++ (codes ".bind '"
        ++ (bind ++ codes "' must be an IP address, e.g. '127.0.0.1', '0.0.0.0' or '::1'"))

pub port_zero : Text → Text
port_zero name =
    name
    ++ (codes ".port must not be 0 — port 0 asks the OS for an arbitrary free port, "
        ++ codes "so nothing could be configured to reach it")

pub api_key_file_empty : Text
api_key_file_empty = codes "metrics.api_key_file must not be empty (omit the key to disable auth)"

pub ui_metrics_collide : Text → ℕ → Text
ui_metrics_collide bind port =
    codes "ui and metrics are both enabled on "
    ++ (bind ++ (b':' ∷ (show_nat port ++ codes " — give metrics its own port (metrics.port)")))

pub health_collides : Text → Text → ℕ → Text
health_collides name bind port =
    name
    ++ (codes " is enabled on "
        ++ (bind
            ++ (b':'
                ∷ (show_nat port
                    ++ (codes ", which cannot be bound while the health listener holds 127.0.0.1:"
                        ++ (show_nat port
                            ++ (codes " — give "
                                ++ (name
                                    ++ codes " another port, or set health.enabled: false"))))))))

pub probe_name_empty : Text
probe_name_empty = codes "probe name must not be empty"

pub duplicate_name : Text → Text
duplicate_name name =
    codes "duplicate probe name '"
    ++ (name ++ codes "': names must be unique — they key the UI and the InfluxDB series")

-- `probe '{name}': ` in front of what is wrong with it.
pub of_probe : Text → Text → Text
of_probe name what = codes "probe '" ++ (name ++ (codes "': " ++ what))

pub target_empty : Text
target_empty = codes "target must not be empty"

pub interval_zero : Text
interval_zero = codes "interval_secs must be > 0"

pub timeout_zero : Text
timeout_zero = codes "timeout_secs must be > 0"

pub fail_days_not_finite : Text → Text
fail_days_not_finite days =
    codes "tls_expiry_fail_days must be a finite number (got "
    ++ (days
        ++ (codes ") — NaN makes every expiry comparison false, so the probe would report UP "
            ++ codes "however close the certificate is to expiring"))

pub fail_days_negative : Text
fail_days_negative =
    codes "tls_expiry_fail_days must be >= 0 "
    ++ codes "(omit it to fail only once the certificate has expired)"

pub status_out_of_range : ℕ → Text
status_out_of_range status =
    codes "expected_status "
    ++ (show_nat status
        ++ (codes " is not a valid HTTP status code (100-599), "
            ++ codes "so the probe could never match it"))

pub expected_ip_invalid : Text → Text
expected_ip_invalid ip =
    codes "dns_expected_ip '"
    ++ (ip
        ++ (codes "' is not an IP address — it is compared against the resolved address, "
            ++ codes "so nothing would ever match it"))

pub dns_target_invalid : Text → Text
dns_target_invalid target =
    codes "dns target '"
    ++ (target
        ++ (codes "' must be a nameserver address with a port, "
            ++ codes "e.g. '8.8.8.8:53' or '[2001:4860:4860::8888]:53'"))

pub port_missing : Text → Text → ℕ → Text
port_missing kind target hint =
    kind
    ++ (codes " target '"
        ++ (target
            ++ (codes "' must include a port, e.g. '"
                ++ (target ++ (b':' ∷ (show_nat hint ++ b'\'' ∷ []))))))

pub target_relative : Text → Text → Text
target_relative kind target =
    kind
    ++ (codes " target '"
        ++ (target ++ codes "' must be an absolute URL starting with http:// or https://"))
