-- ===== src/Lib.antt =====
-- huginn.io: a monitor that probes targets on a timer and writes what it finds to InfluxDB.
--
-- The program. `huginn/src/scheduler.rs` runs one loop per configured probe. A probe
-- (`crates/huginn-probes`) turns what the network gives it into one `ProbeResult`
-- (`crates/huginn-core/src/types.rs`), which the event hub hands to every subscriber. The batcher
-- (`crates/huginn-influx/src/writer.rs`, `run_batcher`) groups results, renders them to line protocol
-- and pushes the batch on the retry queue (`crates/huginn-influx/src/queue.rs`), which is bounded in
-- bytes and evicts the oldest batch. The writer (`run_writer`) sends the batch at the front until
-- InfluxDB accepts it or refuses it for good. All of it is set up by `AppConfig`
-- (`crates/huginn-core/src/config.rs`), which is read, overridden from the environment, escaped and
-- validated before anything starts.
--
-- The files.
--   Prelude: the library's names, tests, lists, machine words and texts. A text is the list of its
--     code points.
--   Core/Platform: floating point and times, as a parameter.
--   Core/Anyhow: the errors of `anyhow`, a cause under its contexts.
--   Core/Hub: `event.rs`, as one subscriber sees it.
--   Core/Stats, Core/Error, Core/Types, Core/BTree, Core/Decimal: `stats.rs`, `error.rs`,
--     `types.rs`, and what they use of `BTreeMap` and of the number formats.
--   Core/Config: the records and defaults of `config.rs`; below it Address (`addresses_contend`),
--     Target (`validate_target`, and `split_host_port` of `tls.rs`), Messages (the error texts),
--     Validate (`validate`), Env (`apply_env_overrides`), Load (`load_with_warnings`) and
--     Secrets (`read_token`, `read_api_key`).
--   Influx/Queue: `RetryQueue`, one step per method, since each holds the lock throughout. An
--     `Arc<str>` is an id, which `Arc::ptr_eq` compares, and a text.
--   Influx/LineProtocol: `to_line_protocol`, the two escapes, and `urlencode`.
--   Influx/Batcher: `run_batcher` and `enqueue`, over a list of what `select!` chooses.
--   Influx/Writer: `WriteError`, `write_lines`, the delays, and `run_writer` as a step function on
--     where it stands, interleaved with the batcher's steps on the queue that both share. The queue
--     carries the counters that the program shares through an `Arc<WriteStats>`. Below it, Drain and
--     Abandoned are about how it ends.
--   Influx/Client: `InfluxWriter::new` and the write URL.
--   Probes: `with_probe_timeout` and `read_greeting_line` (`lib.rs`), one function per probe in
--     Kinds, the dispatch of `registry.rs` with the scheduler's `execute_probe` in Registry, and the
--     HTTP client and the resolver that the probes build in Clients.
--   Web: `crates/huginn-web`; Auth (who may scrape), Prometheus (`render` and what it uses), State
--     (`start_event_loop`, and what the browsers are sent), Headers (`apply_security_headers`), Serve
--     (the connection limit of `serve_with`), Health (`check_health`, with `run_healthcheck` of
--     `main.rs`), Listeners (the three binds) and Server (the routes of the three listeners and their
--     handlers). The hash map of results is the list of its entries, sorted by key.
--   System: `huginn/src`; the probe loop of the scheduler, what holds across the crates, and of
--     `main.rs`: Start (`run` up to the wait), Feed (the batcher as a subscriber of the hub),
--     Together (all probe loops with the hub and the batcher), Shutdown (`stop_probes`, and the drain
--     window), Output (`resolve_output_format`, `print_result`) and Main (`main`).
--   Each file that proves something about a component stands below it; Tests files apply the
--   theorems at concrete inputs, with the stand-ins of Core/Samples.
--
-- Bounds. One loop has fuel: `close_feed` of System/Feed counts its receptions, each of which leaves
-- less to be received, so that one more than was published is enough. Every other loop is recursion
-- over its input (the reads of a greeting, the events of a task, the batches of a queue). Endless
-- loops of the program are runs over finite lists of events of any length. `u64` and `usize` are
-- natural numbers that wrap at 2 ^ 64, as a release build does on a 64-bit target; where a theorem
-- needs that nothing wraps, it says so.
--
-- Parameters. `Platform` stands for `f64`, chrono's times and their formats; `Parsers` for the
-- standard library's address parsers; `Foreign` and `Timed` values for what calls of other libraries
-- come back with (the file system, sockets, serde_yaml, reqwest, rustls, x509_parser); `Exchange` for
-- one request and its answer; `HeaderApi`, `SemaphoreApi` and `BroadcastApi` for the header map of the
-- http crate and the semaphore and broadcast channel of tokio; `AxumApi` and `HyperApi` for axum's
-- router and hyper's wire format; `ReqwestApi` and `HickoryApi` for the clients of the probes;
-- `Terminal` for the clock, serde_json and the upper case of the console. No theorem supposes
-- anything of them but what it names.
--
-- Not modelled: logging, the parsing of the command line, the signal handlers, the assets of the
-- debug UI, serde, and the TLS configuration.
pub mod Prelude
pub mod Core
pub mod Influx
pub mod Probes
pub mod Web
pub mod System
