-- ===== src/Lib.antt =====
-- devengine: runtime infrastructure for Go services. This library models the parts that keep work in
-- PostgreSQL until it is done, delayed jobs and the outbox of events, with what they rest on:
-- transactions that are retried, and migrations; and the life of a service: its start and shutdown, its
-- readiness, its settings, the address of a request's client, mail over SMTP, small secrets, and the
-- drift of the database's schema.
--
-- Parts, and the code they stand for (paths from the repository's root):
--
--   Common   numbers, lists, maps, results and Go strings as bytes, with UTF-8 validity
--            (`utf8.ValidString`) and `strings.TrimSpace`, which the source uses.
--   Retry    `backoff` and `truncateUTF8`, which jobs/worker.go and outbox/outbox.go both contain.
--   Jobs     jobs/. Table has the rows of devengine_jobs (jobs/schema.go) and one function for each SQL
--            statement of the worker; Config the defaults of `WorkerConfig`; Registry, Enqueue and
--            Repository the operations of jobs/jobs.go and jobs/repository.go; Worker has
--            `processBatch`, with `callHandler` (jobs/worker.go). System is the step relation of a table
--            that any number of workers and administrators use.
--   Events   events/events.go: the registry of event handlers.
--   Outbox   outbox/outbox.go: Table has the rows of outbox_messages and the statements, Enqueue
--            `Enqueue` with its options, Relay `processBatch` and `deliver`, which calls the handlers of
--            an Events registry, and System the step relation of many relays.
--   Postgres postgres/tx.go: Retryable has `isRetryable` and the waits, Transaction `withTransaction` with
--            its retry loop, `runInTx` and `withSavepoint`.
--   Migrate  migrate/migrate.go: Files has the file names and versions, Load `loadSources`, Apply `Apply`,
--            `applyOne` and `Status`.
--   Config   config/env.go: the readers of the environment, with `strconv.ParseBool` and `strconv.Atoi`.
--   Health   health/registry.go: the registry of checks and the readiness handler.
--   Engine   engine/: the module itself has `Register` and `AddWorker`, with a module's `Register` as the tree
--            of its calls; Run `Run` from the start of the goroutines on, as the sequence of what they
--            report, and `waitForWorkers`; Options engine/options.go and the order of the middleware.
--   Clientip httpx/clientip/clientip.go: the module itself, Ipv6, Print and Prefix have what the package
--            uses of net/netip, Headers the parsers of the forwarding headers, Resolve `New` and `Resolve`.
--   Secrets  secrets/secrets.go: opaque values and `Cipher`.
--   Mail     mail/smtp.go: the module itself has `NewSMTP` and `tlsConfig`, Send `Send` with its checks.
--   Schema   schema/schema.go: Capture has `Capture` with its five loops over rows, Unmarshal
--            `UnmarshalSnapshot`, Drift the entries and their texts, Diff `compare` with its parts.
--
-- How state and operations correspond. A table is the list of its rows in the server's order. A
-- statement is a function that returns the new table and the number of affected rows; it is atomic, as
-- PostgreSQL's row locks make it. `FOR UPDATE SKIP LOCKED` is a predicate that tells which rows another
-- transaction holds. An `ORDER BY` with ties leaves tied rows in the table's order. Times are
-- microseconds of the database clock, durations nanoseconds. A statement's answer may be lost after the
-- server has carried it out, or the statement may not have reached the server; both are cases of
-- `Answer`. A step of a System is one statement of one worker or administrator, or a crash; histories
-- are all orders of steps, so every interleaving is one. A renewal may come when its worker no longer
-- works on the claim; the histories of jobs count these.
--
-- Parameters: what a handler does, the text of an error (`message`), the random source (`draw`), the
-- UUID, `json.Marshal`, SHA-256, AES-GCM, the mail library's parser and printer of addresses, the SMTP
-- server's answers, what the server makes of a migration's script (`execute`), an interval as the server
-- reads its text (`interval`), and the collation of texts. The claims of the System of
-- jobs use a prefix that no token in use has, since each claim makes a new UUIDv7. What the catalog
-- queries of a schema give is an argument, with an error at any row. A loop over a map takes the map's
-- entries as they stand. Where Go's select may take either of two cases, an argument says which.
--
-- Bounds: an int64 is written as its bits modulo 2 ^ 64. The loop of `truncateUTF8` recurses on the
-- length of the text, and that of `backoff` on the attempt, so neither needs fuel beyond its input;
-- `TrimSpace` recurses on the text's length, and each round removes at least a byte. The loop over the
-- groups of an IPv6 address makes eight rounds at most, one for each group that is missing.
--
-- Not modelled: the tickers and goroutines of `Run` and `startLeaseRenewal` (their statements are steps
-- that may come at any time), logging, tracing and metrics other than the status of an outcome; that
-- JSONB may store a payload with other white space; postgres/postgres.go; `Duration` of config/env.go;
-- the goroutines of a readiness request, whose results come in any order; the engine's routes and HTTP
-- server; JSON texts, of which the schema's snapshots are taken as the struct that they decode to; the
-- deprecated part of httpx/clientip; and the other packages (httpx, id, telemetry,
-- testutil, the command line tool and the examples).
pub mod Clientip
pub mod Common
pub mod Config
pub mod Engine
pub mod Events
pub mod Health
pub mod Jobs
pub mod Mail
pub mod Migrate
pub mod Outbox
pub mod Postgres
pub mod Retry
pub mod Schema
pub mod Secrets
