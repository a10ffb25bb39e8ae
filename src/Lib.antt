-- ===== src/Lib.antt =====
-- SysSentient: a monitoring daemon. Agents on hosts collect samples, spool them on disk and push
-- them to a server; the server stores them, raises alerts by threshold rules, and serves a dashboard
-- to signed-in users, with an AI service behind a circuit breaker.
--
-- The parts and their files:
--   Prelude          Boolean tests, integers, lists, association lists as maps, and instants.
--   Models           internal/models/metrics.go: the sample that a host reports.
--   Alerting/Rule    internal/alerting/rule.go: rules, validation (`validate`), `metric_value`.
--   Alerting/Evaluator   internal/alerting/evaluator.go: Evaluate is `evaluate`, its loop
--     `eval_rules` and `eval_rule`, its switch `next_alert`; Active, ActiveForHost, Acknowledge,
--     ReplaceRules and ForgetHost have the same names.
--   Ai/CircuitBreaker    internal/ai/circuit_breaker.go: beforeRequest, afterRequest, Execute, Reset.
--   Server/RateLimit     internal/server/ratelimit.go: allow and sweepLocked (`sweep`).
--   Agent/SpoolFile, Agent/Spool   internal/agent/spool.go: the bytes of the spool file, and the durable
--     buffer on it.
--   Agent/Client     internal/agent/agent.go: Enqueue, Flush, push, Pending; and the loop of runAgent
--     in cmd/daemon/main.go (`run_agent`).
--   Config/Runtime   internal/config/runtime.go: the settings that change live (`apply_update` is Apply).
--   Config/File      internal/config/config.go: the configuration; `load_config` is LoadConfig,
--     `validate_config` Validate, and `runtime_of` NewRuntime.
--   Collector        internal/collector: ProcStat reads /proc/<pid>/stat (proctimes_linux.go), Processes is
--     getTopProcesses, Filesystems collectFilesystems and Collect the method of that name (collector.go).
--   Auth             internal/auth: roles and addresses (user.go), passwords (password.go), and the
--     setup token (setup.go).
--   Server/Sessions  internal/server/session.go and auth.go: issueSession, resolveSession,
--     authenticate, requireAuth and requireAdmin.
--   Server/AccountHandlers   internal/server/auth_handlers.go: handle_login is
--     handleLogin, and so on.
--   Server/AgentGate     internal/server/agent_handlers.go: authenticateAgent.
--   Server/AgentHandlers     the other handlers of that file: invitations, joining, revoking, listing.
--   Server/Ingest    internal/server/ingest.go: handleIngest and evaluateAndRecord, with mutedRules of
--     rule_handlers.go; it calls the evaluator, the dispatcher and the tables.
--   Server/Metrics   internal/server/metrics_range.go, and handleMetrics of server.go: parseRangeQuery and
--     the answer, with the raw samples that stand in for a tier without rows.
--   Server/Hub       internal/server/websocket.go: the hub of the live updates, as steps (`hub_step`) of
--     its goroutines, of Run, of the handlers, and of each client's write pump.
--   Alerting/Notify      internal/alerting/notify.go: which attempts Dispatch makes.
--   Storage/Samples, Storage/Events   internal/storage/sqlite.go: the tables of samples, of alert events
--     and of hosts.
--   Storage/Rollup   internal/storage/rollup.go: Rollup and PruneTiers.
--   Storage/TimeRange    internal/storage/timerange.go: ResolveResolution, QueryRange, GetRollupsRange.
--   Storage/Archive      internal/storage/archive.go: ArchiveTier and RestoreArchive.
--   Daemon/Maintenance   cmd/daemon/maintenance.go: `run` is a pass; Ledger keeps beside the tables what
--     has arrived.
--   Storage/Fleet    internal/storage/agents.go: invitations and agents' credentials.
--   Server/RuleHandlers  internal/server/rule_handlers.go: handleUpdateRule and handleResetRule.
--   Server/UserHandlers  internal/server/user_handlers.go.
--   Storage/RuleOverrides    internal/storage/rules.go: operators' changes of the alert rules.
--   Storage/Accounts     internal/storage/users.go and sessions.go: the tables of accounts.
--
-- State is passed explicitly: an operation takes its component's record and returns the new one with
-- the result. A method that holds its mutex from entry to exit is one step. Where several goroutines
-- meet, as at the circuit breaker and the hub, a run is any list of such steps.
--
-- A table is a list of rows or an association list under its key. An SQL statement is the operation on it
-- that SQLite documents: INSERT OR REPLACE is an insertion under the key, GROUP BY one row for each group,
-- and stored instants compare as their text does. AVG, MAX and weighted means are parameters
-- (`Aggregates`). A file of an archive holds what was written to it.
--
-- Not under this repository, and so arguments of the model: float64 (`FloatOps`, without laws),
-- encoding/json (`Codec`, with `CodecLaws`), the outcome of each file operation (`Faults`), of each
-- HTTP exchange (`Reply`) and of each SQL statement (a Boolean, or `up n` for the n-th of a
-- handler), SQLite's NOCASE collation, the functions of package strings (`TextOps`), argon2 and
-- SHA-256 (`Crypto`), random bytes, and the calendar of the time zone (`Calendar`, for AddDate). Conversions of float64 hours are `Hours`. An instant is a
-- number of nanoseconds with 0 for Go's zero time, a duration an integer of nanoseconds. Counters do
-- not overflow. The rate limiter's float64 is `FloatTime`, with the laws `FloatLaws`: whole numbers up
-- to 2 ^ 53 are exact, and rounding keeps the order. What the operating
-- system answers one poll of the collector is `Readings` and `ProcessTable`; `Orders` places what
-- slices.SortFunc finds equal and orders the range of a map, with the laws `IsOrders`. Of the collector's
-- float64 (`Arithmetic`) the only law is that cmp.Compare is an order (`IsWeakOrder`). What viper reads
-- of a configuration is `Reading` and the decoded `Config`.
--
-- Every loop is a structural recursion, so no fuel is used.
--
-- Not modelled: HTTP routing and encoding, SQL itself (opening, migrations, compaction), compression,
-- the text of insights, the AI service with its budget, reading of logs, joining on the agent's side,
-- the collector on systems other than Linux, the dashboard in web/, packaging.
mod Prelude
pub mod Models
pub mod Collector
pub mod Alerting
pub mod Ai
pub mod Server
pub mod Config
pub mod Auth
pub mod Agent
pub mod Storage
pub mod Daemon
