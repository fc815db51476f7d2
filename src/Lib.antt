-- ===== src/Lib.antt =====
-- server-watch measures the CPU, the memory and the disk of a machine every five seconds, keeps the
-- measurements in SQLite, raises and resolves alerts, and sends a notification of each change. The
-- development follows the Go packages:
--
-- - Model: internal/system/model, internal/notifications/notification.go
-- - Config, Config/Validation, Config/Loading: internal/config/config.go (`Validate`, `Load`,
--   `SaveToYAML`, the environment)
-- - Alerts/Store: the interfaces of internal/system/redis.go; `StoreLaws` is the contract of a store of
--   alert states. Alerts/Memory: internal/system/alert-state-store/alert-state-store.go. Alerts/Redis:
--   internal/redis/alert-state-store.go and set_state.lua, while Redis is up and (Unreachable) while it
--   is out of reach. Alerts/Fallback: internal/system/fallback-alert-state-store.go over two backends.
--   Alerts/Store/Agreement and Alerts/Agreement: the same calls on two stores.
-- - System/Interfaces: internal/system/repository.go and the other interfaces; `RepositoryLaws` is the
--   contract of a repository. System: internal/system/system.go (`CollectMetrics`, `updateAlerts`,
--   `processAlerts` and the functions below them). System/Collector: the loop of
--   `startMetricsCollector` in cmd/server-watch/main.go. System/Settings: internal/system/config.go,
--   health.go, metrics.go. System/Hysteresis/Verdict: when an alert is to be active, told from the
--   measurements alone. System/Announcements: what a subscriber learns from the notifications;
--   System/Subscriber: over a whole run of the collector
-- - Storage: internal/storage/repository.go; Storage/Table and Storage/Contract: the table of alerts
--   and the contract of the repository; Storage/Listing: the list of active alerts
-- - RedisClient: the calls of the Redis client library, with the documented behaviour as laws;
--   RedisClient/Expiry: the laws with the lifetimes of keys, for Alerts/Redis/Lifetime
-- - RedisClient/Connection: internal/redis/redis.go. Storage/Connection: internal/storage/sqlite.go and
--   `setupDatabase` of the main program
-- - Cache: internal/redis/metrics-cache.go; Cache/Torn: after a `SetMetrics` that broke off. Cpu:
--   internal/system/data/cpu.go. Data: memory.go and disk.go beside it
-- - Notifications/Sender: internal/notifications/http-sender.go. Notifications/Worker: worker.go.
--   Notifications/Queue: internal/redis/notification-queue.go
-- - Prometheus: the gauges and the histogram of internal/prometheus/prometheus.go;
--   Prometheus/Registry: their registration
-- - Http: what the handlers use of `net/http`; `ResponseWriter` is an interface with the writer of the
--   server and, in Handlers/Middleware, the recorder of `MetricsMiddleware` as instances. Handlers:
--   internal/handlers, one module for each handler, over the interface `System`
-- - Server: `newHTTPServer` of the main program, with the system as an instance of `System`; its
--   children: what a request runs (Routes), changes (Effects), has recorded (Recording) and is answered
--   (Verdicts, Replies, Updates, Bounds)
-- - Service: the start of cmd/server-watch/main.go from the configuration on, and a step relation for
--   what runs afterwards: rounds, requests, reads of the queue, and the ends of the goroutines.
--   Service/Draining, Service/Ordered and Service/Shutdown: its end. Service/Process: `main` as a whole, by the result
--   of `server.Shutdown`. Service/Wiring: the stores that `main` builds the system on, put together
--   from the modules above, while Redis is out of reach; Service/Delivery: from a measurement to the
--   senders, while Redis answers; Service/Current: from a measurement to the answer of `/metrics`
-- - Tests: concrete instances of every parameter, and the theorems applied to them
--
-- How they interact: the collector calls `CollectMetrics`, which saves the measurement in the
-- repository, counts it in the store of alert states, and by the counts creates or resolves alerts in
-- the repository and pushes notifications to the queue; the worker takes them from the queue and gives
-- them to the senders. The server runs the handlers, which read the same system and change its
-- configuration. A client module is stated over a contract (`StoreLaws`, `RepositoryLaws`), and the
-- implementations' theorems fill it (`memory_laws`, `redis_laws`, `healthy_laws`, `outage_laws`,
-- `sqlite_laws`).
--
-- State and errors: an operation is an `Action S A`, from a state to a result and the state after it,
-- also after an error. An error is one of the program's sentinel errors, a message, an error of a
-- library or a wrapper; values printed into a message are left out of its text. What is only logged is
-- left out, and so are the timeout of a second on each SQL statement and the locks, which make each
-- method atomic. In Service a round is three steps (`measure`, `record_metrics`, `evaluate`) with
-- requests between them, and a whole request is one; Service/Rounds joins the three. A handler takes
-- and returns a response and the system.
--
-- Numbers: `float64` is a parameter with the operations that the program uses, so the theorems hold for
-- any behaviour of them; with the database they are the numbers that it keeps, so not NaN, which SQLite
-- stores as NULL. A count is an `int64` and wraps at 2^63 in the in-memory store. Times are nanoseconds. `for attempt := range 3` is recursion on the rounds left, started at 3; the worker's
-- loop is recursion on the outcomes of its polls, and the collector's on its ticks.
--
-- Parameters, since their code is not in the repository: the Redis server and its client, the SQL
-- database, the files, YAML and JSON, MIME types and RFC 3339, the environment, the network, the clock,
-- the Prometheus client and the profiler, and the files and calls that the readings come from. Not
-- modelled: logging, and of the main program what sends a signal and how long the shutdown may take
-- (both are steps that may happen); keys of Redis that expire, but for Alerts/Redis/Lifetime; the
-- redirect of `http.ServeMux` for paths that are not clean; headers of requests and responses beyond
-- those that the handlers read and set.
pub mod Base
pub mod Model
pub mod RedisClient
pub mod Alerts
pub mod Config
pub mod Prometheus
pub mod System
pub mod Notifications
pub mod Storage
pub mod Cache
pub mod Cpu
pub mod Http
pub mod Handlers
pub mod Server
pub mod Service
pub mod Data
mod Tests
