-- ===== src/Lib.antt =====
-- Consensus proxy: a load balancer for Ethereum beacon nodes, modelled part by part.
--
-- main.go reads the arguments, loads the configuration, creates the logger and the balancer, checks
-- the nodes, and serves: /healthz, /metrics, and for all else the rate limiter in front of the CORS
-- wrapper in front of the balancer. A request enters `ServeHTTP` (cmd/loadbalancer/http_handler.go):
-- its path is checked by the endpoint validator, and the HTTP or the WebSocket handler tries the
-- healthy nodes in turn. Each attempt changes the counters of its node; enough server errors in a
-- row demote the primary. The periodic health check (cmd/loadbalancer/health_check.go) checks the
-- backups, restores, promotes and fails back, and builds the next list of healthy nodes.
--
-- The files:
--   Base                 Boolean tests and numbers, wrapping `int64`, lists, arrival orders
--   Config               cmd/config/config.go: the sections and the defaults
--   Config/Loading       cmd/config/config.go: `Load`, `LoadOrDefault`, `parseBeaconConfigs`
--   Config/Validation    cmd/config/config.go: `Validate`
--   Config/Address       cmd/config/config.go: `GetListenAddr`
--   Http                 what the code uses of Go's net/http: a response writer; its headers in
--                        Headers, and the functions of Go's strings package in Texts
--   Format               the verbs of Go's fmt that the code uses
--   Node                 cmd/beaconnode/node.go: counters and priority of a node
--   Node/Sync            cmd/beaconnode/health_check.go: the two checks of a node
--   Node/Director        cmd/beaconnode/proxy_config.go: the headers that a node gets
--   Node/Transport       cmd/beaconnode/proxy_config.go: the transport's settings
--   Node/DnsCache        cmd/beaconnode/dns_cache.go: the resolver's cache
--   Validator            cmd/validator/validator.go: patterns, compilation, matching
--   Balancer             cmd/loadbalancer/loadbalancer.go: the state, `New` and its accessors
--   Balancer/Recorder    cmd/loadbalancer/response_recorder.go
--   Balancer/Errors      cmd/loadbalancer/http_handler.go: `handleNodeError`, demotion
--   Balancer/Errors/Concurrent   the same, one access to shared state at a time
--   Balancer/Requests    cmd/loadbalancer/http_handler.go: `handleHTTPRequest` and its helpers
--   Balancer/Health      cmd/loadbalancer/health_check.go: `performHealthCheck`
--   Balancer/Startup     cmd/loadbalancer/health_check.go: `StartupHealthCheck`
--   Balancer/WebSocket   cmd/loadbalancer/websocket_handler.go, its copying loops in Copying
--   Balancer/Serve       cmd/loadbalancer/http_handler.go: `ServeHTTP`
--   Balancer/Configured  the balancer that is created from a loaded configuration
--   Balancer/Settled     balancers whose list of healthy nodes is in order
--   Balancer/Reach       histories of requests and rounds of checks, from creation on
--   RateLimit            cmd/ratelimit/ratelimit.go: windows, cleanup, addresses, middleware
--   Metrics              cmd/metrics/client.go: both clients, tags, the vectors by name
--   Handlers             cmd/handlers: the CORS wrapper and the health endpoint
--   Logger               cmd/logger/logger.go: loggers, the default one, what they write
--   Main                 main.go: arguments, start and failures; `setupRoutes` in Routes
--   Main/System          the running program: requests, rounds of checks and cleanups
-- The files under these hold their laws, and the Tests files runs on small inputs.
--
-- State. A `*BeaconNode` is an address of a heap that all lists of nodes share. Each operation
-- takes the balancer and returns the next one; the metrics calls are kept in it, the latest first.
-- A request and a round of checks, from the selection of the backups to its end, are taken as single
-- steps, in any order: in the code requests run while the backups are checked. The handling of
-- failed attempts, which shares counters without a lock, is also modelled access by
-- access, for requests that overlap in time (Balancer/Errors/Concurrent).
--
-- Numbers. The counters are `int64` and wrap around; `int` settings and durations are integers;
-- priorities and status codes are natural numbers.
--
-- Outside. The reverse proxies, the clock, the contexts, the WebSocket library, the HTTP client of
-- the checks, the JSON decoder, `url.Parse`, the files, and the handlers of slog and of Prometheus
-- are arguments: records of what they answer. An arrival order of concurrent results is a function
-- that `Reorders` a list.
--
-- Bounds. Every loop is over a list or a finite text, so that no fuel is needed, but for the digits
-- of a number: their fuel is one more than the number, and they are read back to it. A schedule of
-- overlapping requests is a list; ten steps of each are enough.
--
-- Not modelled: what the parts write to the log (only what main.go logs is), the listening server
-- and ServeMux's own redirects, the ping and close frames of WebSocket connections, and what the
-- Prometheus library makes of the observations that it is given.
pub mod Base
pub mod Config
pub mod Http
pub mod Format
pub mod Node
pub mod Validator
pub mod Balancer
pub mod RateLimit
pub mod Main
pub mod Metrics
pub mod Logger
pub mod Handlers
