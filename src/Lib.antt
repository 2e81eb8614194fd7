-- ===== src/Lib.antt =====
-- microgate: an API gateway in Go. A request passes a chain of middleware (internal/middleware) and
-- reaches the proxy (internal/proxy), which picks a backend of its route by a load balancer that asks
-- the health checker (internal/health) and, for weighted balancing, the analyzer. The traffic
-- middleware feeds the traffic store and the analyzer learns baselines from it (internal/analytics);
-- the circuit breaker, the adaptive rate limiter and the weighted balancer read these baselines. The
-- dashboard (internal/dashboard) keeps the last requests, manages backend processes and streams events
-- to its clients through a broker. cmd/gateway/main.go makes all of it and wires it together.
--
-- The parts and the code that they model:
--   Base            what all parts share: lists by native index, strings as bytes, maps, float64;
--                   Decimal is strconv.Itoa and strconv.Atoi
--   Config          internal/config/config.go: the records, GetBackends and LoadConfig
--   Http            net/http as the code uses it; internal/middleware/chain.go, the wrappers of
--                   internal/middleware/capture.go and internal/middleware/logging.go, net.SplitHostPort
--   Auth            internal/middleware/auth.go: NewAuth, Middleware
--   CircuitBreaker  internal/middleware/circuitbreaker.go: `enter` and `finish` are the two critical sections
--                   of the handler, before and after the next handler runs; Traces runs them in any
--                   order for any number of requests in flight; Handler is Middleware itself
--   RateLimit       internal/middleware/ratelimit.go; RateLimit/Adaptive is
--                   internal/middleware/adaptive_ratelimit.go
--   Traffic         internal/middleware/traffic.go, in any order of requests and of the goroutine
--                   that drains the channel; internal/middleware/requestid.go, with Ids
--   Capture         internal/middleware/capture.go: LogCapture, with the channel and its goroutine
--   Logging         internal/middleware/logging.go: Logging and Metrics
--   Analytics       State, Statistics and Analyzer are internal/analytics/analyzer.go, Store is
--                   internal/analytics/store.go, Api is internal/analytics/api.go
--   Health          internal/health/health.go: RunChecks, AddBackend, IsHealthy, Handler
--   Proxy           LoadBalancer is internal/proxy/loadbalancer.go, Weighted is
--                   internal/proxy/weighted_lb.go, Router is internal/proxy/proxy.go
--   Dashboard       Ring is the ring arithmetic of internal/dashboard/store.go and
--                   internal/dashboard/process.go, LogStore is internal/dashboard/store.go, Process is
--                   internal/dashboard/process.go, Broker is internal/dashboard/sse.go, Api is
--                   internal/dashboard/api.go: Processes and Logs are its handlers, Mux its routing
--   Gateway         cmd/gateway/main.go: Init makes the gateway's state, Chain is the middleware around the
--                   proxy, Serve the top-level mux, Background one round of each goroutine, Reach all
--                   of them in any order; Valid and Steady are what they keep, Chain/Verdict is what a
--                   request comes to
--   TestBackend     cmd/testbackend/main.go, the backend of the gateway's runs
--
-- State is a record for each struct, and an operation returns the new state. A mutex makes an
-- operation one step; where the code releases it between two sections, as in the circuit breaker and
-- the process manager, the steps interleave freely. In Gateway/Reach a request is one step; requests
-- that overlap are in the Traces, Pipeline and Reach modules of the parts. A pointer that is shared
-- is a place in a list (the selectors of the proxy, the channels of the broker's clients) or a key that
-- never changes (the processes). A part reaches its state within the gateway's through a cell, a
-- pair of a read and a write. The clock, random numbers, the operating system's answers, probes of
-- backends, what a backend answers, JSON and the JWT parser are arguments.
--
-- Numbers: a time is nanoseconds since Go's zero time; a duration or a count that is
-- not positive is 0 where the code treats all such alike. The round-robin counter wraps at 2 ^ 64.
-- Counts and sums of latencies stay far below 2 ^ 63 and are not cut off. float64 is the interface
-- Base/Floats.Float64: what is proved holds for any of its implementations, and IsOrdered names what
-- is relied on where something is; tests run it in thousandths. Loops are recursion on the list or on
-- the number of rounds. The fuel of Itoa is the number and one more: no number has as many digits.
-- A map is an association list, and a `range` meets its keys in any order. A broadcast to a full channel
-- is one step with the round of the broker's loop that makes room for it. A handler that panics with
-- http.ErrAbortHandler, as the reverse proxy does when it cannot copy an answer to its end, has `abort` as
-- its last call: no code of the middleware that stands behind the call of the next handler runs then.
--
-- Not modelled: reading files, the JSON and YAML encoders, tickers, signals and listening (I/O), what
-- net/http/httputil does between the request that goes to a backend and the calls that answer it,
-- prometheus beyond the calls of it, Flush and Hijack of the response writers, which hand on, and the
-- browser dashboard.
pub mod Base
pub mod Config
pub mod Http
pub mod Analytics
pub mod CircuitBreaker
pub mod RateLimit
pub mod Auth
pub mod Traffic
pub mod Logging
pub mod Capture
pub mod Health
pub mod Proxy
pub mod Dashboard
pub mod Gateway
pub mod TestBackend
