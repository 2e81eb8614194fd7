-- ===== src/Gateway.antt =====
-- cmd/gateway/main.go: the gateway as its components and what they share.
pub mod Valid
pub mod Init
pub mod Chain
pub mod Serve
pub mod Background
pub mod Reach
mod Tests
use microgate.Base.{ℕ, ◌+◌, Bool, Option, some, List, [], ◌∷◌, GoString, lit}
use microgate.Base.Floats.{Float64}
use microgate.Http.{Request, Call, Handler, Cell, http_error}
use microgate.Analytics.State.{Analyzer}
use microgate.Analytics.Api.{AnalyticsApi}
use microgate.Analytics.Api as Analytics
use microgate.CircuitBreaker.{CircuitBreaker}
use microgate.RateLimit.{RateLimiter}
use microgate.RateLimit.Adaptive.{AdaptiveRateLimiter}
use microgate.Traffic.{TrafficRecorder}
use microgate.Logging.{LogEntry, Observation}
use microgate.Capture.{Capture}
use microgate.Health.{HealthChecker}
use microgate.Proxy.Router.{Reply, not_found, moved, unavailable, bad_url, forward}
use microgate.Dashboard.LogStore.{RequestLog}
use microgate.Dashboard.Api.{Api, Outside}

-- `clock` and `random_id` are what the clock and the random source give next. `api` holds the process manager,
-- the health checker, the proxy, the log store and the broker; `pending` is the channel of the request logs. What
-- the configuration does not enable stays as it was made.
pub record Gateway (F : Type 0) : Type 0 where
  pub clock : ℕ
  pub random_id : GoString
  pub api : Api F
  pub pending : List RequestLog
  pub observed : List Observation
  pub output : List LogEntry
  pub traffic : TrafficRecorder
  pub limiter : RateLimiter F
  pub adaptive : AdaptiveRateLimiter F
  pub breaker : CircuitBreaker
  pub analyzer : Analyzer F

-- What the gateway meets outside of the program: whether a URL parses, the random numbers of the balancers, a
-- backend's answer to a request (which ends in `abort` where the reverse proxy panics) and how long it takes, the token parser, whether net/http takes the path
-- as it is, its redirection, prometheus, the files of the dashboard, the encodings, and the rest of
-- what one request to the dashboard meets.
pub record World (F : Type 0) : Type 0 where
  pub parses : GoString → Bool
  pub intn : ℕ → ℕ
  pub rand : F
  pub exchange : GoString → Request → List Call × ℕ
  pub jwt_parse : GoString → GoString → Option Bool
  pub is_clean : Request → Bool
  pub redirect : Request → List Call
  pub prometheus : List Observation → List Call
  pub files : Request → List Call
  pub encode_health : GoString → HealthChecker → GoString
  pub encode_analytics : Analytics.Payload F → GoString
  pub outside : Outside F

module _ {F : Type 0} where
  -- The variables that the closures of the middleware share.
  abbrev pub capture_cell : Cell (Gateway F) Capture
  capture_cell = record {
    get = λ s. record { logs = s.pending; store = s.api.store };
    put = λ c s. record s { pending = c.logs; api = record s.api { store = c.store } };
  }

  abbrev pub observed_cell : Cell (Gateway F) (List Observation)
  observed_cell = record { get = λ s. s.observed; put = λ v s. record s { observed = v } }

  abbrev pub output_cell : Cell (Gateway F) (List LogEntry)
  output_cell = record { get = λ s. s.output; put = λ v s. record s { output = v } }

  abbrev pub traffic_cell : Cell (Gateway F) TrafficRecorder
  traffic_cell = record { get = λ s. s.traffic; put = λ v s. record s { traffic = v } }

  abbrev pub limiter_cell : Cell (Gateway F) (RateLimiter F)
  limiter_cell = record { get = λ s. s.limiter; put = λ v s. record s { limiter = v } }

  abbrev pub adaptive_cell : Cell (Gateway F) (AdaptiveRateLimiter F)
  adaptive_cell = record { get = λ s. s.adaptive; put = λ v s. record s { adaptive = v } }

  abbrev pub breaker_cell : Cell (Gateway F) CircuitBreaker
  breaker_cell = record { get = λ s. s.breaker; put = λ v s. record s { breaker = v } }

  abbrev pub now : Gateway F → ℕ
  now s = s.clock
