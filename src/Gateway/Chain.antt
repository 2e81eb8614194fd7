-- ===== src/Gateway/Chain.antt =====
-- cmd/gateway/main.go: the proxy behind its middleware.
pub mod Limits
pub mod Blocked
pub mod Logged
pub mod Verdict
pub mod Steady
use microgate.Base.{
  ℕ, ◌+◌, Bool, true, false, ◌&&◌, some, List, [], ◌∷◌, ◌++◌, if◌then◌else◌, GoString, lit, insert,
}
use microgate.Base.Floats.{Float64}
use microgate.Config.{Config}
use microgate.Http.{Request, Call, Handler, Middleware, http_error}
use microgate.Http.Chain.{chain}
use microgate.Auth.{Auth, new_auth}
use microgate.Auth as Auth
use microgate.Traffic.{TrafficRecorder, normalize_route, request_id}
use microgate.Traffic as Traffic
use microgate.Capture as Capture
use microgate.Logging.{logging, metrics}
use microgate.RateLimit as Static
use microgate.RateLimit.Adaptive as Adaptive
use microgate.CircuitBreaker.Handler as Breaker
use microgate.Health.{is_healthy}
use microgate.Proxy.Router.{Proxy, Reply, not_found, moved, unavailable, bad_url, forward, serve}
use microgate.Dashboard.Api.{Api}
use microgate.Gateway.{
  Gateway, World, capture_cell, observed_cell, output_cell, traffic_cell, limiter_cell,
  adaptive_cell, breaker_cell, now,
}

-- The headers that the `Director` adds to the request that goes to the backend.
abbrev pub forwarded : Request → Request
forwarded r = record r {
  header =
      insert (lit "X-Gateway") (lit "tanmay-gateway")
        (insert (lit "X-Forwarded-Host") r.host r.header);
}

module _ {F : Type 0} ⦃f : Float64 F⦄ where
  -- The calls that a reply of the proxy comes to, and the time after it.
  answered : World F → Request → Reply → ℕ → List Call × ℕ
  answered w r not_found t = (http_error (lit "404 page not found") 404, t)
  answered w r moved t = (w.redirect r, t)
  answered w r unavailable t = (http_error (lit "No healthy backends available") 503, t)
  answered w r bad_url t = (http_error (lit "Bad backend URL") 500, t)
  answered w r (forward backend) t =
      let (calls, d) = w.exchange backend (forwarded r) in (calls, t + d)

  unfoldable pub proxy_handler : World F → Handler (Gateway F)
  unfolding answered
  proxy_handler w r s =
      let (reply, proxy) =
        serve w.parses s.api.proxy r.path (some (is_healthy s.api.hc)) w.intn w.rand in
      let (calls, t) = answered w r reply s.clock in
      (calls, record s { clock = t; api = record s.api { proxy = proxy } })

  -- `routeResolver`
  unfoldable pub route_resolver : Gateway F → GoString → GoString
  route_resolver s path = normalize_route s.traffic path

  -- Static or adaptive. The prefixes that the resolver reads never change.
  unfoldable pub rate_limit : Config F → Middleware (Gateway F)
  rate_limit cfg next r s =
      let adaptive =
        Adaptive.middleware adaptive_cell limiter_cell (λ g. g.analyzer) now (route_resolver s) next
          r s in
      let static = Static.middleware limiter_cell now next r s in
      if cfg.adaptive_rate_limit.enabled && cfg.analytics.enabled then adaptive else static

  traffic_recording : Bool → List (Middleware (Gateway F))
  traffic_recording true = Traffic.middleware traffic_cell now ∷ []
  traffic_recording false = []

  -- The middleware that decides whether a request goes on, with the one that logs what they decide.
  abbrev pub guarded : World F → Config F → List (Middleware (Gateway F))
  guarded w cfg =
      logging output_cell now
      ∷ rate_limit cfg
      ∷ Auth.middleware w.jwt_parse (new_auth cfg.auth.api_keys cfg.auth.jwt_secret)
      ∷ Breaker.middleware breaker_cell (λ g. g.analyzer) now
      ∷ []

  -- The middleware behind the one that makes the request id and the one that captures the log, with the recording
  -- of traffic or without it.
  abbrev pub inner_with :
      World F → Config F → List (Middleware (Gateway F)) → List (Middleware (Gateway F))
  inner_with w cfg recording = metrics observed_cell now ∷ (recording ++ guarded w cfg)

  unfoldable pub inner : World F → Config F → List (Middleware (Gateway F))
  unfolding traffic_recording
  inner w cfg = inner_with w cfg (traffic_recording cfg.analytics.enabled)

  unfoldable pub middlewares : World F → Config F → List (Middleware (Gateway F))
  middlewares w cfg =
      request_id (λ s. s.random_id) ∷ Capture.middleware capture_cell now ∷ inner w cfg

  unfoldable pub handler : World F → Config F → Handler (Gateway F)
  handler w cfg = chain (proxy_handler w) (middlewares w cfg)
