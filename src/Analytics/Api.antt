-- ===== src/Analytics/Api.antt =====
-- internal/analytics/api.go: the handlers of /analytics/. Paths are as http.StripPrefix leaves them, and clean.
pub mod Laws
mod Tests
use microgate.Base.{
  ℕ, ◌+◌, ◌-◌, ◌^◌, Bool, true, false, not, ◌&&◌, Option, none, some, List, [], ◌∷◌, ◌++◌,
  if◌then◌else◌, leb, GoString, GoMap, lookup, insert, lit, str_eq, has_prefix, trim_prefix, length,
  take, drop,
}
use microgate.Base.Int.{ℤ}
use microgate.Base.Floats.{Float64}
use microgate.Http.{Request, Call, set_header, write, http_error}
use microgate.Analytics.State.{
  Anomaly, RouteBaseline, BackendBaseline, Analyzer, get_all_route_baselines,
  get_all_backend_baselines, get_recent_anomalies, hour,
}
use microgate.Analytics.Store.{Bucket, MemoryTrafficStore, avg_latency, error_rate, get_buckets}

-- `weights` is what the provider that was set returns, if one was set.
pub record AnalyticsApi (F : Type 0) : Type 0 where
  pub analyzer : Analyzer F
  pub store : MemoryTrafficStore
  pub weights : Option (GoMap F)

pub record RouteSummary (F : Type 0) : Type 0 where
  pub route : GoString
  pub avg_rate : F
  pub avg_latency_ms : F
  pub p99_latency_ms : F
  pub error_rate : F
  pub current_rate_limit : F
  pub anomalies_24h : ℕ

pub record HistoryPoint (F : Type 0) : Type 0 where
  pub timestamp : ℕ
  pub request_count : ℕ
  pub error_rate : F
  pub avg_latency_ms : F
  pub bytes_in : ℤ
  pub bytes_out : ℕ

pub record BackendSummary (F : Type 0) : Type 0 where
  pub backend : GoString
  pub avg_latency_ms : F
  pub error_rate : F
  pub weight : F

-- What is encoded as JSON: the values of the maps that the handlers build. `history` has the route, the bounds
-- of the time and the points.
pub data Payload (F : Type 0) : Type 0 where
  routes : List (RouteSummary F) → Payload F
  history : GoString → ℕ → ℕ → List (HistoryPoint F) → Payload F
  anomalies : List (Anomaly F) → ℕ → Payload F
  backends : List (BackendSummary F) → Payload F

-- `anomalyCounts[route]`
unfoldable pub anomaly_count : {F : Type 0} → GoString → List (Anomaly F) → ℕ
anomaly_count route [] = 0
anomaly_count route (a ∷ rest) = (if str_eq a.route route then 1 else 0) + anomaly_count route rest

-- `strings.TrimSuffix(s, suffix)`
unfoldable pub trim_suffix : GoString → GoString → GoString
trim_suffix s suffix =
    let kept = length s - length suffix in
    if leb (length suffix) (length s) && str_eq (drop kept s) suffix then take kept s else s

-- With a slash before it, unless it has one or is empty.
unfoldable pub rooted : GoString → GoString
rooted route =
    if str_eq route [] then [] else if has_prefix route (lit "/") then route else lit "/" ++ route

-- The route that a path names. The empty string stands for none.
unfoldable pub route_of : GoString → GoString
unfolding trim_suffix rooted
route_of path = rooted (trim_suffix (trim_prefix path (lit "/routes/")) (lit "/history"))

-- The answer to a request that is a GET.
answer_get : Request → List Call → List Call
answer_get r calls =
    if not (str_eq r.method (lit "GET")) then http_error (lit "Method not allowed") 405 else calls

module _ {F : Type 0} ⦃f : Float64 F⦄ where
  open f use {mul, div, of_nat}

  summary_of : List (Anomaly F) → GoString → RouteBaseline F → RouteSummary F
  summary_of found route b = record {
    route = route;
    avg_rate = b.mean_rate;
    avg_latency_ms = b.mean_latency_ms;
    p99_latency_ms = b.p99_latency_ms;
    error_rate = b.mean_error_rate;
    current_rate_limit = mul b.mean_rate (of_nat 3);
    anomalies_24h = anomaly_count route found;
  }

  route_summaries : List (Anomaly F) → GoMap (RouteBaseline F) → List (RouteSummary F)
  unfolding summary_of
  route_summaries found [] = []
  route_summaries found ((route, b) ∷ rest) = summary_of found route b ∷ route_summaries found rest

  point_of : Bucket → HistoryPoint F
  point_of b = record {
    timestamp = b.timestamp;
    request_count = b.request_count;
    error_rate = error_rate b;
    avg_latency_ms = div (of_nat (avg_latency b)) (of_nat (10 ^ 6));
    bytes_in = b.bytes_in;
    bytes_out = b.bytes_out;
  }

  unfoldable pub points_of : List Bucket → List (HistoryPoint F)
  unfolding point_of
  points_of [] = []
  points_of (b ∷ bs) = point_of b ∷ points_of bs

  weight_in : Option F → F
  weight_in none = of_nat 0
  weight_in (some w) = w

  weight_of : Option (GoMap F) → GoString → F
  unfolding weight_in
  weight_of none backend = of_nat 0
  weight_of (some weights) backend = weight_in (lookup backend weights)

  backend_summaries : Option (GoMap F) → GoMap (BackendBaseline F) → List (BackendSummary F)
  unfolding weight_of
  backend_summaries weights [] = []
  backend_summaries weights ((backend, b) ∷ rest) =
      record {
        backend = backend;
        avg_latency_ms = b.mean_latency_ms;
        error_rate = b.mean_error_rate;
        weight = weight_of weights backend;
      }
      ∷ backend_summaries weights rest

  unfoldable pub history_of : AnalyticsApi F → GoString → ℕ → Payload F
  history_of api route now =
      history route (now - hour) now (points_of (get_buckets api.store route (now - hour) now))

  module _ (encode : Payload F → GoString) where
    abbrev pub reply : Payload F → List Call
    reply payload =
        set_header (lit "Content-Type") (lit "application/json") ∷ write (encode payload) ∷ []

    unfoldable pub handle_routes : AnalyticsApi F → Request → List Call
    unfolding answer_get route_summaries
    handle_routes api r =
        let found = get_recent_anomalies api.analyzer in
        answer_get r (reply (routes (route_summaries found (get_all_route_baselines api.analyzer))))

    unfoldable pub handle_route_history : AnalyticsApi F → Request → ℕ → List Call
    unfolding answer_get
    handle_route_history api r now =
        let route = route_of r.path in
        let found = reply (history_of api route now) in
        answer_get r
          (if str_eq route [] then http_error (lit "route parameter required") 400 else found)

    unfoldable pub handle_anomalies : AnalyticsApi F → Request → List Call
    unfolding answer_get
    handle_anomalies api r =
        let found = get_recent_anomalies api.analyzer in
        answer_get r (reply (anomalies found (length found)))

    unfoldable pub handle_backends : AnalyticsApi F → Request → List Call
    unfolding answer_get backend_summaries
    handle_backends api r =
        answer_get r (
          reply (backends (backend_summaries api.weights (get_all_backend_baselines api.analyzer))))

    -- net/http takes the longest pattern that fits; here no two that fit are registered.
    unfoldable pub handler : AnalyticsApi F → Request → ℕ → List Call
    handler api r now =
        if str_eq r.path (lit "/routes")
        then handle_routes api r
        else if has_prefix r.path (lit "/routes/")
        then handle_route_history api r now
        else if str_eq r.path (lit "/anomalies")
        then handle_anomalies api r
        else if str_eq r.path (lit "/backends")
        then handle_backends api r
        else http_error (lit "404 page not found") 404
