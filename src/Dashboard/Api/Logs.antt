-- ===== src/Dashboard/Api/Logs.antt =====
-- internal/dashboard/api.go: the handlers of /logs, /logs/, /routes and /metrics, and the broadcast of the metrics.
pub mod Laws
use microgate.Base.{
  ℕ, ◌+◌, ◌-◌, Bool, true, false, not, ◌&&◌, Option, none, some, List, [], ◌∷◌, if◌then◌else◌, ◌==◌,
  GoString, lit, str_eq, trim_prefix,
}
use microgate.Base.Int.{ℤ, pos, negsuc, pos_part}
use microgate.Base.Decimal.{atoi}
use microgate.Base.Floats.{Float64}
use microgate.Http.{Request, Call, http_error}
use microgate.Health.{HealthChecker, backend_counts}
use microgate.Proxy.Router.{route_names}
use microgate.Dashboard.LogStore.{RequestLog, LogStore, recent, get_by_id, search}
use microgate.Dashboard.LogStore.Metrics.{metrics}
use microgate.Dashboard.Broker.{Broker, send}
use microgate.Dashboard.Api.{Api, Payload, logs, log, routes, Outside, not_allowed, reply, query}
use microgate.Dashboard.Api as Payload
use microgate.Dashboard.Api.Processes.{limit_of}

-- A parameter that is a number, else 0.
number_or_zero : Option ℤ → ℤ
number_or_zero none = pos 0
number_or_zero (some z) = z

unfoldable pub status_of : GoString → ℤ
unfolding number_or_zero
status_of text = if str_eq text [] then pos 0 else number_or_zero (atoi text)

is_zero : ℤ → Bool
is_zero (pos n) = n == 0
is_zero (negsuc n) = false

-- The logs that are listed. `Search` takes a negative status for none.
unfoldable pub listed : LogStore → ℕ → ℤ → GoString → List RequestLog
unfolding is_zero
listed store limit status path =
    if is_zero status && str_eq path []
    then recent store limit
    else search store limit (pos_part status) path

-- The answer to a request that is a GET.
answer_get : Request → List Call → List Call
answer_get r calls = if not (str_eq r.method (lit "GET")) then not_allowed else calls

module _ {F : Type 0} where
  unfoldable pub handle_logs : Outside F → Request → Api F → List Call × Api F
  unfolding answer_get
  handle_logs o r api =
      let found =
        listed api.store (limit_of 50 (query r (lit "limit"))) (status_of (query r (lit "status")))
          (query r (lit "path")) in
      (answer_get r (reply o (logs found)), api)

  unfoldable pub handle_routes : Outside F → Request → Api F → List Call × Api F
  unfolding answer_get
  handle_routes o r api = (answer_get r (reply o (routes (route_names api.proxy))), api)

  log_reply : Outside F → Option RequestLog → List Call
  log_reply o none = http_error (lit "Log not found") 404
  log_reply o (some found) = reply o (log found)

  unfoldable pub handle_log_detail : Outside F → Request → Api F → List Call × Api F
  unfolding answer_get log_reply
  handle_log_detail o r api =
      let id = trim_prefix r.path (lit "/logs/") in
      let found = log_reply o (get_by_id api.store id) in
      let detail = if str_eq id [] then http_error (lit "Log ID required") 400 else found in
      (answer_get r detail, api)

module _ {F : Type 0} ⦃f : Float64 F⦄ where
  -- The uptime is in nanoseconds.
  unfoldable pub metrics_payload : Api F → ℕ → Payload F
  metrics_payload api now =
      Payload.metrics (metrics api.store now) (backend_counts api.hc) (now - api.hc.start_time)

  unfoldable pub handle_metrics : Outside F → Request → Api F → List Call × Api F
  unfolding answer_get
  handle_metrics o r api = (answer_get r (reply o (metrics_payload api o.now)), api)

  -- One tick of `StartMetricsBroadcast`.
  unfoldable pub broadcast_metrics : Outside F → Api F → Api F
  broadcast_metrics o api = record api {
    broker =
        send api.broker
          (record { type = lit "metrics"; json = o.encode (metrics_payload api o.now) });
  }
