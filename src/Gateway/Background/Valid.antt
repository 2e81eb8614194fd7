-- ===== src/Gateway/Background/Valid.antt =====
-- cmd/gateway/main.go: the goroutines' rounds leave the gateway well-formed.
use microgate.Base.{◌≤◌, Bool, Option, List, [], ◌∷◌, GoString, ℕ, length, arith}
use microgate.Base.Floats.{Float64}
use microgate.Capture.{Capture}
use microgate.Capture as Capture
use microgate.Capture.Laws.{work-length}
use microgate.Health.{run_checks}
use microgate.Traffic.{TrafficRecorder}
use microgate.Traffic as Traffic
use microgate.Dashboard.LogStore.{RequestLog}
use microgate.Dashboard.Broker.{Broker}
use microgate.Dashboard.Broker.Laws.{IsSafe, send-IsSafe}
use microgate.Dashboard.Api.Logs.{broadcast_metrics}
use microgate.Gateway.{Gateway, World, capture_cell}
use microgate.Gateway.Valid.{IsValid}
use microgate.Gateway.Background.{
  send_requests, send_services, capture_round, traffic_round, health_round, analyzer_round,
  cleanup_round, rebalance_round, metrics_round,
}

send_requests-IsSafe :
    (encode : RequestLog → GoString) (logs : List RequestLog) (b : Broker)
    → IsSafe b
    → IsSafe (send_requests encode logs b)
unfolding send_requests
send_requests-IsSafe encode [] b h = h
send_requests-IsSafe encode (log ∷ rest) b h =
    send_requests-IsSafe encode rest _ (send-IsSafe b _ h)

send_services-IsSafe :
    (encode : GoString × Bool → GoString) (changes : List (GoString × Bool)) (b : Broker)
    → IsSafe b
    → IsSafe (send_services encode changes b)
unfolding send_services
send_services-IsSafe encode [] b h = h
send_services-IsSafe encode (change ∷ rest) b h =
    send_services-IsSafe encode rest _ (send-IsSafe b _ h)

work-logs_bound : (c : Capture) → length c.logs ≤ 256 → length (Capture.work c).0.logs ≤ 256
unfolding Capture.work
work-logs_bound c h = omega (arith, work-length c)

work-events_bound :
    (tr : TrafficRecorder) → length tr.events ≤ 256 → length (Traffic.work tr).events ≤ 256
unfolding Traffic.work
work-events_bound tr h = ground arith

module _ {F : Type 0} ⦃f : Float64 F⦄ where
  pub capture_round-IsValid :
      (encode : RequestLog → GoString) (s : Gateway F)
      → IsValid s
      → IsValid (capture_round encode s)
  unfolding capture_round
  capture_round-IsValid encode s ((reached, safe), logs, events) =
      let c = capture_cell.get s in
      (
        (reached, send_requests-IsSafe encode (Capture.work c).1 s.api.broker safe),
        work-logs_bound c logs,
        events,
      )

  pub traffic_round-IsValid : (s : Gateway F) → IsValid s → IsValid (traffic_round s)
  unfolding traffic_round
  traffic_round-IsValid s (api, logs, events) = (api, logs, work-events_bound s.traffic events)

  pub health_round-IsValid :
      (probe : GoString → Option ℕ) (encode : GoString × Bool → GoString) (s : Gateway F)
      → IsValid s
      → IsValid (health_round probe encode s)
  unfolding health_round
  health_round-IsValid probe encode s ((reached, safe), logs, events) = (
    (reached, send_services-IsSafe encode (run_checks probe s.clock s.api.hc).1 s.api.broker safe),
    logs,
    events,
  )

  pub metrics_round-IsValid :
      (w : World F) (s : Gateway F) → IsValid s → IsValid (metrics_round w s)
  unfolding metrics_round broadcast_metrics
  metrics_round-IsValid w s ((reached, safe), logs, events) =
      ((reached, send-IsSafe s.api.broker _ safe), logs, events)

  -- These change nothing that the invariant is about.
  pub analysis-IsValid :
      (s : Gateway F)
      → IsValid s
      → IsValid (analyzer_round s) × IsValid (cleanup_round s) × IsValid (rebalance_round s)
  unfolding analyzer_round cleanup_round rebalance_round
  analysis-IsValid s h = (h, h, h)
