-- ===== src/Gateway/Background.antt =====
-- cmd/gateway/main.go: what the goroutines that the gateway starts do to the shared state, one round at a time.
pub mod Valid
use microgate.Base.{ℕ, Bool, Option, List, [], ◌∷◌, GoString, lit}
use microgate.Base.Floats.{Float64}
use microgate.Analytics.Store.{cleanup}
use microgate.Analytics.Analyzer.{analyze}
use microgate.Capture as Capture
use microgate.Traffic as Traffic
use microgate.Health.{run_checks}
use microgate.Proxy.Weighted.{rebalance}
use microgate.Proxy.Router.{Selector, plain, weighted}
use microgate.Dashboard.LogStore.{RequestLog}
use microgate.Dashboard.Broker.{Broker, send}
use microgate.Dashboard.Api.Logs as Logs
use microgate.Gateway.{Gateway, World, capture_cell}

-- What the hooks of the log store and the health checker send to the broker.
send_requests : (RequestLog → GoString) → List RequestLog → Broker → Broker
send_requests encode [] b = b
send_requests encode (log ∷ rest) b =
    send_requests encode rest (send b (record { type = lit "request"; json = encode log }))

send_services : (GoString × Bool → GoString) → List (GoString × Bool) → Broker → Broker
send_services encode [] b = b
send_services encode (change ∷ rest) b =
    send_services encode rest (send b (record { type = lit "service"; json = encode change }))

module _ {F : Type 0} ⦃f : Float64 F⦄ where
  -- The goroutine of the capture takes a log.
  unfoldable pub capture_round : (RequestLog → GoString) → Gateway F → Gateway F
  unfolding send_requests
  capture_round encode s =
      let (c, fired) = Capture.work (capture_cell.get s) in
      let s' = capture_cell.put c s in
      record s' { api = record s'.api { broker = send_requests encode fired s'.api.broker } }

  -- The goroutine of the traffic recorder takes an event.
  unfoldable pub traffic_round : Gateway F → Gateway F
  traffic_round s = record s { traffic = Traffic.work s.traffic }

  -- One round of the health checks.
  unfoldable pub health_round :
      (GoString → Option ℕ) → (GoString × Bool → GoString) → Gateway F → Gateway F
  unfolding send_services
  health_round probe encode s =
      let (hc, fired) = run_checks probe s.clock s.api.hc in
      record s { api = record s.api { hc = hc; broker = send_services encode fired s.api.broker } }

  unfoldable pub analyzer_round : Gateway F → Gateway F
  analyzer_round s = record s { analyzer = analyze s.analyzer s.traffic.store s.clock }

  unfoldable pub cleanup_round : Gateway F → Gateway F
  cleanup_round s = record s {
    traffic = record s.traffic { store = cleanup s.traffic.store s.clock };
  }

  -- One tick of each weighted balancer.
  rebalance_each : Gateway F → List (Selector F) → List (Selector F)
  rebalance_each s [] = []
  rebalance_each s (plain lb ∷ rest) = plain lb ∷ rebalance_each s rest
  rebalance_each s (weighted wlb ∷ rest) =
      weighted (rebalance wlb s.analyzer) ∷ rebalance_each s rest

  unfoldable pub rebalance_round : Gateway F → Gateway F
  unfolding rebalance_each
  rebalance_round s = record s {
    api = record s.api {
      proxy = record s.api.proxy { selectors = rebalance_each s s.api.proxy.selectors };
    };
  }

  unfoldable pub metrics_round : World F → Gateway F → Gateway F
  metrics_round w s = record s { api = Logs.broadcast_metrics w.outside s.api }
