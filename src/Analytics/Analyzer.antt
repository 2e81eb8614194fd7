-- ===== src/Analytics/Analyzer.antt =====
-- internal/analytics/analyzer.go: one run of the analysis. The instants that `time.Now` returns during a
-- run are one instant here.
pub mod Laws
pub mod Anomalies
mod Tests
use microgate.Base.{
  ℕ, ◌+◌, ◌-◌, ◌*◌, ◌^◌, Bool, true, false, Option, none, some, List, [], ◌∷◌, ◌++◌, if◌then◌else◌,
  ltb, leb, ◌==◌, ◌||◌, GoString, GoMap, insert, lit, length,
}
use microgate.Base.Floats.{Float64, ratio}
use microgate.Analytics.State.{Anomaly, RouteBaseline, BackendBaseline, Analyzer, hour}
use microgate.Analytics.Store.{
  Bucket, MemoryTrafficStore, avg_latency, error_rate, get_all_buckets, get_backend_buckets,
}
use microgate.Analytics.Statistics.{mean, stddev, percentile}

-- `buckets[len(buckets)-1]`
last : Bucket → List Bucket → Bucket
last b [] = b
last b (c ∷ cs) = last c cs

since : {F : Type 0} → ℕ → List (Anomaly F) → List (Anomaly F)
since cutoff [] = []
since cutoff (x ∷ xs) = if leb cutoff x.timestamp then x ∷ since cutoff xs else since cutoff xs

module _ {F : Type 0} ⦃f : Float64 F⦄ where
  open f use {lt, sub, div, of_nat}

  abbrev rate_of : Bucket → F
  rate_of b = of_nat b.request_count

  -- `float64(b.AvgLatency()) / float64(time.Millisecond)`
  abbrev latency_of : Bucket → F
  latency_of b = div (of_nat (avg_latency b)) (of_nat (10 ^ 6))

  metrics_of : (Bucket → F) → List Bucket → List F
  metrics_of g [] = []
  metrics_of g (b ∷ bs) = g b ∷ metrics_of g bs

  unfoldable pub route_baseline : GoString → List Bucket → RouteBaseline F
  unfolding metrics_of
  route_baseline route buckets =
      let rates = metrics_of rate_of buckets in
      let error_rates = metrics_of error_rate buckets in
      let latencies = metrics_of latency_of buckets in
      record {
        route = route;
        mean_rate = mean rates;
        std_dev_rate = stddev rates;
        mean_error_rate = mean error_rates;
        std_dev_error = stddev error_rates;
        mean_latency_ms = mean latencies;
        std_dev_latency = stddev latencies;
        p99_latency_ms = percentile latencies (ratio 99 100);
        sample_size = length buckets;
      }

  unfoldable pub backend_baseline : GoString → List Bucket → BackendBaseline F
  unfolding metrics_of
  backend_baseline backend buckets =
      let error_rates = metrics_of error_rate buckets in
      record {
        backend = backend;
        mean_latency_ms = mean (metrics_of latency_of buckets);
        mean_error_rate = mean error_rates;
        std_dev_error = stddev error_rates;
        sample_size = length buckets;
      }

  -- The buffer of `AnomalyChannel`; a full one takes no more.
  unfoldable pub publish : List (Anomaly F) → Anomaly F → List (Anomaly F)
  publish channel anomaly = if ltb (length channel) 64 then channel ++ (anomaly ∷ []) else channel

  unfoldable pub check_anomaly : Analyzer F → GoString → GoString → F → F → F → ℕ → Analyzer F
  unfolding publish
  check_anomaly a route metric current centre deviation now =
      let z_score = div (sub current centre) deviation in
      let anomaly : Anomaly F = record {
        route = route;
        metric = metric;
        current = current;
        mean = centre;
        std_dev = deviation;
        z_score = z_score;
        timestamp = now;
      } in
      let found = record a {
        anomalies = a.anomalies ++ (anomaly ∷ []);
        channel = publish a.channel anomaly;
      } in
      if f.eq deviation (of_nat 0) || f.eq centre (of_nat 0)
      then a
      else if lt a.config.z_score_threshold z_score
      then found
      else a

  abbrev pub check_rate : Analyzer F → GoString → Bucket → RouteBaseline F → ℕ → Analyzer F
  check_rate a route current baseline now =
      check_anomaly a route (lit "request_rate") (rate_of current) baseline.mean_rate
        baseline.std_dev_rate now

  abbrev pub check_errors : Analyzer F → GoString → Bucket → RouteBaseline F → ℕ → Analyzer F
  check_errors a route current baseline now =
      check_anomaly a route (lit "error_rate") (error_rate current) baseline.mean_error_rate
        baseline.std_dev_error now

  abbrev pub check_latency : Analyzer F → GoString → Bucket → RouteBaseline F → ℕ → Analyzer F
  check_latency a route current baseline now =
      check_anomaly a route (lit "latency") (latency_of current) baseline.mean_latency_ms
        baseline.std_dev_latency now

  -- The newest bucket of the route against its baseline.
  unfoldable pub check_current : Analyzer F → GoString → Bucket → RouteBaseline F → ℕ → Analyzer F
  check_current a route current baseline now =
      let rate = check_rate a route current baseline now in
      let errors = check_errors rate route current baseline now in
      check_latency errors route current baseline now

  -- The body of the loop of `analyzeRoutes`.
  unfoldable pub analyze_route : Analyzer F → GoString → List Bucket → ℕ → Analyzer F
  unfolding last
  analyze_route a route [] now = a
  analyze_route a route (b ∷ []) now = a
  analyze_route a route (b ∷ c ∷ cs) now =
      let baseline = route_baseline route (b ∷ c ∷ cs) in
      check_current (record a { route_baselines = insert route baseline a.route_baselines }) route
        (last c cs) baseline now

  unfoldable pub analyze_each : Analyzer F → GoMap (List Bucket) → ℕ → Analyzer F
  analyze_each a [] now = a
  analyze_each a ((route, buckets) ∷ rest) now =
      analyze_each (analyze_route a route buckets now) rest now

  unfoldable pub analyze_routes : Analyzer F → MemoryTrafficStore → ℕ → ℕ → Analyzer F
  analyze_routes a store from to = analyze_each a (get_all_buckets store from to) to

  -- The body of the loop of `analyzeBackends`.
  unfoldable pub analyze_backend : Analyzer F → GoString → List Bucket → Analyzer F
  analyze_backend a backend buckets = if ltb (length buckets) 2 then a else record a {
    backend_baselines = insert backend (backend_baseline backend buckets) a.backend_baselines;
  }

  unfoldable pub analyze_each_backend : Analyzer F → GoMap (List Bucket) → Analyzer F
  analyze_each_backend a [] = a
  analyze_each_backend a ((backend, buckets) ∷ rest) =
      analyze_each_backend (analyze_backend a backend buckets) rest

  unfoldable pub analyze_backends : Analyzer F → MemoryTrafficStore → ℕ → ℕ → Analyzer F
  analyze_backends a store from to = analyze_each_backend a (get_backend_buckets store from to)

  unfoldable pub prune_anomalies : Analyzer F → ℕ → Analyzer F
  unfolding since
  prune_anomalies a now = record a { anomalies = since (now - 24 * hour) a.anomalies }

  unfoldable pub analyze : Analyzer F → MemoryTrafficStore → ℕ → Analyzer F
  analyze a store now =
      let from = now - a.config.window in
      prune_anomalies (analyze_backends (analyze_routes a store from now) store from now) now
