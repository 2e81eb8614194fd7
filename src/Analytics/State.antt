-- ===== src/Analytics/State.antt =====
-- The state of the analyzer (internal/analytics/analyzer.go) and the reads that other components make.
-- An instant and a duration are nanoseconds. A duration that is not positive is 0 here: the code
-- treats them all alike.
use microgate.Base.{
  ℕ, ◌-◌, ◌*◌, ◌^◌, Bool, Option, List, [], if◌then◌else◌, leb, ◌==◌, GoString, GoMap, lookup,
}
use microgate.Base.Floats.{Float64}

pub record Anomaly (F : Type 0) : Type 0 where
  pub route : GoString
  pub metric : GoString
  pub current : F
  pub mean : F
  pub std_dev : F
  pub z_score : F
  pub timestamp : ℕ

pub record RouteBaseline (F : Type 0) : Type 0 where
  pub route : GoString
  pub mean_rate : F
  pub std_dev_rate : F
  pub mean_error_rate : F
  pub std_dev_error : F
  pub mean_latency_ms : F
  pub std_dev_latency : F
  pub p99_latency_ms : F
  pub sample_size : ℕ

pub record BackendBaseline (F : Type 0) : Type 0 where
  pub backend : GoString
  pub mean_latency_ms : F
  pub mean_error_rate : F
  pub std_dev_error : F
  pub sample_size : ℕ

pub record AnalyzerConfig (F : Type 0) : Type 0 where
  pub interval : ℕ
  pub window : ℕ
  pub z_score_threshold : F

-- `channel` is what waits in the buffer of `AnomalyChannel`, oldest first.
pub record Analyzer (F : Type 0) : Type 0 where
  pub config : AnalyzerConfig F
  pub start_time : ℕ
  pub route_baselines : GoMap (RouteBaseline F)
  pub backend_baselines : GoMap (BackendBaseline F)
  pub anomalies : List (Anomaly F)
  pub channel : List (Anomaly F)

abbrev pub second : ℕ
second = 10 ^ 9

abbrev pub minute : ℕ
minute = 60 * second

abbrev pub hour : ℕ
hour = 60 * minute

module _ {F : Type 0} where
  -- `time.Since(start) >= window`
  unfoldable pub has_sufficient_data : Analyzer F → ℕ → Bool
  has_sufficient_data a now = leb a.config.window (now - a.start_time)

  unfoldable pub get_route_baseline : Analyzer F → GoString → Option (RouteBaseline F)
  get_route_baseline a route = lookup route a.route_baselines

  unfoldable pub get_all_route_baselines : Analyzer F → GoMap (RouteBaseline F)
  get_all_route_baselines a = a.route_baselines

  unfoldable pub get_backend_baseline : Analyzer F → GoString → Option (BackendBaseline F)
  get_backend_baseline a backend = lookup backend a.backend_baselines

  unfoldable pub get_all_backend_baselines : Analyzer F → GoMap (BackendBaseline F)
  get_all_backend_baselines a = a.backend_baselines

  unfoldable pub get_recent_anomalies : Analyzer F → List (Anomaly F)
  get_recent_anomalies a = a.anomalies

module _ {F : Type 0} ⦃f : Float64 F⦄ where
  open f use {le, of_nat}

  unfoldable pub new_analyzer : AnalyzerConfig F → ℕ → Analyzer F
  new_analyzer cfg now = record {
    config = record {
      interval = if cfg.interval == 0 then 5 * minute else cfg.interval;
      window = if cfg.window == 0 then hour else cfg.window;
      z_score_threshold =
          if le cfg.z_score_threshold (of_nat 0) then of_nat 3 else cfg.z_score_threshold;
    };
    start_time = now;
    route_baselines = [];
    backend_baselines = [];
    anomalies = [];
    channel = [];
  }
