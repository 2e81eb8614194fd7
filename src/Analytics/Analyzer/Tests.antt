-- ===== src/Analytics/Analyzer/Tests.antt =====
-- Runs of internal/analytics/analyzer.go at concrete inputs.
use mathlib.Core.List.{Perm}
use microgate.Base.{
  ℕ, ◌+◌, ◌-◌, ◌*◌, ◌<◌, ◌≤◌, ◌≡◌, refl, some, List, [], ◌∷◌, lit, length, get_elem?, lookup, arith,
}
use microgate.Base.Int.{pos}
use microgate.Base.Floats.{Milli, milli_float, Milli-IsOrdered}
use microgate.Analytics.State.{Analyzer, new_analyzer, minute, hour}
use microgate.Analytics.Store.{
  TrafficEvent, MemoryTrafficStore, get_buckets, collect_buckets, minutes_or_empty,
}
use microgate.Analytics.Store.Laws.{recorded}
use microgate.Analytics.Store.Cleanup.{recorded-Distinct}
use microgate.Analytics.Statistics.{sort_float64s, rank, percentile, sort_onto, insert_back}
use microgate.Analytics.Statistics.Laws.{IsAscending, percentile_lem}
use microgate.Analytics.Analyzer.{analyze, route_baseline, backend_baseline}
use microgate.Analytics.Analyzer.Laws.{updated, analyze_lem}
use microgate.Analytics.Analyzer.Anomalies.{AllKnown, AllSince, anomalies_lem}

abbrev values : List Milli
values = 30 ∷ 10 ∷ 20 ∷ []

sorted_values : sort_float64s values ≡ 10 ∷ 20 ∷ 30 ∷ []
unfolding sort_float64s sort_onto insert_back
sorted_values = refl

percentile_lem_example :
    let sorted = sort_float64s values in
    let place = rank {F = Milli} 990 3 in
    IsAscending sorted
    × Perm sorted values
    × (place < length sorted)
    × (get_elem? sorted place ≡ some (percentile values 990))
percentile_lem_example = percentile_lem Milli-IsOrdered values 990 (omega arith)

abbrev event : ℕ → TrafficEvent
event at = record {
  route = lit "/api";
  backend = lit "http://b";
  status = 200;
  latency = 5;
  bytes_in = pos 10;
  bytes_out = 20;
  client_ip = [];
  timestamp = at;
}

-- One event in each of three minutes.
abbrev events : List TrafficEvent
events = event (3 * minute + 7) ∷ event (2 * minute + 9) ∷ event (minute + 1) ∷ []

abbrev store : MemoryTrafficStore
store = recorded 0 events

abbrev analyzer : Analyzer Milli
analyzer = new_analyzer (record { interval = 0; window = 0; z_score_threshold = 0 }) 0

analyze_lem_example :
    let a' = analyze analyzer store (4 * minute) in
    let from = 4 * minute - analyzer.config.window in
    let buckets = get_buckets store (lit "/api") from (4 * minute) in
    let served =
      collect_buckets (minutes_or_empty (lookup (lit "/api") store.backends)) from (4 * minute) in
    (lookup (lit "/api") a'.route_baselines
      ≡ updated
          (lookup (lit "/api") analyzer.route_baselines)
          buckets
          (route_baseline (lit "/api") buckets))
    × (lookup (lit "/api") a'.backend_baselines
        ≡ updated
            (lookup (lit "/api") analyzer.backend_baselines)
            served
            (backend_baseline (lit "/api") served))
analyze_lem_example =
    let (dr, db) = recorded-Distinct 0 events in
    analyze_lem analyzer store (4 * minute) (lit "/api") dr db

anomalies_lem_example :
    let a' = analyze analyzer store (4 * minute) in
    AllKnown analyzer.anomalies analyzer.config.z_score_threshold (4 * minute) a'.anomalies
    × AllSince (4 * minute - 24 * hour) a'.anomalies
    × (length a'.channel ≤ 64)
unfolding new_analyzer
anomalies_lem_example = anomalies_lem analyzer store (4 * minute) (omega arith)
