-- ===== src/RateLimit/Tests.antt =====
-- Runs of internal/middleware/ratelimit.go and adaptive_ratelimit.go at concrete inputs.
use microgate.Base.{
  ℕ, ◌+◌, ◌*◌, ◌≡◌, refl, true, false, [], ◌∷◌, lit, GoString, lookup, insert, str_eq, some, List,
}
use microgate.Base.Floats.{Milli, milli_float, Milli-IsOrdered}
use microgate.Analytics.State.{Analyzer, RouteBaseline, second, get_route_baseline}
use microgate.RateLimit.{
  TokenBucket, RateLimiter, new_rate_limiter, get_bucket, refill, allow, check,
}
use microgate.RateLimit.Laws.{after, capped_lem}
use microgate.RateLimit.Throughput.{run, granted_to, granted_to_lem, own}
use microgate.RateLimit.Adaptive.{AdaptiveConfig, AdaptiveRateLimiter, limit_for, rebalance}
use microgate.RateLimit.Adaptive.Laws.{limit_for_bounds, rebalance_lem, Rebalanced}

abbrev alice : GoString
alice = lit "10.0.0.1"

abbrev bob : GoString
bob = lit "10.0.0.2"

-- Two tokens at most, one more each second.
abbrev limiter : RateLimiter Milli
limiter = new_rate_limiter 2000 1000

abbrev full : TokenBucket Milli
full = record { tokens = 2000; max_tokens = 2000; refill_rate = 1000; last_refill = 0 }

third_refused :
    granted_to alice limiter
      ((alice, 0) ∷ (bob, 0) ∷ (alice, 0) ∷ (alice, 5) ∷ (alice, second + 5) ∷ [])
    ≡ 3
unfolding granted_to check get_bucket allow refill new_rate_limiter lookup insert str_eq
third_refused = refl

abbrev requests : List (GoString × ℕ)
requests = (alice, 0) ∷ (bob, 0) ∷ (alice, 5 * second) ∷ []

-- What alice has five seconds after her first request.
abbrev left : TokenBucket Milli
left = record { tokens = 1000; max_tokens = 2000; refill_rate = 1000; last_refill = 5 * second }

left_found : lookup alice (after limiter requests).buckets ≡ some left
unfolding check get_bucket allow refill new_rate_limiter lookup insert str_eq
left_found = refl

capped_lem_example : (left.max_tokens ≡ 2000) × (milli_float.lt 2000 left.tokens ≡ false)
capped_lem_example = capped_lem Milli-IsOrdered 2000 1000 requests alice left left_found

abbrev used : RateLimiter Milli
used = record limiter { buckets = (alice, full) ∷ [] }

granted_to_lem_example :
    granted_to alice used ((alice, 0) ∷ (bob, 0) ∷ (alice, 1) ∷ (alice, 2) ∷ [])
    ≡ (run full (own alice ((alice, 0) ∷ (bob, 0) ∷ (alice, 1) ∷ (alice, 2) ∷ []))).0
unfolding lookup str_eq new_rate_limiter
granted_to_lem_example =
    granted_to_lem alice ((alice, 0) ∷ (bob, 0) ∷ (alice, 1) ∷ (alice, 2) ∷ []) used full refl

abbrev config : AdaptiveConfig Milli
config = record {
  enabled = true;
  multiplier = 3000;
  min_limit = 10000;
  max_limit = 10000000;
  learning_period = 0;
}

abbrev route : GoString
route = lit "/api"

abbrev baseline : RouteBaseline Milli
baseline = record {
  route = route;
  mean_rate = 20000;
  std_dev_rate = 0;
  mean_error_rate = 0;
  std_dev_error = 0;
  mean_latency_ms = 0;
  std_dev_latency = 0;
  p99_latency_ms = 0;
  sample_size = 6;
}

limit_for_bounds_example :
    (milli_float.lt (limit_for config baseline) 10000 ≡ false)
    × (milli_float.lt 10000000 (limit_for config baseline) ≡ false)
limit_for_bounds_example = limit_for_bounds Milli-IsOrdered config baseline refl

abbrev analyzer : Analyzer Milli
analyzer = record {
  config = record { interval = 0; window = 0; z_score_threshold = 3000 };
  start_time = 0;
  route_baselines = (route, baseline) ∷ [];
  backend_baselines = [];
  anomalies = [];
  channel = [];
}

abbrev adaptive : AdaptiveRateLimiter Milli
adaptive = record { config = config; route_limiters = []; last_rebalance = 0 }

rebalance_lem_example :
    Rebalanced config
      (get_route_baseline analyzer route)
      (lookup route adaptive.route_limiters)
      (lookup route (rebalance adaptive analyzer second).route_limiters)
unfolding lookup
rebalance_lem_example = rebalance_lem adaptive analyzer second route (refl, tt)
