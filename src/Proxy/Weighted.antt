-- ===== src/Proxy/Weighted.antt =====
-- internal/proxy/weighted_lb.go. What `rand.Float64()` returns is an argument. The health checker and
-- the analyzer are shared, and are given to the functions that read them.
pub mod Laws
use microgate.Base.{
  ℕ, zero, suc, ◌+◌, ◌*◌, Bool, true, false, Option, none, some, List, [], ◌∷◌, ◌++◌, if◌then◌else◌,
  ◌==◌, ltb, GoString, GoMap, insert, str_eq, length, keep,
}
use microgate.Base.Floats.{Float64, ratio}
use microgate.Analytics.State.{Analyzer, BackendBaseline, get_backend_baseline, minute}

pub record BackendWeight (F : Type 0) : Type 0 where
  pub url : GoString
  pub weight : F

pub record WeightedLoadBalancer (F : Type 0) : Type 0 where
  pub backends : List GoString
  pub weights : List (BackendWeight F)
  pub rebalance_interval : ℕ

module _ {F : Type 0} where
  abbrev entry : GoString → F → BackendWeight F
  entry url weight = record { url = url; weight = weight }

  equal_weights : List GoString → F → List (BackendWeight F)
  equal_weights [] w = []
  equal_weights (url ∷ urls) w = entry url w ∷ equal_weights urls w

  last_url : BackendWeight F → List (BackendWeight F) → GoString
  last_url w [] = w.url
  last_url w (v ∷ vs) = last_url v vs

  -- `healthChecker == nil || IsHealthy(w.url)`
  abbrev pub is_up : Option (GoString → Bool) → BackendWeight F → Bool
  is_up none w = true
  is_up (some healthy) w = healthy w.url

module _ {F : Type 0} ⦃f : Float64 F⦄ where
  open f use {lt, le, add, sub, mul, div, of_nat}

  unfoldable pub init_equal_weights : WeightedLoadBalancer F → WeightedLoadBalancer F
  unfolding equal_weights
  init_equal_weights wlb = record wlb {
    weights = equal_weights wlb.backends (div (of_nat 1) (of_nat (length wlb.backends)));
  }

  unfoldable pub new_weighted_load_balancer : List GoString → ℕ → WeightedLoadBalancer F
  unfolding init_equal_weights
  new_weighted_load_balancer backends interval = init_equal_weights (record {
    backends = backends;
    weights = [];
    rebalance_interval = if interval == 0 then 5 * minute else interval;
  })

  unfoldable pub compute_weight : F → F → F
  compute_weight avg_latency_ms error_rate =
      let latency = if lt avg_latency_ms (of_nat 1) then of_nat 1 else avg_latency_ms in
      let reliability = sub (of_nat 1) error_rate in
      let reliability' = if lt reliability (ratio 1 100) then ratio 1 100 else reliability in
      mul (div (of_nat 1) latency) reliability'

  weight_of : Option (BackendBaseline F) → F
  unfolding compute_weight
  weight_of none = of_nat 1
  weight_of (some b) =
      if ltb b.sample_size 2 then of_nat 1 else compute_weight b.mean_latency_ms b.mean_error_rate

  raw_weights : Analyzer F → List GoString → List (BackendWeight F)
  raw_weights a [] = []
  raw_weights a (url ∷ urls) =
      entry url (weight_of (get_backend_baseline a url)) ∷ raw_weights a urls

  -- `total += w.weight` over the list, from `total` on.
  unfoldable pub sum_from : F → List (BackendWeight F) → F
  sum_from total [] = total
  sum_from total (w ∷ ws) = sum_from (add total w.weight) ws

  divide_all : F → List (BackendWeight F) → List (BackendWeight F)
  divide_all total [] = []
  divide_all total (w ∷ ws) = record w { weight = div w.weight total } ∷ divide_all total ws

  unfoldable pub rebalance : WeightedLoadBalancer F → Analyzer F → WeightedLoadBalancer F
  unfolding raw_weights weight_of sum_from divide_all
  rebalance wlb a =
      let new_weights = raw_weights a wlb.backends in
      let total = sum_from (of_nat 0) new_weights in
      record wlb {
        weights = if lt (of_nat 0) total then divide_all total new_weights else new_weights;
      }

  -- The healthy entries, or all of them if there are none.
  unfoldable pub candidates :
      WeightedLoadBalancer F → Option (GoString → Bool) → List (BackendWeight F)
  candidates wlb health =
      let healthy = keep (is_up health) wlb.weights in
      if length healthy == 0 then wlb.weights else healthy

  -- The loop that sums up the weights until the sum reaches `r`.
  unfoldable pub choose : F → F → BackendWeight F → List (BackendWeight F) → GoString → GoString
  choose r cumulative w [] fallback = if le r (add cumulative w.weight) then w.url else fallback
  choose r cumulative w (v ∷ vs) fallback =
      let rest = choose r (add cumulative w.weight) v vs fallback in
      if le r (add cumulative w.weight) then w.url else rest

  unfoldable pub choose_among : F → List (BackendWeight F) → GoString
  unfolding last_url
  choose_among rand [] = []
  choose_among rand (w ∷ ws) =
      choose (mul rand (sum_from (of_nat 0) (w ∷ ws))) (of_nat 0) w ws (last_url w ws)

  unfoldable pub next : WeightedLoadBalancer F → Option (GoString → Bool) → F → GoString
  next wlb health rand = choose_among rand (candidates wlb health)

  unfoldable pub add_backend : WeightedLoadBalancer F → GoString → WeightedLoadBalancer F
  add_backend wlb url =
      let backends = wlb.backends ++ (url ∷ []) in
      record wlb {
        backends = backends;
        weights = wlb.weights ++ (entry url (div (of_nat 1) (of_nat (length backends))) ∷ []);
      }

module _ {F : Type 0} where
  weights_into : List (BackendWeight F) → GoMap F → GoMap F
  weights_into [] m = m
  weights_into (w ∷ ws) m = weights_into ws (insert w.url w.weight m)

  unfoldable pub get_weights : WeightedLoadBalancer F → GoMap F
  unfolding weights_into
  get_weights wlb = weights_into wlb.weights []
