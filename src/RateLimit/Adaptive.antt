-- ===== src/RateLimit/Adaptive.antt =====
-- internal/middleware/adaptive_ratelimit.go: a limiter for each route, sized by what the analyzer has
-- learned. Where the code holds `a.mu`, the model makes one step.
pub mod Laws
use microgate.Base.{
  ℕ, ◌-◌, ◌*◌, Bool, true, false, not, ◌&&◌, ◌||◌, Option, none, some, List, [], ◌∷◌, if◌then◌else◌,
  GoString, GoMap, lookup, insert, lit, ltb, ◌==◌,
}
use microgate.Base.Floats.{Float64}
use microgate.Analytics.State.{
  Analyzer, RouteBaseline, has_sufficient_data, get_route_baseline, get_all_route_baselines, minute,
  hour,
}
use microgate.Http.{Request, Call, Handler, Middleware, Cell, http_error}
use microgate.Http.Address.{split_host}
use microgate.RateLimit.{RateLimiter, new_rate_limiter, check}
use microgate.RateLimit as Static

-- A learning period that is not positive is 0.
pub record AdaptiveConfig (F : Type 0) : Type 0 where
  pub enabled : Bool
  pub multiplier : F
  pub min_limit : F
  pub max_limit : F
  pub learning_period : ℕ

-- `static` and `analyzer` are shared with other components, and are given to the functions.
pub record AdaptiveRateLimiter (F : Type 0) : Type 0 where
  pub config : AdaptiveConfig F
  pub route_limiters : GoMap (RateLimiter F)
  pub last_rebalance : ℕ

module _ {F : Type 0} ⦃f : Float64 F⦄ where
  open f use {lt, le, eq, mul, div, of_nat}

  default_if_not_positive : F → F → F
  default_if_not_positive x default = if le x (of_nat 0) then default else x

  unfoldable pub new_adaptive_rate_limiter : AdaptiveConfig F → AdaptiveRateLimiter F
  unfolding default_if_not_positive
  new_adaptive_rate_limiter cfg = record {
    config = record {
      enabled = cfg.enabled;
      multiplier = default_if_not_positive cfg.multiplier (of_nat 3);
      min_limit = default_if_not_positive cfg.min_limit (of_nat 10);
      max_limit = default_if_not_positive cfg.max_limit (of_nat 10000);
      learning_period = if cfg.learning_period == 0 then hour else cfg.learning_period;
    };
    route_limiters = [];
    last_rebalance = 0;
  }

  -- `mean * multiplier`, clamped.
  unfoldable pub limit_for : AdaptiveConfig F → RouteBaseline F → F
  limit_for cfg baseline =
      let limit = mul baseline.mean_rate cfg.multiplier in
      let limit' = if lt limit cfg.min_limit then cfg.min_limit else limit in
      if lt cfg.max_limit limit' then cfg.max_limit else limit'

  unfoldable pub current_limit : AdaptiveRateLimiter F → Analyzer F → GoString → F
  current_limit a analyzer route = elim (get_route_baseline analyzer route) [
    | none ↦ of_nat 0
    | some baseline ↦ if ltb baseline.sample_size 5 then of_nat 0 else limit_for a.config baseline
  ]

  -- The limiter is made anew unless there is one whose maximum is the limit.
  unfoldable pub renew : F → Option (RateLimiter F) → RateLimiter F
  renew limit none = new_rate_limiter limit (div limit (of_nat 60))
  renew limit (some existing) =
      if not (eq existing.max_tokens limit)
      then new_rate_limiter limit (div limit (of_nat 60))
      else existing

  -- The body of the loop over the baselines.
  rebalance_route :
      AdaptiveConfig F → GoString → RouteBaseline F → GoMap (RateLimiter F) → GoMap (RateLimiter F)
  unfolding renew
  rebalance_route cfg route baseline limiters =
      if ltb baseline.sample_size 5
      then limiters
      else insert route (renew (limit_for cfg baseline) (lookup route limiters)) limiters

  rebalance_all :
      AdaptiveConfig F → GoMap (RouteBaseline F) → GoMap (RateLimiter F) → GoMap (RateLimiter F)
  rebalance_all cfg [] limiters = limiters
  rebalance_all cfg ((route, baseline) ∷ rest) limiters =
      rebalance_all cfg rest (rebalance_route cfg route baseline limiters)

  unfoldable pub rebalance : AdaptiveRateLimiter F → Analyzer F → ℕ → AdaptiveRateLimiter F
  unfolding rebalance_all rebalance_route
  rebalance a analyzer now = record a {
    route_limiters = rebalance_all a.config (get_all_route_baselines analyzer) a.route_limiters;
    last_rebalance = now;
  }

  unfoldable pub rebalance_if_due : AdaptiveRateLimiter F → Analyzer F → ℕ → AdaptiveRateLimiter F
  rebalance_if_due a analyzer now =
      if ltb (5 * minute) (now - a.last_rebalance) then rebalance a analyzer now else a

  -- The handler: it rejects by the route's own limiter, and without one leaves the request to the
  -- static limiter.
  unfoldable pub middleware :
      {S : Type 0}
      → Cell S (AdaptiveRateLimiter F)
      → Cell S (RateLimiter F)
      → (S → Analyzer F)
      → (S → ℕ)
      → (GoString → GoString)
      → Middleware S
  middleware adaptive static analyzer clock route_resolver next r s =
      if not (adaptive.get s).config.enabled || not (has_sufficient_data (analyzer s) (clock s))
      then Static.middleware static clock next r s
      else let a = rebalance_if_due (adaptive.get s) (analyzer s) (clock s) in
        let route = route_resolver r.path in
        let s' = adaptive.put a s in
        elim (lookup route a.route_limiters) [
          | none ↦ Static.middleware static clock next r s'
          | some rl ↦
              let (allowed, rl') = check rl (split_host r.remote_addr) (clock s) in
              let s'' =
                adaptive.put (record a { route_limiters = insert route rl' a.route_limiters }) s in
              if allowed then next r s'' else (http_error (lit "Too Many Requests") 429, s'')
        ]
