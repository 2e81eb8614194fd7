-- ===== src/RateLimit/Adaptive/Laws.antt =====
-- internal/middleware/adaptive_ratelimit.go: the limits are clamped, and a rebalance sets them.
use mathlib.Core.Path.{subst}
use microgate.Base.{
  sym, ◌⊎◌, inl, inr, Bool-cases, true, ◌<◌, ◌≤◌, ℕ, ◌≡◌, refl, false, Option, none, some, [], ◌∷◌,
  if◌then◌else◌, GoString, GoMap, lookup, lookup-insert, str_eq_iff, arith, Distinct, ltb,
}
use microgate.Base.Floats.{Float64, IsOrdered}
use microgate.Analytics.State.{Analyzer, RouteBaseline, get_all_route_baselines, get_route_baseline}
use microgate.RateLimit.{RateLimiter, new_rate_limiter}
use microgate.RateLimit.Adaptive.{
  AdaptiveConfig, AdaptiveRateLimiter, limit_for, renew, rebalance_route, rebalance_all, rebalance,
}

module _ {F : Type 0} ⦃f : Float64 F⦄ where
  open f use {lt, eq, mul, div, of_nat}

  -- If the configured bounds are in order, no limit lies below the lower or above the upper bound, be
  -- the learned mean what it may.
  pub limit_for_bounds :
      IsOrdered F
      → (cfg : AdaptiveConfig F) (baseline : RouteBaseline F)
      → lt cfg.max_limit cfg.min_limit ≡ false
      → (lt (limit_for cfg baseline) cfg.min_limit ≡ false)
        × (lt cfg.max_limit (limit_for cfg baseline) ≡ false)
  unfolding limit_for
  limit_for_bounds laws cfg baseline h = ground (
    arith,
    laws.lt_irrefl cfg.min_limit,
    laws.lt_irrefl cfg.max_limit,
    laws.lt_asymm cfg.max_limit (mul baseline.mean_rate cfg.multiplier),
  )

  -- What a rebalance makes of one route's limiter.
  abbrev rebalanced :
      AdaptiveConfig F → Option (RouteBaseline F) → Option (RateLimiter F) → Option (RateLimiter F)
  rebalanced cfg none limiter = limiter
  rebalanced cfg (some baseline) limiter =
      if ltb baseline.sample_size 5 then limiter else some (renew (limit_for cfg baseline) limiter)

  rebalance_all-absent :
      (cfg : AdaptiveConfig F) (baselines : GoMap (RouteBaseline F))
      (limiters : GoMap (RateLimiter F)) (route : GoString)
      → lookup route baselines ≡ none
      → lookup route (rebalance_all cfg baselines limiters) ≡ lookup route limiters
  unfolding rebalance_all rebalance_route lookup
  rebalance_all-absent cfg [] limiters route e = refl
  rebalance_all-absent cfg ((r, b) ∷ rest) limiters route e = ground (
    arith,
    rebalance_all-absent cfg rest (rebalance_route cfg r b limiters) route,
    lookup-insert r route (renew (limit_for cfg b) (lookup r limiters)) limiters,
  )

  rebalance_all_lem :
      (cfg : AdaptiveConfig F) (baselines : GoMap (RouteBaseline F))
      (limiters : GoMap (RateLimiter F)) (route : GoString)
      → Distinct baselines
      → lookup route (rebalance_all cfg baselines limiters)
        ≡ rebalanced cfg (lookup route baselines) (lookup route limiters)
  unfolding rebalance_all rebalance_route lookup
  rebalance_all_lem cfg [] limiters route d = refl
  rebalance_all_lem cfg ((r, b) ∷ rest) limiters route (new, d) = ground (
    arith,
    rebalance_all-absent cfg rest (rebalance_route cfg r b limiters) r,
    rebalance_all_lem cfg rest (rebalance_route cfg r b limiters) route d,
    lookup-insert r route (renew (limit_for cfg b) (lookup r limiters)) limiters,
    str_eq_iff r route,
  )

  -- The limit is the product where that lies within the bounds, else the bound that it passes. (With bounds in
  -- the wrong order the upper one counts.)
  abbrev pub IsLimit : AdaptiveConfig F → F → F → Type 0
  IsLimit cfg product limit =
      ((lt product cfg.min_limit ≡ false) × (lt cfg.max_limit product ≡ false) × (limit ≡ product))
      ⊎ ((lt product cfg.min_limit ≡ true)
          × (lt cfg.max_limit cfg.min_limit ≡ false)
          × (limit ≡ cfg.min_limit))
      ⊎ ((lt product cfg.min_limit ≡ true)
          × (lt cfg.max_limit cfg.min_limit ≡ true)
          × (limit ≡ cfg.max_limit))
      ⊎ ((lt product cfg.min_limit ≡ false)
          × (lt cfg.max_limit product ≡ true)
          × (limit ≡ cfg.max_limit))

  -- A limiter before, if there was one, and the one after, for a limit.
  abbrev pub Renewed : F → Option (RateLimiter F) → RateLimiter F → Type 0
  Renewed limit before after =
      ((before ≡ some after) × (eq after.max_tokens limit ≡ true))
      ⊎ (((old : RateLimiter F) → before ≡ some old → eq old.max_tokens limit ≡ false)
          × (after.max_tokens ≡ limit)
          × (after.refill_rate ≡ div limit (of_nat 60))
          × (after.buckets ≡ []))

  -- What a route's limiter is after a rebalance, if the route's baseline and its limiter before are these.
  abbrev pub Rebalanced :
      AdaptiveConfig F
      → Option (RouteBaseline F)
      → Option (RateLimiter F)
      → Option (RateLimiter F)
      → Type 0
  Rebalanced cfg none before after = after ≡ before
  Rebalanced cfg (some baseline) before after =
      ((baseline.sample_size < 5) × (after ≡ before))
      ⊎ ((5 ≤ baseline.sample_size)
          × ((limit : F) × (rl : RateLimiter F) × IsLimit cfg
                (mul baseline.mean_rate cfg.multiplier) limit
              × (after ≡ some rl)
              × Renewed limit before rl))

  limit_for-IsLimit :
      (cfg : AdaptiveConfig F) (baseline : RouteBaseline F)
      → IsLimit cfg (mul baseline.mean_rate cfg.multiplier) (limit_for cfg baseline)
  unfolding limit_for
  limit_for-IsLimit cfg baseline =
      let product = mul baseline.mean_rate cfg.multiplier in
      elim (Bool-cases (lt product cfg.min_limit)) [
        | inl low ↦ elim (Bool-cases (lt cfg.max_limit cfg.min_limit)) [
          | inl crossed ↦ rw (limit_for, low, crossed) (inr (inr (inl (refl, refl, refl))))
          | inr ordered ↦ rw (limit_for, low, ordered) (inr (inl (refl, refl, refl)))
        ]
        | inr up ↦ elim (Bool-cases (lt cfg.max_limit product)) [
          | inl high ↦ rw (limit_for, up, high) (inr (inr (inr (refl, refl, refl))))
          | inr inside ↦ rw (limit_for, up, inside) (inl (refl, refl, refl))
        ]
      ]

  renew-Renewed :
      (limit : F) (before : Option (RateLimiter F)) → Renewed limit before (renew limit before)
  unfolding renew new_rate_limiter
  renew-Renewed limit none = inr ((λ old e. ground arith), refl, refl, refl)
  renew-Renewed limit (some old) = elim (Bool-cases (eq old.max_tokens limit)) [
    | inl same ↦ rw same (inl (refl, same))
    | inr other ↦ rw other (inr ((λ old' e. ground arith), refl, refl, refl))
  ]

  rebalanced-Rebalanced :
      (cfg : AdaptiveConfig F) (known : Option (RouteBaseline F)) (before : Option (RateLimiter F))
      → Rebalanced cfg known before (rebalanced cfg known before)
  rebalanced-Rebalanced cfg none before = refl
  rebalanced-Rebalanced cfg (some baseline) before =
      elim (Bool-cases (ltb baseline.sample_size 5)) [
        | inl few ↦ rw few (inl (ground arith, refl))
        | inr enough ↦
            let limit = limit_for cfg baseline in
            rw enough (
              inr (
                ground arith,
                (
                  limit,
                  renew limit before,
                  limit_for-IsLimit cfg baseline,
                  refl,
                  renew-Renewed limit before,
                ),
              ))
      ]

  -- After a rebalance the limiter of each route is: the one it had, if nothing is known of the route or
  -- from fewer than 5 samples; else the one it had if its maximum equals the limit, so that clients keep
  -- their tokens; else one without any client's bucket, with the limit as its maximum and a sixtieth of it as the
  -- rate. The limit is the learned mean times the multiplier, or the bound that this passes.
  pub rebalance_lem :
      (a : AdaptiveRateLimiter F) (analyzer : Analyzer F) (now : ℕ) (route : GoString)
      → Distinct analyzer.route_baselines
      → Rebalanced a.config
          (get_route_baseline analyzer route)
          (lookup route a.route_limiters)
          (lookup route (rebalance a analyzer now).route_limiters)
  unfolding rebalance get_route_baseline get_all_route_baselines
  rebalance_lem a analyzer now route d =
      let known = lookup route analyzer.route_baselines in
      let before = lookup route a.route_limiters in
      subst (Rebalanced a.config known before)
        (sym (rebalance_all_lem a.config analyzer.route_baselines a.route_limiters route d))
        (rebalanced-Rebalanced a.config known before)
