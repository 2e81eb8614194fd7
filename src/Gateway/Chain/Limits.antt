-- ===== src/Gateway/Chain/Limits.antt =====
-- cmd/gateway/main.go: the rate limiters of the chain hand a request on or answer it.
use microgate.Base.{
  ◌≡◌, refl, ◌⊎◌, inl, inr, not, ◌&&◌, ◌||◌, List, GoString, lit, lookup, insert, Bool-cases,
  Option-cases,
}
use microgate.Base.Floats.{Float64}
use microgate.Config.{Config}
use microgate.Http.{Request, Call, Handler, http_error}
use microgate.RateLimit.{RateLimiter, check}
use microgate.RateLimit as Static
use microgate.Http.Address.{split_host}
use microgate.Analytics.State.{has_sufficient_data}
use microgate.RateLimit.Adaptive.{AdaptiveRateLimiter, rebalance_if_due}
use microgate.RateLimit.Adaptive as Adaptive
use microgate.Gateway.{Gateway, limiter_cell, adaptive_cell, now}
use microgate.Gateway.Chain.{rate_limit, route_resolver}

module _ {F : Type 0} ⦃f : Float64 F⦄ where
  -- The state with other limiters.
  abbrev pub limited : Gateway F → RateLimiter F → AdaptiveRateLimiter F → Gateway F
  limited s rl a = record s { limiter = rl; adaptive = a }

  -- The request is handed on or answered by 429, and only limiters change.
  abbrev pub Limits : Handler (Gateway F) → Request → Gateway F → List Call × Gateway F → Type 0
  Limits next r s out =
      (rl : RateLimiter F) × (a : AdaptiveRateLimiter F) × ((out ≡ next r (limited s rl a))
        ⊎ (out ≡ (http_error (lit "Too Many Requests") 429, limited s rl a)))

  static-Limits :
      (next : Handler (Gateway F)) (r : Request) (s : Gateway F)
      → Limits next r s (Static.middleware limiter_cell now next r s)
  unfolding Static.middleware
  static-Limits next r s =
      let checked = check s.limiter (split_host r.remote_addr) s.clock in
      elim (Bool-cases checked.0) [
        | inl allowed ↦ (checked.1, s.adaptive, inl (rw (Static.middleware, allowed) refl))
        | inr denied ↦ (checked.1, s.adaptive, inr (rw (Static.middleware, denied) refl))
      ]

  adaptive-Limits :
      (resolver : GoString → GoString) (next : Handler (Gateway F)) (r : Request) (s : Gateway F)
      → Limits next r s
          (Adaptive.middleware adaptive_cell limiter_cell (λ g. g.analyzer) now resolver next r s)
  unfolding Adaptive.middleware
  adaptive-Limits resolver next r s =
      let static = static-Limits next r s in
      let due = rebalance_if_due s.adaptive s.analyzer s.clock in
      let route = resolver r.path in
      elim (Bool-cases
        (not s.adaptive.config.enabled || not (has_sufficient_data s.analyzer s.clock))) [
          | inl off ↦ rw (Adaptive.middleware, off) static
          | inr on ↦ elim (Option-cases (lookup route due.route_limiters)) [
            | inl no_limiter ↦
                rw (Adaptive.middleware, on, no_limiter)
                  (static-Limits next r (record s { adaptive = due }))
            | inr (rl, found) ↦
                let checked = check rl (split_host r.remote_addr) s.clock in
                let a = record due { route_limiters = insert route checked.1 due.route_limiters } in
                elim (Bool-cases checked.0) [
                  | inl allowed ↦
                      (s.limiter, a, inl (rw (Adaptive.middleware, on, found, allowed) refl))
                  | inr denied ↦
                      (s.limiter, a, inr (rw (Adaptive.middleware, on, found, denied) refl))
                ]
          ]
        ]

  pub rate_limit-Limits :
      (cfg : Config F) (next : Handler (Gateway F)) (r : Request) (s : Gateway F)
      → Limits next r s (rate_limit cfg next r s)
  unfolding rate_limit
  rate_limit-Limits cfg next r s =
      elim (Bool-cases (cfg.adaptive_rate_limit.enabled && cfg.analytics.enabled)) [
        | inl is_adaptive ↦
            rw (rate_limit, is_adaptive) (adaptive-Limits (route_resolver s) next r s)
        | inr is_static ↦ rw (rate_limit, is_static) (static-Limits next r s)
      ]
