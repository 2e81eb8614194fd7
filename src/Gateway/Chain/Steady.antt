-- ===== src/Gateway/Chain/Steady.antt =====
-- cmd/gateway/main.go: what no request behind the middleware changes, and the bounds that each one keeps.
use mathlib.Core.Path.{subst}
use microgate.Base.{
  in_branch, ◌≤◌, ◌≡◌, refl, sym, inl, inr, Bool, true, false, some, List, [], ◌∷◌, if◌then◌else◌,
  length, length-append, lit, str_eq, arith, Bool-cases,
}
use microgate.Base.Floats.{Float64}
use microgate.Config.{Config}
use microgate.Http.{aborts, Request, Call, Handler, get_header}
use microgate.Http.Chain.{nested, chain_lem}
use microgate.Auth.{new_auth}
use microgate.Auth as Auth
use microgate.Auth.Laws.{middleware-cases}
use microgate.Traffic.{TrafficRecorder, request_id}
use microgate.Traffic as Traffic
use microgate.Analytics.Store.{TrafficEvent}
use microgate.Capture.{Capture}
use microgate.Capture as Capture
use microgate.CircuitBreaker.{enter}
use microgate.CircuitBreaker.Handler as Breaker
use microgate.Logging.{logging, metrics}
use microgate.Dashboard.LogStore.{RequestLog}
use microgate.Gateway.{
  Gateway, World, capture_cell, observed_cell, output_cell, traffic_cell, breaker_cell, now,
}
use microgate.Gateway.Chain.{
  proxy_handler, rate_limit, traffic_recording, guarded, inner_with, inner, middlewares, handler,
}
use microgate.Gateway.Chain.Limits.{limited, rate_limit-Limits}

pub events_bound :
    (tr : TrafficRecorder) (e : TrafficEvent)
    → length tr.events ≤ 256
    → length (Traffic.offer tr e).events ≤ 256
unfolding Traffic.offer
events_bound tr e h = ground (arith, length-append tr.events (e ∷ []))

pub logs_bound :
    (c : Capture) (log : RequestLog) → length c.logs ≤ 256 → length (Capture.offer c log).logs ≤ 256
unfolding Capture.offer
logs_bound c log h = ground (arith, length-append c.logs (log ∷ []))

module _ {F : Type 0} ⦃f : Float64 F⦄ where
  -- The processes and the broker are as before, and no more than 256 logs and events wait, if no more did.
  unfoldable pub Steady : Gateway F → List Call × Gateway F → Type 0
  Steady s (calls, s') =
      (s'.api.pm ≡ s.api.pm)
      × (s'.api.broker ≡ s.api.broker)
      × (length s.pending ≤ 256 → length s'.pending ≤ 256)
      × (length s.traffic.events ≤ 256 → length s'.traffic.events ≤ 256)

  abbrev pub IsSteady : Handler (Gateway F) → Type 0
  IsSteady h = (r : Request) (s : Gateway F) → Steady s (h r s)

  still-Steady : (s : Gateway F) (calls : List Call) → Steady s (calls, s)
  unfolding Steady
  still-Steady s calls = (refl, refl, λ h. h, λ h. h)

  module _ (w : World F) (cfg : Config F) where
    proxy_handler-IsSteady : IsSteady (proxy_handler w)
    unfolding Steady proxy_handler
    proxy_handler-IsSteady r s = (refl, refl, λ h. h, λ h. h)

    breaker-IsSteady :
        (next : Handler (Gateway F))
        → IsSteady next
        → IsSteady (Breaker.middleware breaker_cell (λ g. g.analyzer) now next)
    unfolding Steady Breaker.middleware
    breaker-IsSteady next steady r s = elim (Bool-cases (enter s.breaker s.clock).0) [
      | inl passes ↦
          let s' = record s { breaker = (enter s.breaker s.clock).1 } in
          rw (Breaker.middleware, passes)
            (in_branch (Steady s) (aborts (next r s').0) (steady r s') (steady r s'))
      | inr stays ↦ rw (Breaker.middleware, stays) (refl, refl, λ h. h, λ h. h)
    ]

    auth-IsSteady :
        (next : Handler (Gateway F))
        → IsSteady next
        → IsSteady
            (Auth.middleware w.jwt_parse (new_auth cfg.auth.api_keys cfg.auth.jwt_secret) next)
    auth-IsSteady next steady r s =
        elim (middleware-cases w.jwt_parse (new_auth cfg.auth.api_keys cfg.auth.jwt_secret) next r
          s) [
            | inl on ↦ subst (Steady s) (sym on) (steady r s)
            | inr refused ↦ subst (Steady s) (sym refused.1) (still-Steady s _)
          ]

    rate_limit-IsSteady :
        (next : Handler (Gateway F)) → IsSteady next → IsSteady (rate_limit cfg next)
    unfolding Steady
    rate_limit-IsSteady next steady r s =
        let (rl, a, limits) = rate_limit-Limits cfg next r s in
        elim limits [
          | inl on ↦ subst (Steady s) (sym on) (steady r (limited s rl a))
          | inr off ↦ subst (Steady s) (sym off) (refl, refl, λ h. h, λ h. h)
        ]

    logging-IsSteady :
        (next : Handler (Gateway F)) → IsSteady next → IsSteady (logging output_cell now next)
    unfolding Steady logging
    logging-IsSteady next steady r s =
        in_branch (Steady s) (aborts (next r s).0) (steady r s) (steady r s)

    metrics-IsSteady :
        (next : Handler (Gateway F)) → IsSteady next → IsSteady (metrics observed_cell now next)
    unfolding Steady metrics
    metrics-IsSteady next steady r s =
        in_branch (Steady s) (aborts (next r s).0) (steady r s) (steady r s)

    traffic-IsSteady :
        (next : Handler (Gateway F))
        → IsSteady next
        → IsSteady (Traffic.middleware traffic_cell now next)
    unfolding Steady Traffic.middleware
    traffic-IsSteady next steady r s =
        let (pm, broker, logs, events) = steady r s in
        in_branch (Steady s) (aborts (next r s).0) (pm, broker, logs, events)
          (pm, broker, logs, λ h. events_bound (next r s).1.traffic _ (events h))

    capture-IsSteady :
        (next : Handler (Gateway F))
        → IsSteady next
        → IsSteady (Capture.middleware capture_cell now next)
    unfolding Steady Capture.middleware
    capture-IsSteady next steady r s =
        let (pm, broker, logs, events) = steady r s in
        in_branch (Steady s) (aborts (next r s).0) (pm, broker, logs, events)
          (pm, broker, λ h. logs_bound (capture_cell.get (next r s).1) _ (logs h), events)

    request_id-IsSteady :
        (next : Handler (Gateway F)) → IsSteady next → IsSteady (request_id (λ g. g.random_id) next)
    unfolding Steady request_id
    request_id-IsSteady next steady r s =
        let given = get_header r (lit "X-Request-ID") in
        let id = if str_eq given [] then s.random_id else given in
        steady (record r { request_id = some id }) s

    guarded-IsSteady : IsSteady (nested (proxy_handler w) (guarded w cfg))
    guarded-IsSteady =
        logging-IsSteady _
          (rate_limit-IsSteady _ (auth-IsSteady _ (breaker-IsSteady _ proxy_handler-IsSteady)))

    inner_with-IsSteady :
        (recorded : Bool)
        → IsSteady (nested (proxy_handler w) (inner_with w cfg (traffic_recording recorded)))
    unfolding traffic_recording
    inner_with-IsSteady true = metrics-IsSteady _ (traffic-IsSteady _ guarded-IsSteady)
    inner_with-IsSteady false = metrics-IsSteady _ guarded-IsSteady

    pub handler-IsSteady : IsSteady (handler w cfg)
    unfolding handler middlewares inner
    handler-IsSteady r s =
        let next =
          nested (proxy_handler w) (inner_with w cfg (traffic_recording cfg.analytics.enabled)) in
        let chained = chain_lem (proxy_handler w) (middlewares w cfg) in
        subst (λ (h : Handler (Gateway F)). Steady s (h r s)) (sym chained)
          (request_id-IsSteady _ (capture-IsSteady next (inner_with-IsSteady cfg.analytics.enabled))
            r s)
