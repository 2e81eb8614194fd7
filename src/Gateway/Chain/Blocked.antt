-- ===== src/Gateway/Chain/Blocked.antt =====
-- cmd/gateway/main.go: what becomes of a request that authentication refuses.
use mathlib.Core.Path.{subst}
use microgate.Base.{
  in_branch, ◌≡◌, ◌∙◌, refl, sym, ap, ◌⊎◌, inl, inr, Bool, true, false, some, List, [],
  if◌then◌else◌, GoString, lit, str_eq,
}
use microgate.Base.Floats.{Float64}
use microgate.Config.{Config}
use microgate.Http.{aborts, Request, Call, Handler, http_error, get_header}
use microgate.Http.Chain.{nested, chain_lem}
use microgate.Http.Writer.{capture_all, fresh_capture, wire_status}
use microgate.Auth.{new_auth}
use microgate.Auth as Auth
use microgate.Auth.Laws.{Admitted, middleware-refused}
use microgate.Gateway.{
  Gateway, World, capture_cell, observed_cell, output_cell, traffic_cell, breaker_cell, now,
}
use microgate.Logging.{logging, metrics}
use microgate.Traffic.{request_id}
use microgate.Traffic as Traffic
use microgate.Capture as Capture
use microgate.Capture.Laws.{offer-store}
use microgate.CircuitBreaker.Handler as Breaker
use microgate.Gateway.Chain.Limits.{limited, rate_limit-Limits}
use microgate.Gateway.Chain.{
  rate_limit, traffic_recording, guarded, inner_with, inner, middlewares, proxy_handler, handler,
}

-- Authentication or the rate limiter answered.
abbrev pub Turned : List Call → Type 0
Turned calls =
    ((m : GoString) × (calls ≡ http_error m 401))
    ⊎ (calls ≡ http_error (lit "Too Many Requests") 429)

wire_status-Turned :
    (calls : List Call) → Turned calls → (wire_status calls ≡ 401) ⊎ (wire_status calls ≡ 429)
unfolding wire_status
wire_status-Turned calls (inl (m, e)) = inl (rw e refl)
wire_status-Turned calls (inr e) = inr (rw e refl)

-- The answer is 401 or 429, and neither the breaker nor the components that the API points to changed.
abbrev pub Stopped : {F : Type 0} → Gateway F → List Call × Gateway F → Type 0
Stopped s (calls, s') =
    ((wire_status calls ≡ 401) ⊎ (wire_status calls ≡ 429))
    × (s'.breaker ≡ s.breaker)
    × (s'.api ≡ s.api)

module _ {F : Type 0} ⦃f : Float64 F⦄ where
  -- Authentication or the rate limiter answered, and neither the breaker nor the components of the API changed.
  unfoldable pub Refused : Gateway F → List Call × Gateway F → Type 0
  Refused s (calls, s') = Turned calls × (s'.breaker ≡ s.breaker) × (s'.api ≡ s.api)

  module _ (w : World F) (cfg : Config F) where
    abbrev pub Lets : Request → Type 0
    Lets r = Admitted w.jwt_parse cfg.auth.api_keys cfg.auth.jwt_secret r

    abbrev pub Refuses : Handler (Gateway F) → Type 0
    Refuses h = (r : Request) (s : Gateway F) → ¬ Lets r → Refused s (h r s)

    auth-Refuses :
        (next : Handler (Gateway F))
        → Refuses
            (Auth.middleware w.jwt_parse (new_auth cfg.auth.api_keys cfg.auth.jwt_secret) next)
    unfolding Refused
    auth-Refuses next r s out =
        let (m, answer) =
          middleware-refused w.jwt_parse cfg.auth.api_keys cfg.auth.jwt_secret next r s out in
        subst (Refused s) (sym answer) (inl (m, refl), refl, refl)

    rate_limit-Refuses : (next : Handler (Gateway F)) → Refuses next → Refuses (rate_limit cfg next)
    unfolding Refused
    rate_limit-Refuses next refuses r s out =
        let (rl, a, limits) = rate_limit-Limits cfg next r s in
        elim limits [
          | inl on ↦ subst (Refused s) (sym on) (refuses r (limited s rl a) out)
          | inr off ↦ subst (Refused s) (sym off) (inr refl, refl, refl)
        ]

    logging-Refuses :
        (next : Handler (Gateway F)) → Refuses next → Refuses (logging output_cell now next)
    unfolding Refused logging
    logging-Refuses next refuses r s out =
        in_branch (Refused s) (aborts (next r s).0) (refuses r s out) (refuses r s out)

    metrics-Refuses :
        (next : Handler (Gateway F)) → Refuses next → Refuses (metrics observed_cell now next)
    unfolding Refused metrics
    metrics-Refuses next refuses r s out =
        in_branch (Refused s) (aborts (next r s).0) (refuses r s out) (refuses r s out)

    captured_refusal :
        (calls : List Call) → Turned calls → (capture_all fresh_capture calls).1 ≡ calls
    unfolding capture_all
    captured_refusal calls (inl (m, e)) = rw e refl
    captured_refusal calls (inr e) = rw e refl

    traffic-Refuses :
        (next : Handler (Gateway F))
        → Refuses next
        → Refuses (Traffic.middleware traffic_cell now next)
    unfolding Refused Traffic.middleware
    traffic-Refuses next refuses r s out =
        let (answer, same_breaker, same_api) = refuses r s out in
        let turned = subst Turned (sym (captured_refusal (next r s).0 answer)) answer in
        in_branch (Refused s) (aborts (next r s).0) (turned, same_breaker, same_api)
          (turned, same_breaker, same_api)

    capture-Refuses :
        (next : Handler (Gateway F))
        → Refuses next
        → Refuses (Capture.middleware capture_cell now next)
    unfolding Refused Capture.middleware
    capture-Refuses next refuses r s out =
        let (answer, same_breaker, same_api) = refuses r s out in
        let s' = (next r s).1 in
        let turned = subst Turned (sym (captured_refusal (next r s).0 answer)) answer in
        in_branch (Refused s) (aborts (next r s).0) (turned, same_breaker, same_api)
          (
            turned,
            same_breaker,
            ap (λ store. record s'.api { store = store })
                  (offer-store (record { logs = s'.pending; store = s'.api.store }) _)
                ∙ same_api,
          )

    guarded-Refuses : Refuses (nested (proxy_handler w) (guarded w cfg))
    guarded-Refuses =
        let breaker = Breaker.middleware breaker_cell (λ g. g.analyzer) now (proxy_handler w) in
        logging-Refuses _ (rate_limit-Refuses _ (auth-Refuses breaker))

    inner_with-Refuses :
        (recorded : Bool)
        → Refuses (nested (proxy_handler w) (inner_with w cfg (traffic_recording recorded)))
    unfolding traffic_recording
    inner_with-Refuses true = metrics-Refuses _ (traffic-Refuses _ guarded-Refuses)
    inner_with-Refuses false = metrics-Refuses _ guarded-Refuses

    request_id-Turned :
        (next : Handler (Gateway F))
        → Refuses next
        → (r : Request) (s : Gateway F) → ¬ Lets r
        → Stopped s (request_id (λ g. g.random_id) next r s)
    unfolding request_id Refused wire_status get_header
    request_id-Turned next refuses r s out =
        let given = get_header r (lit "X-Request-ID") in
        let id = if str_eq given [] then s.random_id else given in
        let (answer, same_breaker, same_api) = refuses (record r { request_id = some id }) s out in
        (
          wire_status-Turned (next (record r { request_id = some id }) s).0 answer,
          same_breaker,
          same_api,
        )

    -- A request that authentication does not let through never reaches the circuit breaker or the proxy, whatever the
    -- configuration and the state: the answer is 401, or 429 where the rate limiter was first, and the
    -- breaker, the proxy's balancers, the processes, the health checker, the log store and the broker are as before.
    pub refused_lem : (r : Request) (s : Gateway F) → ¬ Lets r → Stopped s (handler w cfg r s)
    unfolding handler middlewares inner
    refused_lem r s out =
        let next =
          nested (proxy_handler w) (inner_with w cfg (traffic_recording cfg.analytics.enabled)) in
        let captured = capture-Refuses next (inner_with-Refuses cfg.analytics.enabled) in
        let chained = chain_lem (proxy_handler w) (middlewares w cfg) in
        subst (λ (h : Handler (Gateway F)). Stopped s (h r s)) (sym chained)
          (request_id-Turned _ captured r s out)
