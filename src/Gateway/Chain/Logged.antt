-- ===== src/Gateway/Chain/Logged.antt =====
-- cmd/gateway/main.go: what is kept of a request.
use mathlib.Core.Path.{subst}
use microgate.Base.{
  ◌⊎◌, in_branch, ℕ, ◌≡◌, ◌∙◌, refl, sym, ap, inl, inr, Bool, true, false, some, List, [], ◌∷◌,
  ◌++◌, if◌then◌else◌, ltb, length, GoString, lit, str_eq, arith, Bool-cases,
}
use microgate.Base.Floats.{Float64}
use microgate.Config.{Config}
use microgate.Http.{aborts, Request, Call, Handler, get_header}
use microgate.Http.Chain.{nested, chain_lem}
use microgate.Http.Writer.{
  aborts-capture_all, CodesFinal, fresh_capture, capture_all-CodesFinal, capture_lem, wire_status,
}
use microgate.Auth.{new_auth}
use microgate.Auth as Auth
use microgate.Auth.Laws.{middleware-cases}
use microgate.Traffic.{request_id, get_request_id}
use microgate.Traffic as Traffic
use microgate.Capture.{log_of, offer}
use microgate.Capture as Capture
use microgate.Capture.Laws.{offer-logs}
use microgate.CircuitBreaker.{enter}
use microgate.CircuitBreaker.Handler as Breaker
use microgate.Logging.{logging, metrics}
use microgate.Dashboard.LogStore.{RequestLog}
use microgate.Proxy.Router.{Reply, not_found, moved, unavailable, bad_url, forward}
use microgate.Gateway.{
  Gateway, World, capture_cell, observed_cell, output_cell, traffic_cell, breaker_cell, now,
}
use microgate.Gateway.Chain.{
  answered, forwarded, proxy_handler, rate_limit, traffic_recording, guarded, inner_with, inner,
  middlewares, handler,
}
use microgate.Gateway.Chain.Limits.{limited, rate_limit-Limits}

-- What comes from outside of the program writes final codes only.
abbrev pub Honest : {F : Type 0} → World F → Type 0
Honest w =
    ((backend : GoString) (r : Request) → CodesFinal (w.exchange backend r).0)
    × ((r : Request) → CodesFinal (w.redirect r))

-- The log of an answered request is kept, if there is room.
abbrev pub LogKept : {F : Type 0} → Request → Gateway F → List Call × Gateway F → Type 0
LogKept r s (calls, s') =
    let given = get_header r (lit "X-Request-ID") in
    (log : RequestLog) × (s'.pending
      ≡ (if ltb (length s.pending) 256 then s.pending ++ (log ∷ []) else s.pending))
    × (log.status ≡ wire_status calls)
    × (log.id ≡ (if str_eq given [] then s.random_id else given))
    × (log.method ≡ r.method)
    × (log.path ≡ r.path)
    × (log.timestamp ≡ s.clock)

-- What is kept of a request that came in the state `s`: nothing if it was aborted.
abbrev pub Kept : {F : Type 0} → Request → Gateway F → List Call × Gateway F → Type 0
Kept r s out =
    ((aborts out.0 ≡ true) × (out.1.pending ≡ s.pending))
    ⊎ ((aborts out.0 ≡ false) × LogKept r s out)

module _ {F : Type 0} ⦃f : Float64 F⦄ where
  -- The answer has final codes only, and the logs that wait are as before.
  unfoldable pub Plain : Gateway F → List Call × Gateway F → Type 0
  Plain s (calls, s') = CodesFinal calls × (s'.pending ≡ s.pending)

  abbrev pub IsPlain : Handler (Gateway F) → Type 0
  IsPlain h = (r : Request) (s : Gateway F) → Plain s (h r s)

  answered-CodesFinal :
      (w : World F) (r : Request) (reply : Reply) (t : ℕ)
      → Honest w
      → CodesFinal (answered w r reply t).0
  unfolding answered
  answered-CodesFinal w r not_found t h = (omega arith, refl, tt)
  answered-CodesFinal w r moved t (_, redirects) = redirects r
  answered-CodesFinal w r unavailable t h = (omega arith, refl, tt)
  answered-CodesFinal w r bad_url t h = (omega arith, refl, tt)
  answered-CodesFinal w r (forward backend) t (exchanges, _) = exchanges backend (forwarded r)

  pub proxy_handler-CodesFinal :
      (w : World F) (r : Request) (s : Gateway F) → Honest w → CodesFinal (proxy_handler w r s).0
  unfolding proxy_handler
  proxy_handler-CodesFinal w r s h = answered-CodesFinal w r _ s.clock h

  module _ (w : World F) (cfg : Config F) (honest : Honest w) where
    proxy_handler-IsPlain : IsPlain (proxy_handler w)
    unfolding Plain proxy_handler
    proxy_handler-IsPlain r s = (proxy_handler-CodesFinal w r s honest, refl)

    breaker-IsPlain :
        (next : Handler (Gateway F))
        → IsPlain next
        → IsPlain (Breaker.middleware breaker_cell (λ g. g.analyzer) now next)
    unfolding Plain Breaker.middleware
    breaker-IsPlain next plain r s = elim (Bool-cases (enter s.breaker s.clock).0) [
      | inl passes ↦
          let s' = record s { breaker = (enter s.breaker s.clock).1 } in
          rw (Breaker.middleware, passes)
            (in_branch (Plain s) (aborts (next r s').0) (plain r s') (plain r s'))
      | inr stays ↦ rw (Breaker.middleware, stays) ((omega arith, refl, tt), refl)
    ]

    auth-IsPlain :
        (next : Handler (Gateway F))
        → IsPlain next
        → IsPlain
            (Auth.middleware w.jwt_parse (new_auth cfg.auth.api_keys cfg.auth.jwt_secret) next)
    unfolding Plain
    auth-IsPlain next plain r s =
        elim (middleware-cases w.jwt_parse (new_auth cfg.auth.api_keys cfg.auth.jwt_secret) next r
          s) [
            | inl on ↦ subst (Plain s) (sym on) (plain r s)
            | inr refused ↦ subst (Plain s) (sym refused.1) ((omega arith, refl, tt), refl)
          ]

    rate_limit-IsPlain : (next : Handler (Gateway F)) → IsPlain next → IsPlain (rate_limit cfg next)
    unfolding Plain
    rate_limit-IsPlain next plain r s =
        let (rl, a, limits) = rate_limit-Limits cfg next r s in
        elim limits [
          | inl on ↦ subst (Plain s) (sym on) (plain r (limited s rl a))
          | inr off ↦ subst (Plain s) (sym off) ((omega arith, refl, tt), refl)
        ]

    logging-IsPlain :
        (next : Handler (Gateway F)) → IsPlain next → IsPlain (logging output_cell now next)
    unfolding Plain logging
    logging-IsPlain next plain r s =
        in_branch (Plain s) (aborts (next r s).0) (plain r s) (plain r s)

    metrics-IsPlain :
        (next : Handler (Gateway F)) → IsPlain next → IsPlain (metrics observed_cell now next)
    unfolding Plain metrics
    metrics-IsPlain next plain r s =
        in_branch (Plain s) (aborts (next r s).0) (plain r s) (plain r s)

    traffic-IsPlain :
        (next : Handler (Gateway F))
        → IsPlain next
        → IsPlain (Traffic.middleware traffic_cell now next)
    unfolding Plain Traffic.middleware
    traffic-IsPlain next plain r s =
        let (codes, same) = plain r s in
        let final = capture_all-CodesFinal fresh_capture (next r s).0 codes in
        in_branch (Plain s) (aborts (next r s).0) (final, same) (final, same)

    guarded-IsPlain : IsPlain (nested (proxy_handler w) (guarded w cfg))
    guarded-IsPlain =
        logging-IsPlain _
          (rate_limit-IsPlain _ (auth-IsPlain _ (breaker-IsPlain _ proxy_handler-IsPlain)))

    inner_with-IsPlain :
        (recorded : Bool)
        → IsPlain (nested (proxy_handler w) (inner_with w cfg (traffic_recording recorded)))
    unfolding traffic_recording
    inner_with-IsPlain true = metrics-IsPlain _ (traffic-IsPlain _ guarded-IsPlain)
    inner_with-IsPlain false = metrics-IsPlain _ guarded-IsPlain

    request_id-Kept :
        (next : Handler (Gateway F))
        → IsPlain next
        → (r : Request) (s : Gateway F)
        → Kept r s (request_id (λ g. g.random_id) (Capture.middleware capture_cell now next) r s)
    unfolding request_id Capture.middleware Plain wire_status log_of get_request_id offer aborts
    request_id-Kept next plain r s =
        let given = get_header r (lit "X-Request-ID") in
        let id = if str_eq given [] then s.random_id else given in
        let r' = record r { request_id = some id } in
        let (codes, same) = plain r' s in
        let calls = (next r' s).0 in
        let log = log_of r' calls s.clock (next r' s).1.clock in
        let (reported, sent, _) = capture_lem calls codes in
        let through = aborts-capture_all fresh_capture calls in
        elim (Bool-cases (aborts calls)) [
          | inl cut ↦ rw (request_id, Capture.middleware, cut) (inl (through ∙ cut, same))
          | inr done ↦
              rw (request_id, Capture.middleware, done)
                (inr (
                  through ∙ done,
                  (
                    log,
                    offer-logs (capture_cell.get (next r' s).1) log
                        ∙ ap (λ logs. if ltb (length logs) 256 then logs ++ (log ∷ []) else logs)
                            same,
                    reported ∙ sym sent,
                    refl,
                    refl,
                    refl,
                    refl,
                  ),
                ))
        ]

    -- If every code that a backend or net/http's redirection writes is a final one (not 0, and none from 100
    -- to 199 but 101), a request that comes to the gateway's middleware and is not aborted by the reverse
    -- proxy's panic is logged once, if fewer than 256 logs wait, and otherwise changes none of the logs that
    -- wait. The log is behind the others, with the status that goes out, the id that the request came
    -- with or the new one if it came with none, its method and path, and the time at which it came. A request
    -- that is aborted leaves the logs as they are.
    pub logged_lem : (r : Request) (s : Gateway F) → Kept r s (handler w cfg r s)
    unfolding handler middlewares inner
    logged_lem r s =
        let next =
          nested (proxy_handler w) (inner_with w cfg (traffic_recording cfg.analytics.enabled)) in
        let chained = chain_lem (proxy_handler w) (middlewares w cfg) in
        subst (λ (h : Handler (Gateway F)). Kept r s (h r s)) (sym chained)
          (request_id-Kept next (inner_with-IsPlain cfg.analytics.enabled) r s)
