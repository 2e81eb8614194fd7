-- ===== src/Gateway/Chain/Verdict.antt =====
-- cmd/gateway/main.go: what a request comes to, all middleware taken together.
use mathlib.Core.Path.{subst}
use microgate.Base.{
  none, Option, in_branch, ℕ, ◌≡◌, refl, sym, ap, inl, inr, Bool, true, false, some, [],
  if◌then◌else◌, List, ◌∷◌, lit, str_eq, arith, Bool-cases,
}
use microgate.Base.Floats.{Float64}
use microgate.Config.{Config}
use microgate.Http.{aborts, Request, Call, Handler, get_header}
use microgate.Http.Chain.{nested, chain_lem}
use microgate.Http.Writer.{
  aborts-capture_all, answer_status, CodesFinal, fresh_capture, capture_all, capture_all-CodesFinal,
  capture_lem, wire_status, writer_status, header_after,
}
use microgate.Auth.{new_auth}
use microgate.Auth as Auth
use microgate.Auth.Laws.{middleware-split}
use microgate.Traffic.{request_id}
use microgate.Traffic as Traffic
use microgate.Capture as Capture
use microgate.Capture.Laws.{offer-store}
use microgate.RateLimit.{RateLimiter}
use microgate.RateLimit.Adaptive.{AdaptiveRateLimiter}
use microgate.CircuitBreaker.{CircuitBreaker, enter, finish}
use microgate.CircuitBreaker.Handler as Breaker
use microgate.Logging.{logging, metrics}
use microgate.Dashboard.Api.{Api}
use microgate.Gateway.{
  Gateway, World, capture_cell, observed_cell, output_cell, traffic_cell, breaker_cell, now,
}
use microgate.Gateway.Chain.{
  proxy_handler, rate_limit, traffic_recording, inner_with, inner, middlewares, handler,
}
use microgate.Gateway.Chain.Limits.{limited, rate_limit-Limits}
use microgate.Gateway.Chain.Blocked.{Lets}
use microgate.Gateway.Chain.Logged.{Honest, proxy_handler-CodesFinal}

-- The code that goes out, if one does, and the breaker and what the API points to afterwards.
abbrev pub Result : Type 0 → Type 0
Result F = Option ℕ × CircuitBreaker × Api F

abbrev pub result : {F : Type 0} → List Call × Gateway F → Result F
result (calls, s) = (answer_status calls, s.breaker, s.api)

aborted_status : (calls : List Call) → aborts calls ≡ true → answer_status calls ≡ none
aborted_status calls cut = rw cut refl

answered_status :
    (calls : List Call) → aborts calls ≡ false → answer_status calls ≡ some (wire_status calls)
answered_status calls done = rw done refl

module _ {F : Type 0} ⦃f : Float64 F⦄ where
  -- What the proxy's answer comes to behind the breaker, which learns the answer's status and backend.
  abbrev pub by_proxy : World F → Request → Gateway F → Result F
  by_proxy w r s =
      let (answer, after) = proxy_handler w r s in
      let backend = header_after answer (lit "X-Proxy-Backend") [] in
      (
        some (wire_status answer),
        finish (enter s.breaker s.clock).1 after.analyzer (writer_status 200 answer) backend
            after.clock,
        after.api,
      )

  pub data Verdict (w : World F) (cfg : Config F) (r : Request) (s : Gateway F)
      : Result F → Type 0 where
    too_many : Verdict w cfg r s (some 429, s.breaker, s.api)
    unauthorized : ¬ Lets w cfg r → Verdict w cfg r s (some 401, s.breaker, s.api)
    tripped :
        Lets w cfg r
        → (enter s.breaker s.clock).0 ≡ false
        → Verdict w cfg r s (some 503, (enter s.breaker s.clock).1, s.api)
    proxied :
        Lets w cfg r
        → (enter s.breaker s.clock).0 ≡ true
        → aborts (proxy_handler w r s).0 ≡ false
        → Verdict w cfg r s (by_proxy w r s)
    aborted :
        Lets w cfg r
        → (enter s.breaker s.clock).0 ≡ true
        → aborts (proxy_handler w r s).0 ≡ true
        → Verdict w cfg r s (none, (enter s.breaker s.clock).1, (proxy_handler w r s).1.api)

  -- A verdict does not depend on the limiters.
  limited-Verdict :
      (w : World F) (cfg : Config F) (r : Request) (s : Gateway F) (rl : RateLimiter F)
      (a : AdaptiveRateLimiter F) (x : Result F)
      → Verdict w cfg r (limited s rl a) x
      → Verdict w cfg r s x
  unfolding proxy_handler
  limited-Verdict w cfg r s rl a x too_many = too_many
  limited-Verdict w cfg r s rl a x (unauthorized out) = unauthorized out
  limited-Verdict w cfg r s rl a x (tripped lets stays) = tripped lets stays
  limited-Verdict w cfg r s rl a x (proxied lets passes done) = proxied lets passes done
  limited-Verdict w cfg r s rl a x (aborted lets passes cut) = aborted lets passes cut

  module _ (w : World F) (cfg : Config F) (honest : Honest w) where
    -- The answer has final codes only, and the result is one of the five.
    unfoldable pub Judged : Request → Gateway F → List Call × Gateway F → Type 0
    Judged r s (calls, s') = CodesFinal calls × Verdict w cfg r s (result (calls, s'))

    abbrev IsJudged : Handler (Gateway F) → Type 0
    IsJudged h = (r : Request) (s : Gateway F) → Judged r s (h r s)

    -- What the breaker does before authentication has been asked.
    breaker-Judged :
        (r : Request) (s : Gateway F)
        → Lets w cfg r
        → Judged r s (Breaker.middleware breaker_cell (λ g. g.analyzer) now (proxy_handler w) r s)
    unfolding Judged Breaker.middleware proxy_handler wire_status aborts
    breaker-Judged r s lets = elim (Bool-cases (enter s.breaker s.clock).0) [
      | inl passes ↦
          let final = proxy_handler-CodesFinal w r s honest in
          let s' = record s { breaker = (enter s.breaker s.clock).1 } in
          elim (Bool-cases (aborts (proxy_handler w r s').0)) [
            | inl cut ↦
                rw (Breaker.middleware, passes, cut)
                  (
                    final,
                    subst
                        (λ code.
                          Verdict w cfg r s
                            (code, (enter s.breaker s.clock).1, (proxy_handler w r s').1.api))
                        (sym (aborted_status (proxy_handler w r s').0 cut))
                        (aborted lets passes cut),
                  )
            | inr done ↦
                rw (Breaker.middleware, passes, done)
                  (
                    final,
                    subst
                        (λ code.
                          Verdict w cfg r s
                            (code, (by_proxy w r s).1, (proxy_handler w r s').1.api))
                        (sym (answered_status (proxy_handler w r s').0 done))
                        (proxied lets passes done),
                  )
          ]
      | inr stays ↦ rw (Breaker.middleware, stays) ((omega arith, refl, tt), tripped lets stays)
    ]

    auth-IsJudged : IsJudged (
        nested (proxy_handler w) (
          Auth.middleware w.jwt_parse (new_auth cfg.auth.api_keys cfg.auth.jwt_secret)
          ∷ Breaker.middleware breaker_cell (λ g. g.analyzer) now
          ∷ []))
    unfolding Judged wire_status aborts
    auth-IsJudged r s =
        let next = Breaker.middleware breaker_cell (λ g. g.analyzer) now (proxy_handler w) in
        elim (middleware-split w.jwt_parse cfg.auth.api_keys cfg.auth.jwt_secret next r s) [
          | inl (lets, on) ↦ subst (Judged r s) (sym on) (breaker-Judged r s lets)
          | inr (out, (m, refused)) ↦
              subst (Judged r s) (sym refused) ((omega arith, refl, tt), unauthorized out)
        ]

    rate_limit-IsJudged :
        (next : Handler (Gateway F)) → IsJudged next → IsJudged (rate_limit cfg next)
    unfolding Judged proxy_handler wire_status aborts
    rate_limit-IsJudged next judged r s =
        let (rl, a, limits) = rate_limit-Limits cfg next r s in
        elim limits [
          | inl on ↦
              let (codes, verdict) = judged r (limited s rl a) in
              subst (Judged r s) (sym on) (codes, limited-Verdict w cfg r s rl a _ verdict)
          | inr off ↦ subst (Judged r s) (sym off) ((omega arith, refl, tt), too_many)
        ]

    logging-IsJudged :
        (next : Handler (Gateway F)) → IsJudged next → IsJudged (logging output_cell now next)
    unfolding Judged logging
    logging-IsJudged next judged r s =
        in_branch (Judged r s) (aborts (next r s).0) (judged r s) (judged r s)

    metrics-IsJudged :
        (next : Handler (Gateway F)) → IsJudged next → IsJudged (metrics observed_cell now next)
    unfolding Judged metrics
    metrics-IsJudged next judged r s =
        in_branch (Judged r s) (aborts (next r s).0) (judged r s) (judged r s)

    -- The status that goes out is the same behind a wrapper of the response.
    captured-Judged :
        (r : Request) (s s' : Gateway F) (calls : List Call) (cb : CircuitBreaker) (api : Api F)
        → Judged r s (calls, s')
        → cb ≡ s'.breaker
        → api ≡ s'.api
        → CodesFinal (capture_all fresh_capture calls).1
          × Verdict w cfg r s (answer_status (capture_all fresh_capture calls).1, cb, api)
    unfolding Judged
    captured-Judged r s s' calls cb api (codes, verdict) same_breaker same_api =
        let (_, sent, _) = capture_lem calls codes in
        (
          capture_all-CodesFinal fresh_capture calls codes,
          rw (aborts-capture_all fresh_capture calls, sent, same_breaker, same_api) verdict,
        )

    traffic-IsJudged :
        (next : Handler (Gateway F))
        → IsJudged next
        → IsJudged (Traffic.middleware traffic_cell now next)
    unfolding Judged Traffic.middleware
    traffic-IsJudged next judged r s =
        let captured = captured-Judged r s (next r s).1 (next r s).0 _ _ (judged r s) refl refl in
        in_branch (Judged r s) (aborts (next r s).0) captured captured

    capture-IsJudged :
        (next : Handler (Gateway F))
        → IsJudged next
        → IsJudged (Capture.middleware capture_cell now next)
    unfolding Judged Capture.middleware
    capture-IsJudged next judged r s =
        let s' = (next r s).1 in
        let captured = captured-Judged r s s' (next r s).0 s'.breaker in
        in_branch (Judged r s) (aborts (next r s).0) (captured s'.api (judged r s) refl refl) (
          captured _ (judged r s) refl (
            ap (λ store. record s'.api { store = store })
              (offer-store (record { logs = s'.pending; store = s'.api.store }) _)))

    inner_with-IsJudged :
        (recorded : Bool)
        → IsJudged (nested (proxy_handler w) (inner_with w cfg (traffic_recording recorded)))
    unfolding traffic_recording
    inner_with-IsJudged true =
        metrics-IsJudged _
          (traffic-IsJudged _ (logging-IsJudged _ (rate_limit-IsJudged _ auth-IsJudged)))
    inner_with-IsJudged false =
        metrics-IsJudged _ (logging-IsJudged _ (rate_limit-IsJudged _ auth-IsJudged))

    request_id-Verdict :
        (next : Handler (Gateway F))
        → IsJudged next
        → (r : Request) (s : Gateway F)
        → let given = get_header r (lit "X-Request-ID") in
          let id = if str_eq given [] then s.random_id else given in
          Verdict w cfg
            (record r { request_id = some id })
            s
            (result (request_id (λ g. g.random_id) next r s))
    unfolding request_id Judged wire_status get_header aborts
    request_id-Verdict next judged r s =
        let given = get_header r (lit "X-Request-ID") in
        let id = if str_eq given [] then s.random_id else given in
        (judged (record r { request_id = some id }) s).1

    -- If every code that a backend or net/http's redirection writes is a final one (not 0, and none from 100
    -- to 199 but 101), every request comes to one of five results. The rate limiter answers 429, or authentication
    -- answers 401 to a request that it does not admit: the breaker and what the API points to stay as they
    -- are. The breaker does not let an admitted request pass: the answer is 503 and no more than the
    -- breaker changes. Or the request, with its id, reaches the proxy and what the API points to is as the proxy
    -- left it. If the proxy answers, the code that goes out is the one of its answer, and the breaker learns
    -- the status and the backend of that answer. If it panics, no code is certain and the breaker learns nothing.
    pub verdict_lem :
        (r : Request) (s : Gateway F)
        → let given = get_header r (lit "X-Request-ID") in
          let id = if str_eq given [] then s.random_id else given in
          Verdict w cfg (record r { request_id = some id }) s (result (handler w cfg r s))
    unfolding handler middlewares inner
    verdict_lem r s =
        let given = get_header r (lit "X-Request-ID") in
        let id = if str_eq given [] then s.random_id else given in
        let next =
          nested (proxy_handler w) (inner_with w cfg (traffic_recording cfg.analytics.enabled)) in
        let chained = chain_lem (proxy_handler w) (middlewares w cfg) in
        subst
          (λ (h : Handler (Gateway F)).
            Verdict w cfg (record r { request_id = some id }) s (result (h r s)))
          (sym chained)
          (request_id-Verdict _ (capture-IsJudged next (inner_with-IsJudged cfg.analytics.enabled))
            r s)
