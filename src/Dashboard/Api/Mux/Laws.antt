-- ===== src/Dashboard/Api/Mux/Laws.antt =====
-- internal/dashboard/api.go: which requests leave the components alone.
use microgate.Base.{
  ◌≡◌, refl, ◌⊎◌, inl, inr, true, false, either_branch, lit, str_eq, Bool-cases, List,
}
use microgate.Base.Floats.{Float64}
use microgate.Http.{Request, Call}
use microgate.Dashboard.Broker.{subscribe}
use microgate.Dashboard.Api.{Api, Outside}
use microgate.Dashboard.Api.Processes.{handle_processes, handle_process_action}
use microgate.Dashboard.Api.Processes.Laws.{handle_processes_safe}
use microgate.Dashboard.Api.Logs.{handle_logs, handle_routes, handle_metrics, handle_log_detail}
use microgate.Dashboard.Api.Mux.{cors_handler, handle_stream, handler}

module _ {F : Type 0} where
  cors_handler-same :
      (h : Request → Api F → List Call × Api F) (r : Request) (api : Api F)
      → (h r api).1 ≡ api
      → (cors_handler h r api).1 ≡ api
  unfolding cors_handler
  cors_handler-same h r api same = elim (Bool-cases (str_eq r.method (lit "OPTIONS"))) [
    | inl options ↦ rw options refl
    | inr other ↦ rw other same
  ]

module _ {F : Type 0} ⦃f : Float64 F⦄ where
  -- The request left the components alone, but for a new client of the broker if it asked for the stream.
  unfoldable pub LeftAlone : Request → Api F → List Call × Api F → Type 0
  LeftAlone r api out =
      (out.1 ≡ api)
      ⊎ ((str_eq r.path (lit "/stream") ≡ true)
          × (out.1 ≡ record api { broker = subscribe api.broker }))

  same-LeftAlone :
      (r : Request) (api : Api F) (out : List Call × Api F) → out.1 ≡ api → LeftAlone r api out
  unfolding LeftAlone
  same-LeftAlone r api out same = inl same

  handle_stream-LeftAlone :
      (o : Outside F) (r : Request) (api : Api F)
      → str_eq r.path (lit "/stream") ≡ true
      → LeftAlone r api (handle_stream o r api)
  unfolding LeftAlone handle_stream
  handle_stream-LeftAlone o r api stream = inr (stream, refl)

  cors_handler-LeftAlone :
      (h : Request → Api F → List Call × Api F) (r : Request) (api : Api F)
      → (h r api).1 ≡ api
      → LeftAlone r api (cors_handler h r api)
  cors_handler-LeftAlone h r api same =
      same-LeftAlone r api (cors_handler h r api) (cors_handler-same h r api same)

  handle_logs-same :
      (o : Outside F) (r : Request) (api : Api F)
      → ((handle_logs o r api).1 ≡ api)
        × ((handle_routes o r api).1 ≡ api)
        × ((handle_metrics o r api).1 ≡ api)
        × ((handle_log_detail o r api).1 ≡ api)
  unfolding handle_logs handle_routes handle_metrics handle_log_detail
  handle_logs-same o r api = (refl, refl, refl, refl)

  -- A request that is no POST leaves every component as it is; only a request for /stream makes its connection
  -- a client of the broker, and changes nothing else.
  pub handler-LeftAlone :
      (o : Outside F) (r : Request) (api : Api F)
      → str_eq r.method (lit "POST") ≡ false
      → LeftAlone r api (handler o r api)
  unfolding handler
  handler-LeftAlone o r api no_post =
      let (listing, action) = handle_processes_safe o r api no_post in
      let (logs, routes, metrics, detail) = handle_logs-same o r api in
      let P : List Call × Api F → Type 0 = LeftAlone r api in
      either_branch P (λ e. cors_handler-LeftAlone (handle_processes o) r api listing)
        (either_branch P (λ e. cors_handler-LeftAlone (handle_process_action o) r api action)
          (either_branch P (λ e. cors_handler-LeftAlone (handle_routes o) r api routes)
            (either_branch P (λ e. cors_handler-LeftAlone (handle_metrics o) r api metrics)
              (either_branch P (λ e. cors_handler-LeftAlone (handle_logs o) r api logs)
                (either_branch P (λ e. cors_handler-LeftAlone (handle_log_detail o) r api detail)
                  (either_branch P (handle_stream-LeftAlone o r api)
                    (same-LeftAlone r api _ refl)))))))
