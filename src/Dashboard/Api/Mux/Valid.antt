-- ===== src/Dashboard/Api/Mux/Valid.antt =====
-- internal/dashboard/api.go: every request to the API keeps the process manager and the broker well-formed.
use microgate.Base.{List, in_branch, lit, str_eq, has_prefix}
use microgate.Base.Floats.{Float64}
use microgate.Http.{Request, Call}
use microgate.Dashboard.Broker.Laws.{subscribe-IsSafe}
use microgate.Dashboard.Api.{Api, Outside}
use microgate.Dashboard.Api.Processes.{handle_processes, handle_process_action}
use microgate.Dashboard.Api.Processes.Valid.{IsValid, Leaves, same-Leaves, handle_processes-Leaves}
use microgate.Dashboard.Api.Logs.{handle_logs, handle_routes, handle_metrics, handle_log_detail}
use microgate.Dashboard.Api.Mux.{cors_handler, handle_stream, handler}

module _ {F : Type 0} ⦃f : Float64 F⦄ where
  cors_handler-Leaves :
      (h : Request → Api F → List Call × Api F) (r : Request) (api : Api F)
      → IsValid api
      → Leaves (h r api)
      → Leaves (cors_handler h r api)
  unfolding cors_handler Leaves
  cors_handler-Leaves h r api valid leaves =
      in_branch Leaves (str_eq r.method (lit "OPTIONS")) valid leaves

  handle_stream-Leaves :
      (o : Outside F) (r : Request) (api : Api F) → IsValid api → Leaves (handle_stream o r api)
  unfolding Leaves handle_stream
  handle_stream-Leaves o r api (reached, safe) = (reached, subscribe-IsSafe api.broker safe)

  handle_logs-Leaves :
      (o : Outside F) (r : Request) (api : Api F)
      → IsValid api
      → Leaves (handle_logs o r api)
        × Leaves (handle_routes o r api)
        × Leaves (handle_metrics o r api)
        × Leaves (handle_log_detail o r api)
  unfolding Leaves handle_logs handle_routes handle_metrics handle_log_detail
  handle_logs-Leaves o r api h = (h, h, h, h)

  -- Whatever request comes to the API, the process manager stays one that its own operations can make, so that each
  -- process runs exactly while it has a command, and the broker stays safe.
  pub handler-Leaves :
      (o : Outside F) (r : Request) (api : Api F) → IsValid api → Leaves (handler o r api)
  unfolding handler
  handler-Leaves o r api h =
      let (listing, action) = handle_processes-Leaves o r api h in
      let (logs, routes, metrics, detail) = handle_logs-Leaves o r api h in
      in_branch Leaves (str_eq r.path (lit "/processes"))
        (cors_handler-Leaves (handle_processes o) r api h listing)
        (in_branch Leaves (has_prefix r.path (lit "/processes/"))
          (cors_handler-Leaves (handle_process_action o) r api h action)
          (in_branch Leaves (str_eq r.path (lit "/routes"))
            (cors_handler-Leaves (handle_routes o) r api h routes)
            (in_branch Leaves (str_eq r.path (lit "/metrics"))
              (cors_handler-Leaves (handle_metrics o) r api h metrics)
              (in_branch Leaves (str_eq r.path (lit "/logs"))
                (cors_handler-Leaves (handle_logs o) r api h logs)
                (in_branch Leaves (has_prefix r.path (lit "/logs/"))
                  (cors_handler-Leaves (handle_log_detail o) r api h detail)
                  (in_branch Leaves (str_eq r.path (lit "/stream")) (handle_stream-Leaves o r api h)
                    (same-Leaves _ api h)))))))
