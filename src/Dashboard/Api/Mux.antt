-- ===== src/Dashboard/Api/Mux.antt =====
-- internal/dashboard/api.go: `Handler`. Paths are as http.StripPrefix leaves them, and clean.
pub mod Laws
pub mod Valid
use microgate.Base.{
  ℕ, Option, none, some, List, [], ◌∷◌, ◌++◌, if◌then◌else◌, GoString, lit, str_eq, has_prefix,
  true,
}
use microgate.Base.Floats.{Float64}
use microgate.Http.{Request, Call, set_header, write_header, http_error}
use microgate.Dashboard.Broker.{subscribe, stream_handler}
use microgate.Dashboard.Api.{Api, Outside}
use microgate.Dashboard.Api.Processes.{handle_processes, handle_process_action}
use microgate.Dashboard.Api.Logs.{handle_logs, handle_routes, handle_metrics, handle_log_detail}

abbrev cors_headers : List Call
cors_headers =
    set_header (lit "Access-Control-Allow-Origin") (lit "*")
    ∷ set_header (lit "Access-Control-Allow-Methods") (lit "GET, POST, OPTIONS")
    ∷ set_header (lit "Access-Control-Allow-Headers") (lit "Content-Type")
    ∷ []

module _ {F : Type 0} where
  unfoldable pub cors_handler :
      (Request → Api F → List Call × Api F) → Request → Api F → List Call × Api F
  cors_handler h r api =
      let (calls, api') = h r api in
      if str_eq r.method (lit "OPTIONS")
      then (cors_headers ++ (write_header 200 ∷ []), api)
      else (cors_headers ++ calls, api')

  -- A connection that asks for the stream is a client until it ends.
  unfoldable pub handle_stream : Outside F → Request → Api F → List Call × Api F
  handle_stream o r api =
      (stream_handler true o.received, record api { broker = subscribe api.broker })

module _ {F : Type 0} ⦃f : Float64 F⦄ where
  -- net/http takes the longest pattern that fits; here no two that fit are registered.
  unfoldable pub handler : Outside F → Request → Api F → List Call × Api F
  handler o r api =
      if str_eq r.path (lit "/processes")
      then cors_handler (handle_processes o) r api
      else if has_prefix r.path (lit "/processes/")
      then cors_handler (handle_process_action o) r api
      else if str_eq r.path (lit "/routes")
      then cors_handler (handle_routes o) r api
      else if str_eq r.path (lit "/metrics")
      then cors_handler (handle_metrics o) r api
      else if str_eq r.path (lit "/logs")
      then cors_handler (handle_logs o) r api
      else if has_prefix r.path (lit "/logs/")
      then cors_handler (handle_log_detail o) r api
      else if str_eq r.path (lit "/stream")
      then handle_stream o r api
      else (http_error (lit "404 page not found") 404, api)
