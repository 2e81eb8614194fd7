-- ===== src/Gateway/Serve/Valid.antt =====
-- cmd/gateway/main.go: a request leaves the gateway well-formed.
use mathlib.Core.Path.{subst}
use microgate.Base.{not, sym, ◌&&◌, List, in_branch, lit, str_eq, has_prefix}
use microgate.Base.Floats.{Float64}
use microgate.Config.{Config}
use microgate.Http.{Request, Call}
use microgate.Dashboard.Process.Laws.{Reach}
use microgate.Dashboard.Broker.Laws.{IsSafe}
use microgate.Dashboard.Api.Processes.Valid as Api
use microgate.Dashboard.Api.Mux.Valid.{handler-Leaves}
use microgate.Gateway.{Gateway, World}
use microgate.Gateway.Valid.{IsValid, Leaves}
use microgate.Gateway.Chain.{handler}
use microgate.Gateway.Chain.Steady.{Steady, handler-IsSteady}
use microgate.Gateway.Serve.{stripped, dashboard, is_redirected, serve}

module _ {F : Type 0} ⦃f : Float64 F⦄ where
  same-Leaves : (calls : List Call) (s : Gateway F) → IsValid s → Leaves (calls, s)
  unfolding Leaves
  same-Leaves calls s h = h

  dashboard-Leaves :
      (w : World F) (r : Request) (s : Gateway F) → IsValid s → Leaves (dashboard w r s)
  unfolding Leaves dashboard Api.Leaves
  dashboard-Leaves w r s (api, logs, events) =
      (handler-Leaves w.outside (stripped (lit "/dashboard/api") r) s.api api, logs, events)

  carried-Leaves :
      (s : Gateway F) (out : List Call × Gateway F) → IsValid s → Steady s out → Leaves out
  unfolding Leaves Steady
  carried-Leaves s out ((reached, safe), logs, events) (pm, broker, keeps_logs, keeps_events) = (
    (subst Reach (sym pm) reached, subst IsSafe (sym broker) safe),
    keeps_logs logs,
    keeps_events events,
  )

  pub serve-Leaves :
      (w : World F) (cfg : Config F) (r : Request) (s : Gateway F)
      → IsValid s
      → Leaves (serve w cfg r s)
  unfolding serve
  serve-Leaves w cfg r s h = in_branch Leaves (not (w.is_clean r)) (same-Leaves _ s h) (
      in_branch Leaves (str_eq r.path (lit "/health")) (same-Leaves _ s h) (
        in_branch Leaves (str_eq r.path (lit "/metrics")) (same-Leaves _ s h) (
          in_branch Leaves (is_redirected cfg r.path) (same-Leaves _ s h) (
            in_branch Leaves (cfg.analytics.enabled && has_prefix r.path (lit "/analytics/"))
              (same-Leaves _ s h)
              (in_branch Leaves (cfg.dashboard.enabled && has_prefix r.path (lit "/dashboard/api/"))
                (dashboard-Leaves w r s h)
                (in_branch Leaves (cfg.dashboard.enabled && has_prefix r.path (lit "/dashboard/"))
                  (same-Leaves _ s h)
                  (carried-Leaves s (handler w cfg r s) h (handler-IsSteady w cfg r s))))))))
