-- ===== src/Gateway/Serve.antt =====
-- cmd/gateway/main.go: the top-level mux. Paths are clean. Only the last route is behind the middleware.
pub mod Valid
use microgate.Base.{
  not, Bool, true, false, Option, none, some, List, [], ◌∷◌, if◌then◌else◌, ◌&&◌, GoString, GoMap,
  insert, lit, str_eq, has_prefix, trim_prefix,
}
use microgate.Base.Floats.{Float64}
use microgate.Config.{Config}
use microgate.Http.{Request, Handler}
use microgate.Health as Health
use microgate.Analytics.Api.{AnalyticsApi}
use microgate.Analytics.Api as Analytics
use microgate.Proxy.Weighted.{get_weights}
use microgate.Proxy.Router.{Selector, plain, weighted}
use microgate.Dashboard.Api.Mux as Dashboard
use microgate.Gateway.{Gateway, World}
use microgate.Gateway.Chain.{handler}

-- `http.StripPrefix(prefix, h)`, for a path with the prefix.
abbrev stripped : GoString → Request → Request
stripped prefix r = record r { path = trim_prefix r.path prefix }

module _ {F : Type 0} ⦃f : Float64 F⦄ where
  join : GoMap F → GoMap F → GoMap F
  join [] all = all
  join ((backend, weight) ∷ rest) all = join rest (insert backend weight all)

  -- The loops of the weight provider over the weighted balancers, which stand in the heap in the order in which they
  -- were made.
  all_weights : List (Selector F) → GoMap F → GoMap F
  unfolding join
  all_weights [] all = all
  all_weights (plain lb ∷ rest) all = all_weights rest all
  all_weights (weighted wlb ∷ rest) all = all_weights rest (join (get_weights wlb) all)

  has_weighted : List (Selector F) → Bool
  has_weighted [] = false
  has_weighted (plain lb ∷ rest) = has_weighted rest
  has_weighted (weighted wlb ∷ rest) = true

  unfoldable pub weights_of : Gateway F → Option (GoMap F)
  unfolding all_weights has_weighted
  weights_of s =
      let heap = s.api.proxy.selectors in
      if has_weighted heap then some (all_weights heap []) else none

  unfoldable pub analytics_api : Gateway F → AnalyticsApi F
  analytics_api s = record {
    analyzer = s.analyzer;
    store = s.traffic.store;
    weights = weights_of s;
  }

  dashboard : World F → Handler (Gateway F)
  dashboard w r s =
      let (calls, api) = Dashboard.handler w.outside (stripped (lit "/dashboard/api") r) s.api in
      (calls, record s { api = api })

  -- A path that lacks only the last slash of a pattern is redirected.
  is_redirected : Config F → GoString → Bool
  is_redirected cfg path =
      if str_eq path (lit "/analytics")
      then cfg.analytics.enabled
      else if str_eq path (lit "/dashboard")
      then cfg.dashboard.enabled
      else if str_eq path (lit "/dashboard/api")
      then cfg.dashboard.enabled
      else false

  -- net/http redirects from a path that it cleans, and takes the longest pattern that fits.
  unfoldable pub serve : World F → Config F → Handler (Gateway F)
  unfolding dashboard is_redirected
  serve w cfg r s =
      if not (w.is_clean r)
      then (w.redirect r, s)
      else if str_eq r.path (lit "/health")
      then (Health.handler w.encode_health s.api.hc, s)
      else if str_eq r.path (lit "/metrics")
      then (w.prometheus s.observed, s)
      else if is_redirected cfg r.path
      then (w.redirect r, s)
      else if cfg.analytics.enabled && has_prefix r.path (lit "/analytics/")
      then (
        Analytics.handler w.encode_analytics (analytics_api s) (stripped (lit "/analytics") r)
            s.clock,
        s,
      )
      else if cfg.dashboard.enabled && has_prefix r.path (lit "/dashboard/api/")
      then dashboard w r s
      else if cfg.dashboard.enabled && has_prefix r.path (lit "/dashboard/")
      then (w.files (stripped (lit "/dashboard/") r), s)
      else handler w cfg r s
