-- ===== src/Dashboard/Api/Processes/Laws.antt =====
-- internal/dashboard/api.go: what a POST to /processes makes of the components.
use microgate.Base.{
  ◌≡◌, refl, ◌⊎◌, false, none, some, List, [], ◌∷◌, GoString, lit, str_eq, trim_prefix, lookup,
  arith,
}
use microgate.Base.Floats.{Float64}
use microgate.Http.{Request, Call}
use microgate.Http.Writer.{wire_status}
use microgate.Proxy.Router as Router
use microgate.Health.{HealthChecker, BackendStatus}
use microgate.Health as Health
use microgate.Proxy.Router.{Proxy}
use microgate.Proxy.Router.Added.{Added}
use microgate.Dashboard.Process.{ManagedProcess, ProcessManager, stopped}
use microgate.Dashboard.Api.{Api, AddRequest, Outside, backend_url}
use microgate.Dashboard.Api.Processes.{
  handle_processes, handle_process_action, act_on, act_on_process, split_slash,
}

-- The health checker has the URL: not yet healthy if it is new, and else as it was. Nothing else in it changes.
abbrev pub Watched : HealthChecker → GoString → HealthChecker → Type 0
Watched hc url hc' =
    (((lookup url hc.backends ≡ none)
        × (lookup url hc'.backends ≡ some (record { url = url; healthy = false; last_check = 0 })))
      ⊎ ((status : BackendStatus) × (lookup url hc.backends ≡ some status)
          × (lookup url hc'.backends ≡ some status)))
    × ((other : GoString)
        → str_eq url other ≡ false
        → lookup other hc'.backends ≡ lookup other hc.backends)

-- The process is there as the request describes it, and is stopped, and every other is as before.
abbrev pub Registered : ProcessManager → AddRequest → ProcessManager → Type 0
Registered m req m' =
    ((p : ManagedProcess) × (lookup req.id m'.processes ≡ some p)
      × (p.command ≡ req.command)
      × (p.args ≡ req.args)
      × (p.port ≡ req.port)
      × (p.status ≡ stopped))
    × ((other : GoString)
        → str_eq req.id other ≡ false
        → lookup other m'.processes ≡ lookup other m.processes)

module _ {F : Type 0} ⦃f : Float64 F⦄ where
  -- The proxy after a success: the route's balancer has the backend, if a route is given.
  abbrev pub Routed : Proxy F → AddRequest → Proxy F → Type 0
  Routed p req p' = ((req.route ≡ []) × (p' ≡ p)) ⊎ Added p req.route (backend_url req.port) p'

  -- What comes of registering the backend.
  abbrev pub Answered : Api F → AddRequest → List Call × Api F → Type 0
  Answered api req (calls, api') =
      (api'.broker ≡ api.broker)
      × (api'.store ≡ api.store)
      × (((wire_status calls ≡ 201)
            × Routed api.proxy req api'.proxy
            × Watched api.hc (backend_url req.port) api'.hc)
          ⊎ ((wire_status calls ≡ 400)
              × (lookup req.route api.proxy.routes ≡ none)
              × (api'.proxy ≡ api.proxy)
              × (api'.hc ≡ api.hc)))

  -- Either the id is taken, or the process is registered.
  abbrev pub Outcomes : Api F → AddRequest → List Call × Api F → Type 0
  Outcomes api req (calls, api') =
      ((wire_status calls ≡ 409)
        × (api' ≡ api)
        × ((p : ManagedProcess) × (lookup req.id api.pm.processes ≡ some p)))
      ⊎ (Registered api.pm req api'.pm × Answered api req (calls, api'))

  handle_processes-same :
      (o : Outside F) (r : Request) (api : Api F)
      → str_eq r.method (lit "POST") ≡ false
      → (handle_processes o r api).1 ≡ api
  unfolding handle_processes
  handle_processes-same o r api no_post = ground (arith, no_post)

  act_on-same :
      (o : Outside F) (r : Request) (api : Api F) (parts : List GoString)
      → str_eq r.method (lit "POST") ≡ false
      → (act_on o r api parts).1 ≡ api
  unfolding act_on act_on_process
  act_on-same o r api [] no_post = refl
  act_on-same o r api (id ∷ []) no_post = refl
  act_on-same o r api (id ∷ action ∷ x ∷ parts) no_post = refl
  act_on-same o r api (id ∷ action ∷ []) no_post = ground (arith, no_post)

  -- A request that is no POST changes nothing in these handlers.
  pub handle_processes_safe :
      (o : Outside F) (r : Request) (api : Api F)
      → str_eq r.method (lit "POST") ≡ false
      → ((handle_processes o r api).1 ≡ api) × ((handle_process_action o r api).1 ≡ api)
  unfolding handle_process_action
  handle_processes_safe o r api no_post = (
    handle_processes-same o r api no_post,
    act_on-same o r api (split_slash [] (trim_prefix r.path (lit "/processes/"))) no_post,
  )
