-- ===== src/Dashboard/Api/Processes.antt =====
-- internal/dashboard/api.go: the handlers of /processes and /processes/.
pub mod Laws
pub mod Valid
use microgate.Base.{
  ℕ, Bool, true, false, not, ◌&&◌, ◌⊎◌, inl, inr, Option, none, some, List, [], ◌∷◌, ◌++◌,
  if◌then◌else◌, ltb, ◌==◌, GoString, lit, str_eq, trim_prefix,
}
use microgate.Base.Int.{ℤ, pos_part}
use microgate.Base.Decimal.{atoi}
use microgate.Base.Floats.{Float64}
use microgate.Http.{Request, Call, write_header, http_error}
use microgate.Health.{HealthChecker, is_healthy}
use microgate.Health as Health
use microgate.Proxy.Router.{Proxy}
use microgate.Proxy.Router as Router
use microgate.Dashboard.Process.{
  ManagedProcess, Failure, Outcome, not_found, is_running, add, start, stop, list,
}
use microgate.Dashboard.Process as Process
use microgate.Dashboard.Api.{
  Api, AddRequest, processes, lines, Outside, failure_text, backend_url, not_allowed, reply, query,
  broadcast_all,
}

-- `ProcessWithHealth`
abbrev pub shown_healthy : HealthChecker → ManagedProcess → Bool
shown_healthy hc p = if is_running p.status then is_healthy hc (backend_url p.port) else false

unfoldable pub with_health : HealthChecker → List ManagedProcess → List (ManagedProcess × Bool)
with_health hc [] = []
with_health hc (p ∷ ps) = (p, shown_healthy hc p) ∷ with_health hc ps

-- The pieces between the slashes, `strings.Split(s, "/")`, with the current one given.
split_slash : GoString → GoString → List GoString
split_slash piece [] = piece ∷ []
split_slash piece (b ∷ s) =
    let next = piece ∷ split_slash [] s in
    let same = split_slash (piece ++ (b ∷ [])) s in if b == b'/' then next else same

-- A parameter that is a positive number, else the default.
positive_or : ℕ → Option ℤ → ℕ
positive_or default none = default
positive_or default (some z) = if ltb 0 (pos_part z) then pos_part z else default

unfoldable pub limit_of : ℕ → GoString → ℕ
unfolding positive_or
limit_of default text = if str_eq text [] then default else positive_or default (atoi text)

module _ {F : Type 0} ⦃f : Float64 F⦄ where
  -- From the route's load balancer on. `registered` is the state with the process in it.
  added_backend : Api F → GoString → Option (Proxy F) → Outside F → GoString → List Call × Api F
  added_backend registered url none o route =
      (http_error (lit "route " ++ (o.quote route ++ lit " not found")) 400, registered)
  added_backend registered url (some proxy) o route = (
    write_header 201 ∷ [],
    record registered { proxy = proxy; hc = Health.add_backend registered.hc url },
  )

  unfoldable pub register_backend : Api F → AddRequest → Outside F → List Call × Api F
  unfolding added_backend
  register_backend api req o =
      let url = backend_url req.port in
      if str_eq req.route []
      then added_backend api url (some api.proxy) o req.route
      else added_backend api url (Router.add_backend api.proxy req.route url) o req.route

  added_process : Api F → AddRequest → Outside F → Outcome → Option Failure → List Call × Api F
  added_process api req o out none = register_backend (record api { pm = out.manager }) req o
  added_process api req o out (some e) = (http_error (failure_text req.id o.os_error e) 409, api)

  unfoldable pub add_process : Api F → AddRequest → Outside F → List Call × Api F
  unfolding added_process
  add_process api req o =
      let out = add api.pm req.id req.command req.args req.port in
      added_process api req o out out.error

  post_process : Outside F → GoString ⊎ AddRequest → Api F → List Call × Api F
  post_process o (inl message) api = (http_error message 400, api)
  post_process o (inr req) api = add_process api req o

  unfoldable pub handle_processes : Outside F → Request → Api F → List Call × Api F
  unfolding post_process
  handle_processes o r api =
      if str_eq r.method (lit "GET")
      then (reply o (processes (with_health api.hc (list api.pm))), api)
      else if str_eq r.method (lit "POST")
      then post_process o o.body api
      else (not_allowed, api)

  logs_reply : Outside F → GoString → Option (List GoString) → List Call
  logs_reply o id none = http_error (failure_text id o.os_error not_found) 404
  logs_reply o id (some output) = reply o (lines output)

  answer_of : Outside F → GoString → Option Failure → List Call
  answer_of o id none = write_header 200 ∷ []
  answer_of o id (some e) = http_error (failure_text id o.os_error e) 500

  -- What `Start` or `Stop` makes of the components, its hook included.
  unfoldable pub acted : Outside F → GoString → Api F → Outcome → List Call × Api F
  unfolding answer_of
  acted o id api out = (
    answer_of o id out.error,
    record api { pm = out.manager; broker = broadcast_all o.encode_process out.events api.broker },
  )

  act_on_process : Outside F → Request → Api F → GoString → GoString → List Call × Api F
  unfolding logs_reply
  act_on_process o r api id action =
      if str_eq action (lit "logs") && str_eq r.method (lit "GET")
      then (logs_reply o id (Process.logs api.pm id (limit_of 100 (query r (lit "lines")))), api)
      else if not (str_eq r.method (lit "POST"))
      then (not_allowed, api)
      else if str_eq action (lit "start")
      then acted o id api (start api.pm id o.command o.launch)
      else if str_eq action (lit "stop")
      then acted o id api (stop api.pm id)
      else (http_error (lit "Unknown action") 400, api)

  -- The handler with the path's parts.
  act_on : Outside F → Request → Api F → List GoString → List Call × Api F
  unfolding act_on_process
  act_on o r api (id ∷ action ∷ []) = act_on_process o r api id action
  act_on o r api _ = (http_error (lit "Invalid path") 400, api)

  unfoldable pub handle_process_action : Outside F → Request → Api F → List Call × Api F
  unfolding act_on split_slash
  handle_process_action o r api =
      act_on o r api (split_slash [] (trim_prefix r.path (lit "/processes/")))
