-- ===== src/Dashboard/Api/Processes/Valid.antt =====
-- internal/dashboard/api.go: the handlers of processes keep the process manager and the broker well-formed.
use microgate.Base.{
  inl, inr, ◌⊎◌, Option, none, some, List, [], ◌∷◌, GoString, lit, str_eq, trim_prefix, in_branch,
  ◌&&◌, not,
}
use microgate.Base.Floats.{Float64}
use microgate.Http.{Request, Call}
use microgate.Proxy.Router.{Proxy}
use microgate.Dashboard.Process.{ManagedProcess, Failure, Outcome, add, start, stop}
use microgate.Dashboard.Process.Laws.{Reach, next, adds, starts, stops}
use microgate.Dashboard.Broker.{Broker}
use microgate.Dashboard.Broker.Laws.{IsSafe, send-IsSafe}
use microgate.Dashboard.Api.{Api, AddRequest, Outside, backend_url, broadcast_all}
use microgate.Dashboard.Api.Processes.{
  added_backend, register_backend, added_process, add_process, post_process, handle_processes,
  acted, act_on, act_on_process, split_slash, handle_process_action,
}

-- The process manager is one that its operations can make, and the broker is safe.
abbrev pub IsValid : {F : Type 0} → Api F → Type 0
IsValid api = Reach api.pm × IsSafe api.broker

pub broadcast_all-IsSafe :
    (encode : ManagedProcess → GoString) (ps : List ManagedProcess) (b : Broker)
    → IsSafe b
    → IsSafe (broadcast_all encode ps b)
unfolding broadcast_all
broadcast_all-IsSafe encode [] b h = h
broadcast_all-IsSafe encode (p ∷ ps) b h = broadcast_all-IsSafe encode ps _ (send-IsSafe b _ h)

module _ {F : Type 0} ⦃f : Float64 F⦄ where
  unfoldable pub Leaves : List Call × Api F → Type 0
  Leaves out = IsValid out.1

  pub same-Leaves : (calls : List Call) (api : Api F) → IsValid api → Leaves (calls, api)
  unfolding Leaves
  same-Leaves calls api h = h

  added_backend-Leaves :
      (api : Api F) (url : GoString) (found : Option (Proxy F)) (o : Outside F) (route : GoString)
      → IsValid api
      → Leaves (added_backend api url found o route)
  unfolding Leaves added_backend
  added_backend-Leaves api url none o route h = h
  added_backend-Leaves api url (some proxy) o route h = h

  added_process-Leaves :
      (api : Api F) (req : AddRequest) (o : Outside F) (out : Outcome) (e : Option Failure)
      → IsValid api
      → Reach out.manager
      → Leaves (added_process api req o out e)
  unfolding added_process register_backend
  added_process-Leaves api req o out none (_, safe) r =
      let registered = record api { pm = out.manager } in
      in_branch Leaves _
        (added_backend-Leaves registered (backend_url req.port) (some registered.proxy) o req.route
          (r, safe))
        (added_backend-Leaves registered (backend_url req.port) _ o req.route (r, safe))
  added_process-Leaves api req o out (some e) h r = same-Leaves _ api h

  post_process-Leaves :
      (o : Outside F) (body : GoString ⊎ AddRequest) (api : Api F)
      → IsValid api
      → Leaves (post_process o body api)
  unfolding Leaves post_process add_process
  post_process-Leaves o (inl message) api h = h
  post_process-Leaves o (inr req) api h =
      let out = add api.pm req.id req.command req.args req.port in
      added_process-Leaves api req o out out.error h
        (next h.0 (adds req.id req.command req.args req.port))

  acted-Leaves :
      (o : Outside F) (id : GoString) (api : Api F) (out : Outcome)
      → IsValid api
      → Reach out.manager
      → Leaves (acted o id api out)
  unfolding Leaves acted
  acted-Leaves o id api out (_, safe) r =
      (r, broadcast_all-IsSafe o.encode_process out.events api.broker safe)

  act_on_process-Leaves :
      (o : Outside F) (r : Request) (api : Api F) (id action : GoString)
      → IsValid api
      → Leaves (act_on_process o r api id action)
  unfolding act_on_process
  act_on_process-Leaves o r api id action h =
      let started = next h.0 (starts id o.command o.launch) in
      let stopped = next h.0 (stops id) in
      in_branch Leaves (str_eq action (lit "logs") && str_eq r.method (lit "GET"))
        (same-Leaves _ api h)
        (in_branch Leaves (not (str_eq r.method (lit "POST"))) (same-Leaves _ api h) (
          in_branch Leaves (str_eq action (lit "start"))
            (acted-Leaves o id api (start api.pm id o.command o.launch) h started)
            (in_branch Leaves (str_eq action (lit "stop"))
              (acted-Leaves o id api (stop api.pm id) h stopped) (same-Leaves _ api h))))

  act_on-Leaves :
      (o : Outside F) (r : Request) (api : Api F) (parts : List GoString)
      → IsValid api
      → Leaves (act_on o r api parts)
  unfolding act_on
  act_on-Leaves o r api [] h = same-Leaves _ api h
  act_on-Leaves o r api (id ∷ []) h = same-Leaves _ api h
  act_on-Leaves o r api (id ∷ action ∷ []) h = act_on_process-Leaves o r api id action h
  act_on-Leaves o r api (id ∷ action ∷ x ∷ parts) h = same-Leaves _ api h

  pub handle_processes-Leaves :
      (o : Outside F) (r : Request) (api : Api F)
      → IsValid api
      → Leaves (handle_processes o r api) × Leaves (handle_process_action o r api)
  unfolding handle_processes handle_process_action
  handle_processes-Leaves o r api h = (
    in_branch Leaves (str_eq r.method (lit "GET")) (same-Leaves _ api h) (
        in_branch Leaves (str_eq r.method (lit "POST")) (post_process-Leaves o o.body api h)
          (same-Leaves _ api h)),
    act_on-Leaves o r api (split_slash [] (trim_prefix r.path (lit "/processes/"))) h,
  )
