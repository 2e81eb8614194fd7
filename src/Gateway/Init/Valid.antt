-- ===== src/Gateway/Init/Valid.antt =====
-- cmd/gateway/main.go: the gateway starts well-formed.
use microgate.Base.{ℕ, true, Option, none, some, List, [], ◌∷◌, in_branch, GoString, arith}
use microgate.Base.Floats.{Float64}
use microgate.Config.{Config, ProcessConfig}
use microgate.Traffic.{new_traffic_recorder}
use microgate.Dashboard.Process.{ManagedProcess, Failure, Outcome, Launch, add}
use microgate.Dashboard.Process.Laws.{Reach, here, next, adds, starts, hooks}
use microgate.Dashboard.Broker.{new_broker}
use microgate.Dashboard.Broker.Laws.{IsSafe}
use microgate.Dashboard.Api.{new_api}
use microgate.Dashboard.Api.Processes.Valid.{broadcast_all-IsSafe}
use microgate.Gateway.Valid.{IsValid}
use microgate.Gateway.Init.{
  Launched, auto_start, added_process, add_process, add_processes, no_process, new_gateway,
}

abbrev Made : Launched → Type 0
Made l = Reach l.manager

auto_start-Made :
    (launch : GoString → Launch) (p : ProcessConfig) (l : Launched)
    → Made l
    → Made (auto_start launch p l)
unfolding auto_start
auto_start-Made launch p l h =
    in_branch Made p.auto_start (next h (starts p.id l.commands (launch p.id))) h

added_process-Made :
    (launch : GoString → Launch) (p : ProcessConfig) (l : Launched) (out : Outcome)
    (e : Option Failure)
    → Made l
    → Reach out.manager
    → Made (added_process launch p l out e)
unfolding added_process
added_process-Made launch p l out none h r =
    auto_start-Made launch p (record l { manager = out.manager }) r
added_process-Made launch p l out (some e) h r = h

add_processes-Made :
    (launch : GoString → Launch) (ps : List ProcessConfig) (l : Launched)
    → Made l
    → Made (add_processes launch ps l)
unfolding add_processes add_process
add_processes-Made launch [] l h = h
add_processes-Made launch (p ∷ ps) l h =
    let out = add l.manager p.id p.command p.args p.port in
    add_processes-Made launch ps (add_process launch p l)
      (added_process-Made launch p l out out.error h (next h (adds p.id p.command p.args p.port)))

pub new_broker-IsSafe : IsSafe new_broker
unfolding new_broker
new_broker-IsSafe = record { open_clients = tt; bounded = omega arith }

module _ {F : Type 0} ⦃f : Float64 F⦄ where
  pub new_gateway-IsValid :
      (parse_duration : GoString → ℕ) (launch : GoString → Launch)
      (encode_process : ManagedProcess → GoString) (cfg : Config F) (now : ℕ) (random_id : GoString)
      → IsValid (new_gateway parse_duration launch encode_process cfg now random_id)
  unfolding new_gateway new_api no_process new_traffic_recorder
  new_gateway-IsValid parse_duration launch encode_process cfg now random_id =
      let started = add_processes-Made launch cfg.processes no_process (next here (hooks true)) in
      (
        (started, broadcast_all-IsSafe encode_process _ new_broker new_broker-IsSafe),
        omega arith,
        omega arith,
      )
