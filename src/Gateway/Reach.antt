-- ===== src/Gateway/Reach.antt =====
-- cmd/gateway/main.go: the gateway at work. Requests, the rounds of the goroutines, the ends of commands and of
-- streams, and time follow each other in any order.
use mathlib.Core.Path.{subst}
use microgate.Base.{ℕ, ◌≤◌, ◌≡◌, ◌∙◌, refl, sym, Bool, Option, none, some, GoString, length}
use microgate.Base.Floats.{Float64}
use microgate.Config.{Config}
use microgate.Http.{Request}
use microgate.Dashboard.Process.{ManagedProcess, Launch, exited, scanned}
use microgate.Dashboard.Process.Laws.{next, exits, scans, AllSound, Reach-AllSound}
use microgate.Dashboard.LogStore.{RequestLog}
use microgate.Dashboard.Broker.{Broker, unsubscribe, deliver, receive}
use microgate.Dashboard.Broker.Laws.{IsSafe, unsubscribe-IsSafe, deliver_at-IsSafe, receive-IsSafe}
use microgate.Dashboard.Api.{broadcast_all}
use microgate.Dashboard.Api.Processes.Valid.{broadcast_all-IsSafe}
use microgate.Gateway.{Gateway, World}
use microgate.Gateway.Valid.{IsValid, Leaves}
use microgate.Gateway.Init.{new_gateway}
use microgate.Gateway.Init.Valid.{new_gateway-IsValid}
use microgate.Gateway.Serve.{serve}
use microgate.Gateway.Serve.Valid.{serve-Leaves}
use microgate.Gateway.Background.{
  capture_round, traffic_round, health_round, analyzer_round, cleanup_round, rebalance_round,
  metrics_round,
}
use microgate.Gateway.Background.Valid.{
  capture_round-IsValid, traffic_round-IsValid, health_round-IsValid, metrics_round-IsValid,
  analysis-IsValid,
}

abbrev SafeAt : Option Broker → Type 0
SafeAt none = Unit
SafeAt (some b) = IsSafe b

module _ {F : Type 0} ⦃f : Float64 F⦄ where
  -- The gateway with another broker.
  abbrev pub with_broker : Gateway F → Broker → Gateway F
  with_broker s b = record s { api = record s.api { broker = b } }

  -- The goroutine that waits for command `c` ends, and its hook is called.
  unfoldable pub command_ends :
      (ManagedProcess → GoString) → Gateway F → GoString → ℕ → Bool → Bool → Gateway F
  command_ends encode s id c err by_signal =
      let out = exited s.api.pm id c err by_signal in
      record s {
        api = record s.api {
          pm = out.manager;
          broker = broadcast_all encode out.events s.api.broker;
        };
      }

  -- What one request meets outside of the program may differ from request to request.
  pub data Step (cfg : Config F) (s : Gateway F) : Gateway F → Type 0 where
    serves : (w : World F) (r : Request) → Step cfg s (serve w cfg r s).1
    captures : (encode : RequestLog → GoString) → Step cfg s (capture_round encode s)
    records_traffic : Step cfg s (traffic_round s)
    checks_health :
        (probe : GoString → Option ℕ) (encode : GoString × Bool → GoString)
        → Step cfg s (health_round probe encode s)
    analyzes : Step cfg s (analyzer_round s)
    cleans : Step cfg s (cleanup_round s)
    rebalances : Step cfg s (rebalance_round s)
    sends_metrics : (w : World F) → Step cfg s (metrics_round w s)
    delivers : (b : Broker) → deliver s.api.broker ≡ some b → Step cfg s (with_broker s b)
    leaves :
        (ch : ℕ) (b : Broker) → unsubscribe s.api.broker ch ≡ some b → Step cfg s (with_broker s b)
    receives : (ch : ℕ) → Step cfg s (with_broker s (receive s.api.broker ch).0)
    ends :
        (encode : ManagedProcess → GoString) (id : GoString) (c : ℕ) (err by_signal : Bool)
        → Step cfg s (command_ends encode s id c err by_signal)
    prints :
        (id line : GoString)
        → Step cfg s (record s { api = record s.api { pm = scanned s.api.pm id line } })
    time_passes :
        (now : ℕ) (random_id : GoString)
        → Step cfg s (record s { clock = now; random_id = random_id })

  pub data Reach (cfg : Config F) : Gateway F → Type 0 where
    starts :
        (parse_duration : GoString → ℕ) (launch : GoString → Launch)
        (encode_process : ManagedProcess → GoString) (now : ℕ) (random_id : GoString)
        → Reach cfg (new_gateway parse_duration launch encode_process cfg now random_id)
    steps : {s t : Gateway F} → Reach cfg s → Step cfg s t → Reach cfg t

  Step-IsValid : (cfg : Config F) (s t : Gateway F) → IsValid s → Step cfg s t → IsValid t
  unfolding Leaves command_ends
  Step-IsValid cfg s t h (serves w r) = serve-Leaves w cfg r s h
  Step-IsValid cfg s t h (captures encode) = capture_round-IsValid encode s h
  Step-IsValid cfg s t h records_traffic = traffic_round-IsValid s h
  Step-IsValid cfg s t h (checks_health probe encode) = health_round-IsValid probe encode s h
  Step-IsValid cfg s t h analyzes = (analysis-IsValid s h).0
  Step-IsValid cfg s t h cleans = (analysis-IsValid s h).1
  Step-IsValid cfg s t h rebalances = (analysis-IsValid s h).2
  Step-IsValid cfg s t h (sends_metrics w) = metrics_round-IsValid w s h
  Step-IsValid cfg s t ((reached, safe), logs, events) (delivers b e) =
      let (b', e', safe') = deliver_at-IsSafe s.api.broker s.api.broker.broadcast refl safe in
      ((reached, subst SafeAt (sym e' ∙ e) safe'), logs, events)
  Step-IsValid cfg s t ((reached, safe), logs, events) (leaves ch b e) =
      let (b', e', safe') = unsubscribe-IsSafe s.api.broker ch safe in
      ((reached, subst SafeAt (sym e' ∙ e) safe'), logs, events)
  Step-IsValid cfg s t ((reached, safe), logs, events) (receives ch) =
      ((reached, receive-IsSafe s.api.broker ch safe), logs, events)
  Step-IsValid cfg s t ((reached, safe), logs, events) (ends encode id c err by_signal) =
      let out = exited s.api.pm id c err by_signal in
      (
        (
          next reached (exits id c err by_signal),
          broadcast_all-IsSafe encode out.events s.api.broker safe,
        ),
        logs,
        events,
      )
  Step-IsValid cfg s t ((reached, safe), logs, events) (prints id line) =
      ((next reached (scans id line), safe), logs, events)
  Step-IsValid cfg s t h (time_passes now random_id) = h

  reached-IsValid : (cfg : Config F) (s : Gateway F) → Reach cfg s → IsValid s
  reached-IsValid cfg s (starts parse_duration launch encode_process now random_id) =
      new_gateway-IsValid parse_duration launch encode_process cfg now random_id
  reached-IsValid cfg s (steps {s = k} r step) = Step-IsValid cfg k s (reached-IsValid cfg k r) step

  -- Whatever the configuration, the requests and their order with the goroutines' rounds, at any time every process
  -- of the gateway is running exactly while it holds a command, and stands under its id; the broker's clients
  -- are open, so that no send panics; and no more than 256 request logs and 256 traffic events wait.
  pub Reach-IsValid :
      (cfg : Config F) (s : Gateway F)
      → Reach cfg s
      → AllSound s.api.pm
        × IsSafe s.api.broker
        × (length s.pending ≤ 256)
        × (length s.traffic.events ≤ 256)
  Reach-IsValid cfg s r =
      let ((reached, safe), logs, events) = reached-IsValid cfg s r in
      (λ id p e. Reach-AllSound s.api.pm reached id p e, safe, logs, events)
