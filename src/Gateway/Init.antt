-- ===== src/Gateway/Init.antt =====
-- cmd/gateway/main.go: how the components are made and wired, and the shutdown.
pub mod Valid
use microgate.Base.{
  ℕ, ◌+◌, ◌*◌, true, ◌&&◌, Option, none, some, List, [], ◌∷◌, ◌++◌, if◌then◌else◌, leb, ◌==◌,
  length, GoString,
}
use microgate.Base.Floats.{Float64}
use microgate.Config.{Config, Route, ProcessConfig, get_backends}
use microgate.Analytics.State.{new_analyzer, second, hour}
use microgate.Analytics.Store.{new_memory_traffic_store}
use microgate.CircuitBreaker.{CircuitBreaker, new_circuit_breaker, set_analyzer}
use microgate.RateLimit.{new_rate_limiter}
use microgate.RateLimit.Adaptive.{new_adaptive_rate_limiter}
use microgate.Traffic.{new_traffic_recorder}
use microgate.Health.{new_health_checker}
use microgate.Proxy.Weighted.{new_weighted_load_balancer}
use microgate.Proxy.Router.{Proxy, weighted, new_proxy, set_route_selector}
use microgate.Dashboard.Process.{
  ManagedProcess, ProcessManager, Failure, Outcome, Launch, new_process_manager, add, start,
  stop_all,
}
use microgate.Dashboard.LogStore.{new_log_store}
use microgate.Dashboard.Broker.{new_broker}
use microgate.Dashboard.Api.{new_api, broadcast_all}
use microgate.Gateway.{Gateway}

backend_urls : List Route → List GoString
backend_urls [] = []
backend_urls (route ∷ rest) = get_backends route ++ backend_urls rest

route_prefixes : List Route → List GoString
route_prefixes [] = []
route_prefixes (route ∷ rest) = route.path ∷ route_prefixes rest

-- What the start of the configured processes comes to: the manager, the hook's calls and the number of commands.
pub record Launched : Type 0 where
  pub manager : ProcessManager
  pub events : List ManagedProcess
  pub commands : ℕ

-- The body of the loop for a process that could be added. An error is logged, and the loop goes on.
auto_start : (GoString → Launch) → ProcessConfig → Launched → Launched
auto_start launch p l =
    let out = start l.manager p.id l.commands (launch p.id) in
    if p.auto_start
    then record {
      manager = out.manager;
      events = l.events ++ out.events;
      commands = l.commands + 1;
    }
    else l

added_process : (GoString → Launch) → ProcessConfig → Launched → Outcome → Option Failure → Launched
unfolding auto_start
added_process launch p l out none = auto_start launch p (record l { manager = out.manager })
added_process launch p l out (some e) = l

unfoldable pub add_process : (GoString → Launch) → ProcessConfig → Launched → Launched
unfolding added_process
add_process launch p l =
    let out = add l.manager p.id p.command p.args p.port in added_process launch p l out out.error

unfoldable pub add_processes : (GoString → Launch) → List ProcessConfig → Launched → Launched
add_processes launch [] l = l
add_processes launch (p ∷ ps) l = add_processes launch ps (add_process launch p l)

-- The manager has its hook from the beginning.
unfoldable pub no_process : Launched
no_process = record {
  manager = record new_process_manager { has_hook = true };
  events = [];
  commands = 0;
}

module _ {F : Type 0} ⦃f : Float64 F⦄ where
  open f use {of_nat}

  set_weighted : ℕ → Route → Proxy F → Proxy F
  set_weighted interval route p =
      let backends = get_backends route in
      if leb (length backends) 1
      then p
      else set_route_selector p route.path (weighted (new_weighted_load_balancer backends interval))

  set_all_weighted : ℕ → List Route → Proxy F → Proxy F
  unfolding set_weighted
  set_all_weighted interval [] p = p
  set_all_weighted interval (route ∷ rest) p =
      set_all_weighted interval rest (set_weighted interval route p)

  proxy_of : (GoString → ℕ) → Config F → Proxy F
  unfolding set_all_weighted
  proxy_of parse_duration cfg =
      let p = new_proxy cfg.routes in
      if cfg.weighted_lb.enabled && cfg.analytics.enabled
      then set_all_weighted (parse_duration cfg.weighted_lb.rebalance_interval) cfg.routes p
      else p

  breaker_of : Config F → CircuitBreaker
  breaker_of cfg =
      let breaker =
        new_circuit_breaker cfg.circuit_breaker.threshold (cfg.circuit_breaker.timeout * second) in
      if cfg.analytics.enabled then set_analyzer breaker else breaker

  -- The state when the server starts to listen. `parse_duration` stands for `time.ParseDuration`, with 0 for an
  -- error and for a duration that is not positive.
  unfoldable pub new_gateway :
      (GoString → ℕ)
      → (GoString → Launch)
      → (ManagedProcess → GoString)
      → Config F
      → ℕ
      → GoString
      → Gateway F
  unfolding backend_urls route_prefixes proxy_of breaker_of
  new_gateway parse_duration launch encode_process cfg now random_id =
      let retention = parse_duration cfg.analytics.retention in
      let processes = add_processes launch cfg.processes no_process in
      let checker = new_health_checker (backend_urls cfg.routes) now in
      record {
        clock = now;
        random_id = random_id;
        api =
            new_api processes.manager (record checker { hooked = true })
              (proxy_of parse_duration cfg) (new_log_store 1000)
              (broadcast_all encode_process processes.events new_broker);
        pending = [];
        observed = [];
        output = [];
        traffic =
            new_traffic_recorder
              (new_memory_traffic_store (if retention == 0 then 48 * hour else retention))
              (route_prefixes cfg.routes);
        limiter = new_rate_limiter cfg.rate_limit.max_tokens cfg.rate_limit.refill_rate;
        adaptive = new_adaptive_rate_limiter (record {
          enabled = true;
          multiplier = cfg.adaptive_rate_limit.multiplier;
          min_limit = cfg.adaptive_rate_limit.min_limit;
          max_limit = cfg.adaptive_rate_limit.max_limit;
          learning_period = parse_duration cfg.adaptive_rate_limit.learning_period;
        });
        breaker = breaker_of cfg;
        analyzer =
            new_analyzer
              (record {
                interval = parse_duration cfg.analytics.analyzer_interval;
                window = hour;
                z_score_threshold = of_nat 3;
              })
              now;
      }

-- What the signal handler cancels before the server shuts down.
unfoldable pub shutdown : {F : Type 0} → Gateway F → List ℕ
shutdown s = stop_all s.api.pm
