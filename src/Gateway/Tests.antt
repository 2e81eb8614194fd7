-- ===== src/Gateway/Tests.antt =====
-- Runs of cmd/gateway/main.go at concrete inputs.
use microgate.Base.{
  inl, inr, refl, true, some, none, str_eq, [], ◌∷◌, lit, arith, lookup, length, ◌≤◌,
}
use microgate.Base.Int.{pos}
use microgate.Base.Floats.{Milli, milli_float}
use microgate.Config.{Config, Route}
use microgate.Http.{Request, write_header, get_header}
use microgate.Dashboard.Process.{start_error}
use microgate.TestBackend as TestBackend
use microgate.Gateway.{Gateway, World}
use microgate.Gateway.Init.{new_gateway}
use microgate.Gateway.Serve.{serve}
use microgate.Gateway.Background.{capture_round}
use microgate.Gateway.Reach.{Reach, starts, steps, serves, captures, Reach-IsValid}
use microgate.Dashboard.Process.Laws.{AllSound}
use microgate.Dashboard.Broker.Laws.{IsSafe}
use microgate.Gateway.Chain.{handler}
use microgate.Gateway.Chain.Blocked.{Lets, Stopped, refused_lem}
use microgate.Gateway.Chain.Logged.{Kept, logged_lem}
use microgate.Gateway.Chain.Verdict.{Verdict, result, verdict_lem}

abbrev route : Route
route = record {
  path = lit "/users";
  backend = lit "http://localhost:8081";
  backends = [];
  strategy = [];
}

abbrev config : Config Milli
config = record {
  port = pos 8080;
  routes = route ∷ [];
  rate_limit = record { max_tokens = 2000; refill_rate = 1000 };
  auth = record { api_keys = lit "k1" ∷ []; jwt_secret = lit "s" };
  circuit_breaker = record { threshold = 5; timeout = 30 };
  health_interval = 10;
  dashboard = record { enabled = true; log_capacity = 0; sse_buffer = 0 };
  processes = [];
  analytics = record {
    enabled = true;
    bucket_interval = [];
    retention = [];
    analyzer_interval = [];
  };
  adaptive_rate_limit = record {
    enabled = true;
    multiplier = 3000;
    min_limit = 10000;
    max_limit = 10000000;
    learning_period = [];
  };
  weighted_lb = record { enabled = true; rebalance_interval = [] };
}

-- Its backend is the one of cmd/testbackend.
abbrev world : World Milli
world = record {
  parses = λ url. true;
  intn = λ n. 0;
  rand = 0;
  exchange = λ backend r. (TestBackend.handler (λ a. a.path) (pos 8081) r, 5);
  jwt_parse = λ secret token. none;
  is_clean = λ r. true;
  redirect = λ r. write_header 301 ∷ [];
  prometheus = λ observed. [];
  files = λ r. [];
  encode_health = λ status hc. [];
  encode_analytics = λ payload. [];
  outside = record {
    body = inl [];
    encode = λ payload. [];
    encode_process = λ p. [];
    quote = λ s. s;
    launch = start_error;
    os_error = [];
    command = 0;
    now = 0;
    received = [];
  };
}

abbrev fresh : Gateway Milli
fresh = new_gateway (λ text. 0) (λ id. start_error) (λ p. []) config 1000 (lit "r1")

abbrev request : Request
request = record {
  method = lit "GET";
  path = lit "/users/7";
  header = [];
  query = [];
  remote_addr = lit "10.0.0.1:99";
  content_length = pos 0;
  host = lit "localhost";
  request_id = none;
}

-- The request carries no key and no token.
request_out : ¬ Lets world config request
unfolding get_header lookup
request_out (inl (given, known)) = given refl
request_out (inr (empty, (token, bearer, accepted))) = ground arith

refused_lem_example : Stopped fresh (handler world config request fresh)
refused_lem_example = refused_lem world config request fresh request_out

logged_lem_example : Kept request fresh (handler world config request fresh)
unfolding TestBackend.handler
logged_lem_example =
    logged_lem world config ((λ backend r. tt), λ r. ((omega arith), refl, tt)) request fresh

-- The request with a key that the configuration names.
abbrev known : Request
known = record request { header = (lit "X-API-Key", lit "k1") ∷ [] }

verdict_lem_example :
    Verdict world config
      (record known { request_id = some (lit "r1") })
      fresh
      (result (handler world config known fresh))
unfolding get_header lookup str_eq new_gateway TestBackend.handler
verdict_lem_example =
    verdict_lem world config ((λ backend r. tt), λ r. ((omega arith), refl, tt)) known fresh

abbrev post : Request
post = record request { method = lit "POST"; path = lit "/dashboard/api/processes/u1/start" }

-- A request, a POST to the dashboard and a round of the capture, from the start.
reached :
    Reach config
      (capture_round (λ log. []) (serve world config post (serve world config request fresh).1).1)
reached =
    steps
      (steps
        (steps (starts (λ text. 0) (λ id. start_error) (λ p. []) 1000 (lit "r1"))
          (serves world request))
        (serves world post))
      (captures (λ log. []))

Reach-IsValid_example :
    let s =
      capture_round (λ log. []) (serve world config post (serve world config request fresh).1).1 in
    AllSound s.api.pm
    × IsSafe s.api.broker
    × (length s.pending ≤ 256)
    × (length s.traffic.events ≤ 256)
Reach-IsValid_example =
    Reach-IsValid config
      (capture_round (λ log. []) (serve world config post (serve world config request fresh).1).1)
      reached
