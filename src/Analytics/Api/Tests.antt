-- ===== src/Analytics/Api/Tests.antt =====
-- Runs of internal/analytics/api.go at concrete inputs.
use microgate.Base.{
  ℕ, ◌-◌, ◌*◌, ◌≡◌, refl, none, List, [], ◌∷◌, lit, GoString, length, keep, arith, str_eq,
  trim_prefix, has_prefix, drop_prefix,
}
use microgate.Base.Int.{pos}
use microgate.Base.Floats.{Milli, milli_float}
use microgate.Http.{Request}
use microgate.Analytics.State.{new_analyzer, minute, hour}
use microgate.Analytics.Store.{TrafficEvent, get_buckets}
use microgate.Analytics.Store.Laws.{recorded}
use microgate.Analytics.Store.Reads.{counts_for}
use microgate.Analytics.Api.{
  AnalyticsApi, Payload, history, rooted, route_of, trim_suffix, points_of, reply,
  handle_route_history,
}
use microgate.Analytics.Api.Laws.{history_path, counted, handle_route_history_lem}

-- The history of a route "/" has no path: this one names the route "/history".
root_has_no_history : route_of (lit "/routes/history") ≡ lit "/history"
unfolding route_of trim_prefix trim_suffix rooted has_prefix drop_prefix str_eq
root_has_no_history = refl

abbrev event : TrafficEvent
event = record {
  route = lit "/users";
  backend = [];
  status = 200;
  latency = 5;
  bytes_in = pos 0;
  bytes_out = 20;
  client_ip = [];
  timestamp = 100 * minute;
}

abbrev events : List TrafficEvent
events = event ∷ record event { route = lit "/orders" } ∷ event ∷ []

abbrev api : AnalyticsApi Milli
api = record {
  analyzer = new_analyzer (record { interval = 0; window = 0; z_score_threshold = 0 }) 0;
  store = recorded 0 events;
  weights = none;
}

abbrev request : Request
request = record {
  method = lit "GET";
  path = history_path (lit "users");
  header = [];
  query = [];
  remote_addr = lit "10.0.0.1:99";
  content_length = pos 0;
  host = lit "localhost";
  request_id = none;
}

abbrev encode : Payload Milli → GoString
encode payload = lit "{}"

abbrev now : ℕ
now = 101 * minute

handle_route_history_lem_example :
    let route = rooted (lit "users") in
    let points = points_of {F = Milli} (get_buckets (recorded 0 events) route (now - hour) now) in
    (handle_route_history encode api request now
      ≡ reply encode (history route (now - hour) now points))
    × (counted points ≡ length (keep (counts_for route (now - hour) now) events))
handle_route_history_lem_example =
    handle_route_history_lem encode api request now 0 events (lit "users") refl refl (ground arith)
      refl
