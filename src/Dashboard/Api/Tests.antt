-- ===== src/Dashboard/Api/Tests.antt =====
-- Runs of internal/dashboard/api.go at concrete inputs.
use microgate.Base.{
  ◌≡◌, inr, refl, none, some, List, [], ◌∷◌, lit, GoString, str_eq, keep, take, arith,
}
use microgate.Base.Int.{pos, negsuc, pos_part}
use microgate.Base.Decimal.{atoi, itoa, format_int, atoi-itoa}
use microgate.Base.Floats.{Milli, milli_float}
use microgate.Config.{Route}
use microgate.Http.{Request}
use microgate.Health.{new_health_checker}
use microgate.Proxy.Router.{new_proxy}
use microgate.Dashboard.Process.{new_process_manager, start_error}
use microgate.Dashboard.LogStore.{RequestLog, zero_log, new_log_store, matches}
use microgate.Dashboard.LogStore.Reads.{added, capacity_of}
use microgate.Dashboard.Broker.{new_broker}
use microgate.Dashboard.Api.{Api, new_api, AddRequest, Outside, backend_url}
use microgate.Dashboard.Api.Logs.{listed}
use microgate.Dashboard.Api.Logs.Laws.{listed_lem}
use microgate.Dashboard.Api.Mux.{handler}
use microgate.Dashboard.Api.Mux.Laws.{LeftAlone, handler-LeftAlone}

negative_number : atoi (lit "-12") ≡ some (negsuc 11)
unfolding atoi
negative_number = refl

no_number : atoi (lit "1a") ≡ none
unfolding atoi
no_number = refl

printed_port : backend_url (pos 8081) ≡ lit "http://localhost:8081"
unfolding backend_url format_int itoa
printed_port = refl

negative_port : backend_url (negsuc 0) ≡ lit "http://localhost:-1"
unfolding backend_url format_int itoa
negative_port = refl

port_read_back : atoi (itoa 8081) ≡ some (pos 8081)
port_read_back = atoi-itoa 8081 (omega arith)

abbrev route : Route
route = record {
  path = lit "/users";
  backend = lit "http://localhost:8081";
  backends = [];
  strategy = [];
}

abbrev api : Api Milli
api =
    new_api new_process_manager (new_health_checker (lit "http://localhost:8081" ∷ []) 0)
      (new_proxy (route ∷ [])) (new_log_store 2) new_broker

abbrev wanted : AddRequest
wanted = record {
  id = lit "u2";
  command = lit "node";
  args = [];
  port = pos 8082;
  route = lit "/users";
}

abbrev outside : Outside Milli
outside = record {
  body = inr wanted;
  encode = λ payload. lit "{}";
  encode_process = λ p. p.id;
  quote = λ s. s;
  launch = start_error;
  os_error = lit "no such file";
  command = 0;
  now = 7;
  received = [];
}

abbrev request_to : GoString → GoString → Request
request_to method path = record {
  method = method;
  path = path;
  header = [];
  query = [];
  remote_addr = lit "10.0.0.1:99";
  content_length = pos 0;
  host = lit "localhost";
  request_id = none;
}

handler-LeftAlone_example :
    LeftAlone
      (request_to (lit "GET") (lit "/stream"))
      api
      (handler outside (request_to (lit "GET") (lit "/stream")) api)
unfolding str_eq
handler-LeftAlone_example =
    handler-LeftAlone outside (request_to (lit "GET") (lit "/stream")) api refl

abbrev two_logs : List RequestLog
two_logs = record zero_log { status = 502 } ∷ record zero_log { status = 200 } ∷ []

listed_lem_example :
    listed (added 2 two_logs) 5 (pos 502) []
    ≡ take 5 (keep (matches (pos_part (pos 502)) []) (take (capacity_of 2) two_logs))
listed_lem_example = listed_lem 2 5 (pos 502) [] two_logs (omega arith)
