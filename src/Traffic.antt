-- ===== src/Traffic.antt =====
-- internal/middleware/traffic.go and internal/middleware/requestid.go. The channel of events is the list of
-- what waits in it, oldest first; `work` is one round of the goroutine that drains it.
pub mod Laws
pub mod Pipeline
pub mod Ids
mod Tests
use microgate.Base.{
  ℕ, ◌+◌, ◌-◌, ◌%◌, Bool, true, false, Option, none, some, List, [], ◌∷◌, ◌++◌, if◌then◌else◌, ltb,
  leb, ◌==◌, GoString, lit, str_eq, has_prefix, length,
}
use microgate.Http.{
  aborts, Request, Call, set_header, Handler, Middleware, Cell, get_header, value_or_empty,
}
use microgate.Http.Address.{split_host}
use microgate.Http.Writer.{capture_all, fresh_capture, captured_status, header_after}
use microgate.Analytics.Store.{TrafficEvent, MemoryTrafficStore, record_event}

pub record TrafficRecorder : Type 0 where
  pub events : List TrafficEvent
  pub store : MemoryTrafficStore
  pub routes : List GoString

-- `sort.Slice` by length, the longest first.
insert_by_length : GoString → List GoString → List GoString
insert_by_length s [] = s ∷ []
insert_by_length s (t ∷ ts) =
    if leb (length t) (length s) then s ∷ t ∷ ts else t ∷ insert_by_length s ts

sort_by_length : List GoString → List GoString
unfolding insert_by_length
sort_by_length [] = []
sort_by_length (s ∷ ss) = insert_by_length s (sort_by_length ss)

unfoldable pub new_traffic_recorder : MemoryTrafficStore → List GoString → TrafficRecorder
unfolding sort_by_length
new_traffic_recorder store prefixes = record {
  events = [];
  store = store;
  routes = sort_by_length prefixes;
}

-- `strings.HasPrefix(path, prefix+"/") || path == prefix`
abbrev pub is_under : GoString → GoString → Bool
is_under path prefix = if has_prefix path (prefix ++ lit "/") then true else str_eq path prefix

first_prefix : GoString → List GoString → GoString
first_prefix path [] = path
first_prefix path (prefix ∷ rest) = if is_under path prefix then prefix else first_prefix path rest

unfoldable pub normalize_route : TrafficRecorder → GoString → GoString
unfolding first_prefix
normalize_route tr path = first_prefix path tr.routes

-- The send that drops the event if the channel is full.
unfoldable pub offer : TrafficRecorder → TrafficEvent → TrafficRecorder
offer tr e = if ltb (length tr.events) 256 then record tr { events = tr.events ++ (e ∷ []) } else tr

unfoldable pub work : TrafficRecorder → TrafficRecorder
work tr = elim tr.events [
  | [] ↦ tr
  | e ∷ rest ↦ record tr { events = rest; store = record_event tr.store e }
]

-- The host of the client, or the whole address where there is none.
abbrev pub client_ip : Request → GoString
client_ip r =
    if str_eq (split_host r.remote_addr) [] then r.remote_addr else split_host r.remote_addr

-- The event of a request that was answered by the given calls, between the two instants.
unfoldable pub event_of : TrafficRecorder → Request → List Call → ℕ → ℕ → TrafficEvent
event_of tr r calls start end = record {
  route = normalize_route tr r.path;
  backend = header_after calls (lit "X-Proxy-Backend") [];
  status = captured_status calls;
  latency = end - start;
  bytes_in = r.content_length;
  bytes_out = (capture_all fresh_capture calls).0.bytes_written;
  client_ip = client_ip r;
  timestamp = start;
}

unfoldable pub middleware : {S : Type 0} → Cell S TrafficRecorder → (S → ℕ) → Middleware S
middleware tr clock next r s =
    let (calls, s') = next r s in
    let event = event_of (tr.get s') r calls (clock s) (clock s') in
    let sent = (capture_all fresh_capture calls).1 in
    if aborts calls then (sent, s') else (sent, tr.put (offer (tr.get s') event) s')

-- `RequestID`, with what `generateID` returns as an argument.
unfoldable pub request_id : {S : Type 0} → (S → GoString) → Middleware S
request_id generate_id next r s =
    let given = get_header r (lit "X-Request-ID") in
    let id = if str_eq given [] then generate_id s else given in
    let (calls, s') = next (record r { request_id = some id }) s in
    (set_header (lit "X-Request-ID") id ∷ calls, s')

unfoldable pub get_request_id : Request → GoString
get_request_id r = value_or_empty r.request_id
