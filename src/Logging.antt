-- ===== src/Logging.antt =====
-- internal/middleware/logging.go and internal/middleware/metrics.go: what a request leaves on the standard output,
-- and what it adds to the counters of prometheus.
use microgate.Base.{if◌then◌else◌, ℕ, ◌-◌, ◌/◌, ◌^◌, List, ◌∷◌, GoString}
use microgate.Http.{aborts, Request, Call, Middleware, Cell}
use microgate.Http.Address.{split_host}
use microgate.Http.Writer.{writer_status}
use microgate.Traffic.{get_request_id}

-- `timestamp` is the instant that the code formats.
pub record LogEntry : Type 0 where
  pub timestamp : ℕ
  pub request_id : GoString
  pub method : GoString
  pub path : GoString
  pub status : ℕ
  pub duration_ms : ℕ
  pub client_ip : GoString

unfoldable pub entry_of : Request → List Call → ℕ → ℕ → LogEntry
entry_of r calls start end = record {
  timestamp = start;
  request_id = get_request_id r;
  method = r.method;
  path = r.path;
  status = writer_status 200 calls;
  duration_ms = (end - start) / 10 ^ 6;
  client_ip = split_host r.remote_addr;
}

-- The cell is the lines of the output, the last written first.
unfoldable pub logging : {S : Type 0} → Cell S (List LogEntry) → (S → ℕ) → Middleware S
logging output clock next r s =
    let (calls, s') = next r s in
    if aborts calls
    then (calls, s')
    else (calls, output.put (entry_of r calls (clock s) (clock s') ∷ output.get s') s')

-- One increment of `httpRequestsTotal` and one observation of `httpRequestDuration`, in nanoseconds.
pub record Observation : Type 0 where
  pub method : GoString
  pub path : GoString
  pub status : ℕ
  pub duration : ℕ

unfoldable pub observation_of : Request → List Call → ℕ → ℕ → Observation
observation_of r calls start end = record {
  method = r.method;
  path = r.path;
  status = writer_status 200 calls;
  duration = end - start;
}

unfoldable pub metrics : {S : Type 0} → Cell S (List Observation) → (S → ℕ) → Middleware S
metrics observed clock next r s =
    let (calls, s') = next r s in
    if aborts calls
    then (calls, s')
    else (calls, observed.put (observation_of r calls (clock s) (clock s') ∷ observed.get s') s')
