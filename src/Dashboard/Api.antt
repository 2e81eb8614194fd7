-- ===== src/Dashboard/Api.antt =====
-- internal/dashboard/api.go: the state of the dashboard's API, and what its handlers share.
pub mod Processes
pub mod Logs
pub mod Mux
mod Tests
use microgate.Base.Int.{ℤ}
use microgate.Base.{
  ℕ, Bool, true, ◌⊎◌, Option, none, some, List, [], ◌∷◌, ◌++◌, GoString, GoMap, lit, lookup,
}
use microgate.Base.Decimal.{format_int}
use microgate.Http.{Request, Call, set_header, write, http_error, value_or_empty}
use microgate.Health.{HealthChecker}
use microgate.Proxy.Router.{Proxy}
use microgate.Dashboard.Process.{
  ManagedProcess, ProcessManager, Failure, already_exists, not_found, already_running, not_running,
  no_stdout_pipe, no_stderr_pipe, no_start, Launch,
}
use microgate.Dashboard.LogStore.{RequestLog, LogStore}
use microgate.Dashboard.LogStore.Metrics.{MetricsSnapshot}
use microgate.Dashboard.Broker.{Event, Broker, send}

-- The components that the API points to.
pub record Api (F : Type 0) : Type 0 where
  pub pm : ProcessManager
  pub hc : HealthChecker
  pub proxy : Proxy F
  pub store : LogStore
  pub broker : Broker

-- `NewAPI` hooks the store.
unfoldable pub new_api :
    {F : Type 0} → ProcessManager → HealthChecker → Proxy F → LogStore → Broker → Api F
new_api pm hc proxy store broker = record {
  pm = pm;
  hc = hc;
  proxy = proxy;
  store = record store { on_add = true };
  broker = broker;
}

-- The body of a POST to /processes.
pub record AddRequest : Type 0 where
  pub id : GoString
  pub command : GoString
  pub args : List GoString
  pub port : ℤ
  pub route : GoString

-- What is encoded as JSON: the values of the maps that the handlers build.
pub data Payload (F : Type 0) : Type 0 where
  processes : List (ManagedProcess × Bool) → Payload F
  lines : List GoString → Payload F
  logs : List RequestLog → Payload F
  log : RequestLog → Payload F
  routes : List GoString → Payload F
  metrics : MetricsSnapshot F → ℕ × ℕ → ℕ → Payload F

-- What one request meets outside of the program: the text of its body's decoding error or what the body says, the
-- encoding of a payload and of a process, Go's quoting `%q`, the operating system's answer to `Start` and its text,
-- the number of the command, the time, and what the connection receives if it asks for the stream.
pub record Outside (F : Type 0) : Type 0 where
  pub body : GoString ⊎ AddRequest
  pub encode : Payload F → GoString
  pub encode_process : ManagedProcess → GoString
  pub quote : GoString → GoString
  pub launch : Launch
  pub os_error : GoString
  pub command : ℕ
  pub now : ℕ
  pub received : List Event

-- The texts of the process manager's errors.
unfoldable pub failure_text : GoString → GoString → Failure → GoString
failure_text id os_error already_exists = lit "process with ID " ++ (id ++ lit " already exists")
failure_text id os_error not_found = lit "process with ID " ++ (id ++ lit " not found")
failure_text id os_error already_running = lit "process " ++ (id ++ lit " is already running")
failure_text id os_error not_running = lit "process " ++ (id ++ lit " is not running")
failure_text id os_error no_stdout_pipe = lit "failed to create stdout pipe: " ++ os_error
failure_text id os_error no_stderr_pipe = lit "failed to create stderr pipe: " ++ os_error
failure_text id os_error no_start = lit "failed to start process: " ++ os_error

-- `fmt.Sprintf("http://localhost:%d", port)`
unfoldable pub backend_url : ℤ → GoString
backend_url port = lit "http://localhost:" ++ format_int port

abbrev pub not_allowed : List Call
not_allowed = http_error (lit "Method not allowed") 405

-- A payload as the answer. `Encode` writes the text with a line end, which is part of `encode` here.
abbrev pub reply : {F : Type 0} → Outside F → Payload F → List Call
reply o payload =
    set_header (lit "Content-Type") (lit "application/json") ∷ write (o.encode payload) ∷ []

-- `r.URL.Query().Get(key)`
abbrev pub query : Request → GoString → GoString
query r key = value_or_empty (lookup key r.query)

-- The hook that main.go sets: each change of a process is sent to the broker.
unfoldable pub broadcast_all : (ManagedProcess → GoString) → List ManagedProcess → Broker → Broker
broadcast_all encode [] b = b
broadcast_all encode (p ∷ ps) b =
    broadcast_all encode ps (send b (record { type = lit "process"; json = encode p }))
