-- ===== src/Dashboard/Process.antt =====
-- internal/dashboard/process.go: the life of managed backend processes. A process is never removed, so
-- the pointers that the goroutines of a process hold are its id. `cmd` and `cancel` are the number of the command
-- that was started: the operating system's answers and the numbers are arguments. The calls to the hook
-- are the list of the processes as it is shown them.
pub mod Lines
pub mod Laws
pub mod Stop
pub mod Shutdown
mod Tests
use microgate.Base.Int.{ℤ}
use microgate.Base.{
  ℕ, Bool, true, false, Option, none, some, List, [], ◌∷◌, ◌++◌, if◌then◌else◌, ◌==◌, GoString,
  GoMap, lookup, insert, str_eq,
}
use microgate.Dashboard.Process.Lines.{LineBuffer, new_line_buffer}
use microgate.Dashboard.Process.Lines as Lines

pub data ProcessStatus : Type 0 where
  running stopped crashed : ProcessStatus

abbrev pub is_running : ProcessStatus → Bool
is_running running = true
is_running stopped = false
is_running crashed = false

pub record ManagedProcess : Type 0 where
  pub id : GoString
  pub command : GoString
  pub args : List GoString
  pub port : ℤ
  pub status : ProcessStatus
  pub pid : ℕ
  pub started_at : Option ℕ
  pub cmd : Option ℕ
  pub cancel : Option ℕ
  pub output : Option LineBuffer

pub record ProcessManager : Type 0 where
  pub processes : GoMap ManagedProcess
  pub has_hook : Bool

pub data Failure : Type 0 where
  already_exists not_found already_running not_running : Failure
  no_stdout_pipe no_stderr_pipe no_start : Failure

-- How the operating system answers `Start`: an error at one of its three calls, or a process with its
-- pid and the time.
pub data Launch : Type 0 where
  stdout_error stderr_error start_error : Launch
  launched : ℕ → ℕ → Launch

-- What a call returns, the state after it, the commands it cancels and the calls to the hook.
pub record Outcome : Type 0 where
  pub error : Option Failure
  pub manager : ProcessManager
  pub cancelled : List ℕ
  pub events : List ManagedProcess

unfoldable pub new_process_manager : ProcessManager
new_process_manager = record { processes = []; has_hook = false }

abbrev pub put : ProcessManager → GoString → ManagedProcess → ProcessManager
put m id p = record m { processes = insert id p m.processes }

abbrev fail : ProcessManager → Failure → Outcome
fail m e = record { error = some e; manager = m; cancelled = []; events = [] }

-- `if m.OnStateChange != nil { m.OnStateChange(*p) }`
abbrev fire : ProcessManager → ManagedProcess → List ManagedProcess
fire m p = if m.has_hook then p ∷ [] else []

add_at : ProcessManager → GoString → GoString → List GoString → ℤ → Option ManagedProcess → Outcome
add_at m id command args port (some p) = fail m already_exists
add_at m id command args port none = record {
  error = none;
  manager = put m id (record {
    id = id;
    command = command;
    args = args;
    port = port;
    status = stopped;
    pid = 0;
    started_at = none;
    cmd = none;
    cancel = none;
    output = none;
  });
  cancelled = [];
  events = [];
}

unfoldable pub add : ProcessManager → GoString → GoString → List GoString → ℤ → Outcome
unfolding add_at
add m id command args port = add_at m id command args port (lookup id m.processes)

-- The output buffer is made once and survives a restart.
with_output : ManagedProcess → ManagedProcess
with_output p = elim p.output [
  | none ↦ record p { output = some (new_line_buffer 200) }
  | some b ↦ p
]

-- A command that does not get as far as `cmd.Start` or that fails there has its context cancelled.
launch_at : ProcessManager → GoString → ℕ → ManagedProcess → Launch → Outcome
launch_at m id c p stdout_error = record {
  error = some no_stdout_pipe;
  manager = put m id p;
  cancelled = c ∷ [];
  events = [];
}
launch_at m id c p stderr_error = record {
  error = some no_stderr_pipe;
  manager = put m id p;
  cancelled = c ∷ [];
  events = [];
}
launch_at m id c p start_error = record {
  error = some no_start;
  manager = put m id (record p { status = crashed });
  cancelled = c ∷ [];
  events = [];
}
launch_at m id c p (launched pid now) =
    let p' = record p {
      cmd = some c;
      cancel = some c;
      pid = pid;
      status = running;
      started_at = some now;
    } in
    record { error = none; manager = put m id p'; cancelled = []; events = fire m p' }

start_at : ProcessManager → GoString → ℕ → Launch → Option ManagedProcess → Outcome
unfolding with_output launch_at
start_at m id c answer none = fail m not_found
start_at m id c answer (some p) =
    if is_running p.status then fail m already_running else launch_at m id c (with_output p) answer

unfoldable pub start : ProcessManager → GoString → ℕ → Launch → Outcome
unfolding start_at
start m id c answer = start_at m id c answer (lookup id m.processes)

-- `proc.cmd == c`
abbrev pub is_active : ManagedProcess → ℕ → Bool
is_active p c = elim p.cmd [ none ↦ false | some k ↦ k == c ]

abbrev pub unchanged : ProcessManager → Outcome
unchanged m = record { error = none; manager = m; cancelled = []; events = [] }

exited_at : ProcessManager → GoString → ℕ → Bool → Bool → Option ManagedProcess → Outcome
exited_at m id c err by_signal none = unchanged m
exited_at m id c err by_signal (some p) =
    let p' = record p {
      cmd = none;
      cancel = none;
      pid = 0;
      started_at = none;
      status = if err then (if by_signal then stopped else crashed) else stopped;
    } in
    if is_active p c
    then record { error = none; manager = put m id p'; cancelled = []; events = fire m p' }
    else unchanged m

-- The goroutine that waits for command `c` ends: `err` says that `Wait` returned an error, `by_signal`
-- that the exit code is -1.
unfoldable pub exited : ProcessManager → GoString → ℕ → Bool → Bool → Outcome
unfolding exited_at
exited m id c err by_signal = exited_at m id c err by_signal (lookup id m.processes)

abbrev cancel_of : ManagedProcess → List ℕ
cancel_of p = elim p.cancel [ none ↦ [] | some c ↦ c ∷ [] ]

stop_at : ProcessManager → GoString → Option ManagedProcess → Outcome
stop_at m id none = fail m not_found
stop_at m id (some p) =
    let p' = record p { status = stopped; cmd = none; cancel = none; pid = 0; started_at = none } in
    if is_running p.status
    then record { error = none; manager = put m id p'; cancelled = cancel_of p; events = [] }
    else fail m not_running

unfoldable pub stop : ProcessManager → GoString → Outcome
unfolding stop_at
stop m id = stop_at m id (lookup id m.processes)

scanned_at : ProcessManager → GoString → GoString → Option ManagedProcess → ProcessManager
scanned_at m id line none = m
scanned_at m id line (some p) = elim p.output [
  | none ↦ m
  | some b ↦ put m id (record p { output = some (Lines.add b line) })
]

-- One line that a scanner of a process reads.
unfoldable pub scanned : ProcessManager → GoString → GoString → ProcessManager
unfolding scanned_at
scanned m id line = scanned_at m id line (lookup id m.processes)

values : GoMap ManagedProcess → List ManagedProcess
values [] = []
values ((id, p) ∷ m) = p ∷ values m

unfoldable pub list : ProcessManager → List ManagedProcess
unfolding values
list m = values m.processes

-- `none` is the error of a process that is not there.
unfoldable pub logs : ProcessManager → GoString → ℕ → Option (List GoString)
logs m id lines = elim (lookup id m.processes) [
  | none ↦ none
  | some p ↦ elim p.output [ none ↦ some [] | some b ↦ some (Lines.recent b lines) ]
]

cancel_all : GoMap ManagedProcess → List ℕ
cancel_all [] = []
cancel_all ((id, p) ∷ m) = if is_running p.status then cancel_of p ++ cancel_all m else cancel_all m

-- The commands that `StopAll` cancels; it changes no process.
unfoldable pub stop_all : ProcessManager → List ℕ
unfolding cancel_all
stop_all m = cancel_all m.processes
