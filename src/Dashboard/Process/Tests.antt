-- ===== src/Dashboard/Process/Tests.antt =====
-- Runs of internal/dashboard/process.go at concrete inputs.
use microgate.Base.Int.{pos}
use microgate.Base.{
  ℕ, List, ◌≡◌, refl, true, false, none, some, [], ◌∷◌, GoString, lit, lookup, insert, str_eq,
  arith,
}
use microgate.Dashboard.Process.Lines.{written}
use microgate.Dashboard.Process.{
  running, crashed, ManagedProcess, ProcessManager, launched, new_process_manager, add, start,
  exited, stop, unchanged, stop_all, is_running,
}
use microgate.Dashboard.Process.Stop.{stop_lem}
use microgate.Dashboard.Process.Shutdown.{End, Covers, ended, contains, stop_all_lem}
use microgate.Dashboard.Process.Laws.{
  IsSound, Reach, here, next, adds, starts, hooks, Reach-AllSound,
}

abbrev name : GoString
name = lit "api"

abbrev empty : ProcessManager
empty = record new_process_manager { has_hook = true }

abbrev registered : ProcessManager
registered = (add empty name (lit "go") [] (pos 9001)).manager

abbrev started : ProcessManager
started = (start registered name 7 (launched 400 50)).manager

abbrev process : ManagedProcess
process = record {
  id = name;
  command = lit "go";
  args = [];
  port = pos 9001;
  status = running;
  pid = 400;
  started_at = some 50;
  cmd = some 7;
  cancel = some 7;
  output = some (written 200 []);
}

found : lookup name started.processes ≡ some process
unfolding new_process_manager add start lookup insert str_eq
found = refl

is_reached : Reach started
is_reached =
    next (next (next here (hooks true)) (adds name (lit "go") [] (pos 9001)))
      (starts name 7 (launched 400 50))

Reach-AllSound_example : IsSound process × (process.id ≡ name)
Reach-AllSound_example = Reach-AllSound started is_reached name process found

-- A command that fails is a crash, and the hook is told.
crash_reported :
    (exited started name 7 true false).events
    ≡ record process { status = crashed; cmd = none; cancel = none; pid = 0; started_at = none }
      ∷ []
unfolding new_process_manager add start exited lookup insert str_eq
crash_reported = refl

stop_lem_example :
    let stopped_one = stop started name in
    let m' = stopped_one.manager in
    let again = start m' name 8 (launched 401 60) in
    (stopped_one.error ≡ none)
    × (stopped_one.cancelled ≡ 7 ∷ [])
    × (stopped_one.events ≡ [])
    × (exited m' name 7 true true ≡ unchanged m')
    × (again.error ≡ none)
    × (exited again.manager name 7 true true ≡ unchanged again.manager)
stop_lem_example =
    stop_lem started name process 7 found (Reach-AllSound started is_reached name process found).0
      refl true true 8 401 60 (λ e. omega arith)

-- The command is killed by a signal.
abbrev killed : List End
killed = record { id = name; cmd = 7; err = true; by_signal = true } ∷ []

killed-Covers : Covers killed started
unfolding new_process_manager add start lookup insert str_eq
killed-Covers id p c at holds = ground arith

stop_all_lem_example :
    ((c : ℕ) × (process.cmd ≡ some c) × (contains (stop_all started) c ≡ true))
    × ((q : ManagedProcess) × (lookup name (ended started killed).processes ≡ some q)
        × (is_running q.status ≡ false))
stop_all_lem_example = stop_all_lem started killed name process is_reached killed-Covers found refl
