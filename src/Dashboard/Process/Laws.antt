-- ===== src/Dashboard/Process/Laws.antt =====
-- internal/dashboard/process.go: what holds of every process however the calls and the goroutines that
-- wait for commands interleave.
use microgate.Base.Int.{ℤ}
use microgate.Base.{
  ℕ, Bool, true, false, Option, none, some, List, [], ◌≡◌, ◌∙◌, refl, ap, GoString, lookup,
  lookup-insert, str_eq_iff, arith, Bool-cases, Option-cases, inl, inr,
}
use microgate.Dashboard.Process.{
  stopped, is_running, ManagedProcess, ProcessManager, new_process_manager, put, Launch, launched,
  already_exists, stdout_error, stderr_error, start_error, add, add_at, with_output, launch_at,
  start, start_at, is_active, exited, exited_at, stop, stop_at, scanned, scanned_at,
}

abbrev pub has_value : {A : Type 0} → Option A → Bool
has_value none = false
has_value (some x) = true

-- A process is running exactly while it has a command; then its context cancels that command and its
-- output is kept, else it has no pid and no start time.
pub record IsSound (p : ManagedProcess) : Type 0 where
  pub same_command : p.cancel ≡ p.cmd
  pub runs_command : is_running p.status ≡ has_value p.cmd
  pub no_pid : has_value p.cmd ≡ false → p.pid ≡ 0
  pub no_start_time : has_value p.cmd ≡ false → p.started_at ≡ none
  pub keeps_output : has_value p.cmd ≡ true → has_value p.output ≡ true

-- Every process of the manager is sound and stands under its id.
abbrev pub AllSound : ProcessManager → Type 0
AllSound m =
    (id : GoString) (p : ManagedProcess) → lookup id m.processes ≡ some p → IsSound p × (p.id ≡ id)

put-AllSound :
    (m : ProcessManager) (id : GoString) (p : ManagedProcess)
    → AllSound m
    → IsSound p
    → p.id ≡ id
    → AllSound (put m id p)
put-AllSound m id p h s own j q e =
    ground (arith, lookup-insert id j p m.processes, str_eq_iff id j, h j q)

-- The process that a call finds under `id`, if it finds one.
abbrev Found : GoString → Option ManagedProcess → Type 0
Found id none = Unit
Found id (some p) = IsSound p × (p.id ≡ id)

lookup-Found : (m : ProcessManager) (id : GoString) → AllSound m → Found id (lookup id m.processes)
lookup-Found m id h = elim (Option-cases (lookup id m.processes)) [
  | inl e ↦ rw e tt
  | inr (p, e) ↦ rw e (h id p e)
]

new_process-IsSound :
    (id command : GoString) (args : List GoString) (port : ℤ)
    → IsSound (record {
      id = id;
      command = command;
      args = args;
      port = port;
      status = stopped;
      pid = 0;
      started_at = none;
      cmd = none;
      cancel = none;
      output = none;
    })
new_process-IsSound id command args port = ground arith

with_output_lem :
    (p : ManagedProcess)
    → IsSound p
    → IsSound (with_output p)
      × (has_value (with_output p).output ≡ true)
      × ((with_output p).id ≡ p.id)
      × ((with_output p).cmd ≡ p.cmd)
      × ((with_output p).status ≡ p.status)
unfolding with_output
with_output_lem p s = ground arith

module _ (m : ProcessManager) (id : GoString) (h : AllSound m) where
  add_at-AllSound :
      (command : GoString) (args : List GoString) (port : ℤ) (o : Option ManagedProcess)
      → AllSound (add_at m id command args port o).manager
  unfolding add_at
  add_at-AllSound command args port none =
      put-AllSound m id _ h (new_process-IsSound id command args port) refl
  add_at-AllSound command args port (some p) = h

  launch_at-AllSound :
      (c : ℕ) (p : ManagedProcess) (answer : Launch)
      → IsSound p
      → p.id ≡ id
      → is_running p.status ≡ false
      → has_value p.output ≡ true
      → AllSound (launch_at m id c p answer).manager
  unfolding launch_at
  launch_at-AllSound c p stdout_error s own idle out = put-AllSound m id p h s own
  launch_at-AllSound c p stderr_error s own idle out = put-AllSound m id p h s own
  launch_at-AllSound c p start_error s own idle out = put-AllSound m id _ h (ground arith) own
  launch_at-AllSound c p (launched pid now) s own idle out =
      put-AllSound m id _ h (ground arith) own

  start_at-AllSound :
      (c : ℕ) (answer : Launch) (o : Option ManagedProcess)
      → Found id o
      → AllSound (start_at m id c answer o).manager
  unfolding start_at
  start_at-AllSound c answer none found = h
  start_at-AllSound c answer (some p) (s, own) = elim (Bool-cases (is_running p.status)) [
    | inl up ↦ rw up h
    | inr idle ↦
        let (s', out, own', _, status') = with_output_lem p s in
        rw idle (
          launch_at-AllSound c (with_output p) answer s' (own' ∙ own) (ap is_running status' ∙ idle)
            out)
  ]

  exited_at-AllSound :
      (c : ℕ) (err by_signal : Bool) (o : Option ManagedProcess)
      → Found id o
      → AllSound (exited_at m id c err by_signal o).manager
  unfolding exited_at
  exited_at-AllSound c err by_signal none found = h
  exited_at-AllSound c err by_signal (some p) (s, own) = elim (Bool-cases (is_active p c)) [
    | inl active ↦ rw active (put-AllSound m id _ h (ground arith) own)
    | inr other ↦ rw other h
  ]

  stop_at-AllSound : (o : Option ManagedProcess) → Found id o → AllSound (stop_at m id o).manager
  unfolding stop_at
  stop_at-AllSound none found = h
  stop_at-AllSound (some p) (s, own) = elim (Bool-cases (is_running p.status)) [
    | inl active ↦ rw active (put-AllSound m id _ h (ground arith) own)
    | inr other ↦ rw other h
  ]

  scanned_at-AllSound :
      (line : GoString) (o : Option ManagedProcess) → Found id o → AllSound (scanned_at m id line o)
  unfolding scanned_at
  scanned_at-AllSound line none found = h
  scanned_at-AllSound line (some p) (s, own) = elim (Option-cases p.output) [
    | inl e ↦ rw e h
    | inr (b, e) ↦ rw e (put-AllSound m id _ h (ground arith) own)
  ]

-- A call, or a goroutine that reads a line or sees a command end.
pub data Step (m : ProcessManager) : ProcessManager → Type 0 where
  adds :
      (id command : GoString) (args : List GoString) (port : ℤ)
      → Step m (add m id command args port).manager
  starts : (id : GoString) (c : ℕ) (answer : Launch) → Step m (start m id c answer).manager
  exits :
      (id : GoString) (c : ℕ) (err by_signal : Bool) → Step m (exited m id c err by_signal).manager
  stops : (id : GoString) → Step m (stop m id).manager
  scans : (id line : GoString) → Step m (scanned m id line)
  hooks : (has_hook : Bool) → Step m (record m { has_hook = has_hook })

pub data Reach : ProcessManager → Type 0 where
  here : Reach new_process_manager
  next : {m n : ProcessManager} → Reach m → Step m n → Reach n

Step-AllSound : (m n : ProcessManager) → AllSound m → Step m n → AllSound n
unfolding add start exited stop scanned
Step-AllSound m n h (adds id command args port) =
    add_at-AllSound m id h command args port (lookup id m.processes)
Step-AllSound m n h (starts id c answer) = start_at-AllSound m id h c answer _ (lookup-Found m id h)
Step-AllSound m n h (exits id c err by_signal) =
    exited_at-AllSound m id h c err by_signal _ (lookup-Found m id h)
Step-AllSound m n h (stops id) = stop_at-AllSound m id h _ (lookup-Found m id h)
Step-AllSound m n h (scans id line) = scanned_at-AllSound m id h line _ (lookup-Found m id h)
Step-AllSound m n h (hooks has_hook) = h

-- However the calls, the lines read and the ends of commands follow each other, every process of the
-- manager stands under its id, is running exactly while it holds a command, and then holds that command's
-- cancel function and an output buffer; else its pid and its start time are cleared.
pub Reach-AllSound :
    (m : ProcessManager)
    → Reach m
    → (id : GoString) (p : ManagedProcess) → lookup id m.processes ≡ some p
    → IsSound p × (p.id ≡ id)
unfolding new_process_manager lookup
Reach-AllSound m here id p e = ground arith
Reach-AllSound m (next {m = k} r s) id p e =
    Step-AllSound k m (λ j q. Reach-AllSound k r j q) s id p e

pub add-taken :
    (m : ProcessManager) (id command : GoString) (args : List GoString) (port : ℤ)
    (p : ManagedProcess)
    → lookup id m.processes ≡ some p
    → add m id command args port
      ≡ record { error = some already_exists; manager = m; cancelled = []; events = [] }
unfolding add add_at
add-taken m id command args port p e = rw (add, e) refl

-- A process as `Add` makes it.
abbrev pub made : GoString → GoString → List GoString → ℤ → ManagedProcess
made id command args port = record {
  id = id;
  command = command;
  args = args;
  port = port;
  status = stopped;
  pid = 0;
  started_at = none;
  cmd = none;
  cancel = none;
  output = none;
}

pub add-new :
    (m : ProcessManager) (id command : GoString) (args : List GoString) (port : ℤ)
    → lookup id m.processes ≡ none
    → add m id command args port ≡ record {
      error = none;
      manager = put m id (made id command args port);
      cancelled = [];
      events = [];
    }
unfolding add add_at
add-new m id command args port e = rw (add, e) refl
