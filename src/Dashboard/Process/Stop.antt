-- ===== src/Dashboard/Process/Stop.antt =====
-- internal/dashboard/process.go: what becomes of a command that was stopped.
use microgate.Base.{
  ℕ, Bool, true, false, none, some, [], ◌∷◌, ◌≡◌, ◌≢◌, ◌∙◌, refl, ap, GoString, lookup,
  lookup-insert, str_eq_refl, arith,
}
use microgate.Dashboard.Process.{
  stopped, is_running, ManagedProcess, ProcessManager, put, launched, launch_at, start, start_at,
  is_active, exited, exited_at, stop, stop_at, unchanged,
}
use microgate.Dashboard.Process.Laws.{IsSound, has_value}

lookup-put :
    (m : ProcessManager) (id : GoString) (p : ManagedProcess)
    → lookup id (put m id p).processes ≡ some p
lookup-put m id p = lookup-insert id id p m.processes ∙ rw (str_eq_refl id) refl

-- The end of a command that the process does not hold changes nothing.
ignored :
    (m : ProcessManager) (id : GoString) (p : ManagedProcess) (c : ℕ) (err by_signal : Bool)
    → lookup id m.processes ≡ some p
    → is_active p c ≡ false
    → exited m id c err by_signal ≡ unchanged m
unfolding exited exited_at
ignored m id p c err by_signal e other = rw (e, exited, exited_at, other) refl

start_lem :
    (m : ProcessManager) (id : GoString) (p : ManagedProcess) (c pid now : ℕ)
    → lookup id m.processes ≡ some p
    → is_running p.status ≡ false
    → let again = start m id c (launched pid now) in
      (again.error ≡ none)
      × ((q : ManagedProcess) × (lookup id again.manager.processes ≡ some q) × (q.cmd ≡ some c))
unfolding start start_at launch_at
start_lem m id p c pid now e idle =
    rw (e, start, start_at, idle) (refl, (_, lookup-put m id _, refl))

module _ (m : ProcessManager) (id : GoString) (p : ManagedProcess) (c : ℕ)
    (e : lookup id m.processes ≡ some p) (s : IsSound p) (holds : p.cmd ≡ some c) where
  stop-eq : stop m id ≡ record {
    error = none;
    manager =
        put m id
          (record p { status = stopped; cmd = none; cancel = none; pid = 0; started_at = none });
    cancelled = c ∷ [];
    events = [];
  }
  unfolding stop stop_at
  stop-eq =
      let up : is_running p.status ≡ true = s.runs_command ∙ ap has_value holds in
      let same : p.cancel ≡ some c = s.same_command ∙ holds in rw (e, stop, stop_at, up, same) refl

  -- `Stop` of a process that runs a command succeeds, cancels that command and tells the hook nothing. Nor
  -- does the command's end, when it comes: it changes nothing and the hook is not called, whether the
  -- process was not started again before or was, with another command.
  pub stop_lem :
      (err by_signal : Bool) (next_cmd pid now : ℕ)
      → next_cmd ≢ c
      → let stopped_one = stop m id in
        let m' = stopped_one.manager in
        let again = start m' id next_cmd (launched pid now) in
        (stopped_one.error ≡ none)
        × (stopped_one.cancelled ≡ c ∷ [])
        × (stopped_one.events ≡ [])
        × (exited m' id c err by_signal ≡ unchanged m')
        × (again.error ≡ none)
        × (exited again.manager id c err by_signal ≡ unchanged again.manager)
  stop_lem err by_signal next_cmd pid now ne =
      let p' = record p {
        status = stopped;
        cmd = none;
        cancel = none;
        pid = 0;
        started_at = none;
      } in
      let m' = put m id p' in
      let found = lookup-put m id p' in
      let (started, (q, found', cmd)) = start_lem m' id p' next_cmd pid now found refl in
      let other : is_active q c ≡ false = ground (arith, cmd) in
      rw stop-eq (
        refl,
        refl,
        refl,
        ignored m' id p' c err by_signal found refl,
        started,
        ignored (start m' id next_cmd (launched pid now)).manager id q c err by_signal found' other,
      )
