-- ===== src/Dashboard/Process/Shutdown.antt =====
-- internal/dashboard/process.go: what `StopAll` leads to when the gateway shuts down.
use microgate.Base.{
  ℕ, Bool, true, false, Option, none, some, List, [], ◌∷◌, ◌++◌, ◌≡◌, ◌∙◌, sym, refl, ap, GoString,
  GoMap, ◌==◌, ◌&&◌, ◌||◌, lookup, lookup-insert, str_eq_iff, str_eq, arith, Bool-cases,
  Option-cases, inl, inr,
}
use microgate.Dashboard.Process.{
  is_running, ManagedProcess, ProcessManager, put, is_active, exited, exited_at, stop_all,
  cancel_of, cancel_all,
}
use microgate.Dashboard.Process.Laws.{has_value, Reach, next, exits, Reach-AllSound}

-- The goroutine of a process that waited for a command ends.
pub record End : Type 0 where
  pub id : GoString
  pub cmd : ℕ
  pub err : Bool
  pub by_signal : Bool

abbrev pub ended : ProcessManager → List End → ProcessManager
ended m [] = m
ended m (e ∷ es) = ended (exited m e.id e.cmd e.err e.by_signal).manager es

abbrev pub announces : List End → GoString → ℕ → Bool
announces [] id c = false
announces (e ∷ es) id c = (str_eq e.id id && (e.cmd == c)) || announces es id c

abbrev pub contains : List ℕ → ℕ → Bool
contains [] c = false
contains (x ∷ xs) c = (x == c) || contains xs c

-- Every command that a process holds has its end in the list.
abbrev pub Covers : List End → ProcessManager → Type 0
Covers es m =
    (id : GoString) (p : ManagedProcess) (c : ℕ)
    → lookup id m.processes ≡ some p
    → p.cmd ≡ some c
    → announces es id c ≡ true

-- Once a process holds no command, its end need not come.
put-Covers :
    (m : ProcessManager) (e : End) (es : List End) (q : ManagedProcess)
    → q.cmd ≡ none
    → Covers (e ∷ es) m
    → Covers es (put m e.id q)
put-Covers m e es q free covers id p c found holds =
    let at_id = sym (lookup-insert e.id id q m.processes) ∙ found in
    elim (Bool-cases (str_eq e.id id)) [
      | inl same ↦ ground (arith, at_id)
      | inr other ↦
          let before : lookup id m.processes ≡ some p = ground (arith, at_id) in
          ground (arith, covers id p c before holds)
    ]

exited_at-Covers :
    (m : ProcessManager) (e : End) (es : List End) (o : Option ManagedProcess)
    → lookup e.id m.processes ≡ o
    → Covers (e ∷ es) m
    → Covers es (exited_at m e.id e.cmd e.err e.by_signal o).manager
unfolding exited_at
exited_at-Covers m e es none at_id covers =
    λ id p c found holds. ground (arith, covers id p c found holds, str_eq_iff e.id id)
exited_at-Covers m e es (some q) at_id covers = elim (Bool-cases (is_active q e.cmd)) [
  | inl active ↦ rw active (put-Covers m e es _ refl covers)
  | inr other ↦
      rw other (λ id p c found holds. ground (arith, covers id p c found holds, str_eq_iff e.id id))
]

exits-Covers :
    (m : ProcessManager) (e : End) (es : List End)
    → Covers (e ∷ es) m
    → Covers es (exited m e.id e.cmd e.err e.by_signal).manager
unfolding exited
exits-Covers m e es covers = exited_at-Covers m e es (lookup e.id m.processes) refl covers

idle_after :
    (es : List End) (m : ProcessManager)
    → Reach m
    → Covers es m
    → (id : GoString) (p : ManagedProcess) → lookup id (ended m es).processes ≡ some p
    → is_running p.status ≡ false
idle_after [] m r covers = λ id p found.
    let (s, _) = Reach-AllSound m r id p found in
    elim (Option-cases p.cmd) [
      | inl free ↦ s.runs_command ∙ ap has_value free
      | inr (c, holds) ↦ let never : false ≡ true = covers id p c found holds in ground arith
    ]
idle_after (e ∷ es) m r covers =
    let ending = exits e.id e.cmd e.err e.by_signal in
    idle_after es _ (next r ending) (exits-Covers m e es covers)

contains-append : (xs ys : List ℕ) (c : ℕ) → contains ys c ≡ true → contains (xs ++ ys) c ≡ true
contains-append [] ys c h = h
contains-append (x ∷ xs) ys c h = ground (arith, contains-append xs ys c h)

cancel_all-contains :
    (m : GoMap ManagedProcess) (id : GoString) (p : ManagedProcess) (c : ℕ)
    → lookup id m ≡ some p
    → is_running p.status ≡ true
    → p.cancel ≡ some c
    → contains (cancel_all m) c ≡ true
unfolding lookup cancel_all
cancel_all-contains [] id p c found up cancels = ground arith
cancel_all-contains ((j, q) ∷ m) id p c found up cancels =
    let later : lookup id m ≡ some p → contains (cancel_all m) c ≡ true =
      λ found'. cancel_all-contains m id p c found' up cancels in
    elim (Bool-cases (str_eq j id)) [
      | inl same ↦ ground arith
      | inr other ↦ elim (Bool-cases (is_running q.status)) [
        | inl busy ↦ rw busy (contains-append (cancel_of q) (cancel_all m) c (later (ground arith)))
        | inr idle ↦ rw idle (later (ground arith))
      ]
    ]

put-stays :
    (m : ProcessManager) (id : GoString) (p' : ManagedProcess) (j : GoString) (p : ManagedProcess)
    → lookup j m.processes ≡ some p
    → (q : ManagedProcess) × (lookup j (put m id p').processes ≡ some q)
put-stays m id p' j p found = elim (Bool-cases (str_eq id j)) [
  | inl same ↦ (p', ground (arith, lookup-insert id j p' m.processes))
  | inr other ↦ (p, ground (arith, lookup-insert id j p' m.processes))
]

exited_at-stays :
    (m : ProcessManager) (e : End) (o : Option ManagedProcess) (id : GoString) (p : ManagedProcess)
    → lookup id m.processes ≡ some p
    → (q : ManagedProcess) × (lookup id
          (exited_at m e.id e.cmd e.err e.by_signal o).manager.processes
        ≡ some q)
unfolding exited_at
exited_at-stays m e none id p found = (p, found)
exited_at-stays m e (some q) id p found = elim (Bool-cases (is_active q e.cmd)) [
  | inl active ↦ rw active (put-stays m e.id _ id p found)
  | inr other ↦ rw other (p, found)
]

ended-stays :
    (es : List End) (m : ProcessManager) (id : GoString) (p : ManagedProcess)
    → lookup id m.processes ≡ some p
    → (q : ManagedProcess) × (lookup id (ended m es).processes ≡ some q)
unfolding exited
ended-stays [] m id p found = (p, found)
ended-stays (e ∷ es) m id p found =
    let (q, found') = exited_at-stays m e (lookup e.id m.processes) id p found in
    ended-stays es _ id q found'

-- However the calls, the lines read and the ends of commands followed each other before, `StopAll` cancels
-- the command of every running process; and when the ends of the commands that processes hold have come, in
-- any order, with or without others and whatever their exit codes are, that process is still there and runs no more.
pub stop_all_lem :
    (m : ProcessManager) (es : List End) (id : GoString) (p : ManagedProcess)
    → Reach m
    → Covers es m
    → lookup id m.processes ≡ some p
    → is_running p.status ≡ true
    → ((c : ℕ) × (p.cmd ≡ some c) × (contains (stop_all m) c ≡ true))
      × ((q : ManagedProcess) × (lookup id (ended m es).processes ≡ some q)
          × (is_running q.status ≡ false))
unfolding stop_all
stop_all_lem m es id p r covers found up =
    let (s, _) = Reach-AllSound m r id p found in
    let (q, found') = ended-stays es m id p found in
    let idle = idle_after es m r covers id q found' in
    elim (Option-cases p.cmd) [
      | inl free ↦
          let down : has_value p.cmd ≡ false = ap has_value free in ground (arith, s.runs_command)
      | inr (c, holds) ↦ (
        (c, holds, cancel_all-contains m.processes id p c found up (s.same_command ∙ holds)),
        (q, found', idle),
      )
    ]
