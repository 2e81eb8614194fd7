-- ===== src/Capture/Laws.antt =====
-- internal/middleware/capture.go: the way of the logs through the channel into the store, and what is read then.
use mathlib.Core.List.{append-nil, append_assoc, reverse, reverse-append}
use mathlib.Core.Path.{subst}
use microgate.Base.{
  ℕ, ◌≡◌, ◌≤◌, ◌∙◌, refl, sym, ap, List, [], ◌∷◌, ◌++◌, if◌then◌else◌, ltb, length, take,
  Bool-cases, arith, inl, inr,
}
use microgate.Dashboard.LogStore.{RequestLog, new_log_store, add, recent}
use microgate.Dashboard.LogStore.Reads.{added, capacity_of, recent_lem}
use microgate.Capture.{Capture, new_capture, offer, work, work_from}

-- What happens to the channel: a request offers its log, or the goroutine takes one.
pub data Action : Type 0 where
  offers : RequestLog → Action
  works : Action

abbrev act : Action → Capture → Capture
act (offers log) c = offer c log
act works c = (work c).0

abbrev pub run : List Action → Capture → Capture
run [] c = c
run (a ∷ actions) c = run actions (act a c)

-- The logs that found room, in the order in which they were offered.
abbrev pub accepted : List Action → Capture → List RequestLog
accepted [] c = []
accepted (works ∷ actions) c = accepted actions (work c).0
accepted (offers log ∷ actions) c =
    let rest = accepted actions (offer c log) in
    if ltb (length c.logs) 256 then log ∷ rest else rest

-- The goroutine has worked off `recorded`, oldest first, and `logs` still waits.
abbrev after : ℕ → List RequestLog → List RequestLog → Capture
after capacity recorded logs = record { logs = logs; store = added capacity (reverse recorded) }

added-snoc :
    (capacity : ℕ) (recorded : List RequestLog) (log : RequestLog)
    → (add (added capacity (reverse recorded)) log).0
      ≡ added capacity (reverse (recorded ++ (log ∷ [])))
unfolding added
added-snoc capacity recorded log = ap (added capacity) (sym (reverse-append recorded (log ∷ [])))

-- As many rounds as logs wait.
abbrev pub rounds_for : List RequestLog → List Action
rounds_for [] = []
rounds_for (log ∷ logs) = works ∷ rounds_for logs

abbrev pub drain : Capture → Capture
drain c = run (rounds_for c.logs) c

drain-after :
    (capacity : ℕ) (recorded logs : List RequestLog)
    → drain (after capacity recorded logs) ≡ after capacity (recorded ++ logs) []
unfolding work work_from
drain-after capacity recorded [] = ap (λ l. after capacity l []) (sym (append-nil recorded))
drain-after capacity recorded (log ∷ logs) =
    ap (λ s. run (rounds_for logs) (record { logs = logs; store = s }))
      (added-snoc capacity recorded log)
    ∙ drain-after capacity (recorded ++ (log ∷ [])) logs
    ∙ ap (λ l. after capacity l []) (append_assoc recorded (log ∷ []) logs)

-- From `c`, with `recorded` worked off before, nothing that is accepted is lost or overtaken.
abbrev Drains : ℕ → List RequestLog → List Action → Capture → Type 0
Drains capacity recorded actions c =
    drain (run actions c) ≡ after capacity (recorded ++ (c.logs ++ accepted actions c)) []

run-Drains :
    (actions : List Action) (capacity : ℕ) (recorded logs : List RequestLog)
    → Drains capacity recorded actions (after capacity recorded logs)
unfolding work work_from offer
run-Drains [] capacity recorded logs =
    drain-after capacity recorded logs
    ∙ ap (λ l. after capacity (recorded ++ l) []) (sym (append-nil logs))
run-Drains (works ∷ actions) capacity recorded [] = run-Drains actions capacity recorded []
run-Drains (works ∷ actions) capacity recorded (log ∷ logs) =
    let worked : after capacity (recorded ++ (log ∷ [])) logs
        ≡ (work (after capacity recorded (log ∷ logs))).0 =
      ap (λ s. record { logs = logs; store = s }) (sym (added-snoc capacity recorded log)) in
    subst (Drains capacity (recorded ++ (log ∷ [])) actions) worked
      (run-Drains actions capacity (recorded ++ (log ∷ [])) logs)
    ∙ ap (λ l. after capacity l []) (append_assoc recorded (log ∷ []) _)
run-Drains (offers log ∷ actions) capacity recorded logs =
    let c = after capacity recorded logs in
    let longer = after capacity recorded (logs ++ (log ∷ [])) in
    elim (Bool-cases (ltb (length logs) 256)) [
      | inr full ↦
          let dropped : c ≡ offer c log = rw full refl in
          let found : accepted actions c ≡ accepted (offers log ∷ actions) c = rw full refl in
          subst
            (λ q.
              drain (run actions q) ≡ after capacity (recorded ++ (logs ++ accepted actions c)) [])
            dropped (run-Drains actions capacity recorded logs)
          ∙ ap (λ l. after capacity (recorded ++ (logs ++ l)) []) found
      | inl room ↦
          let taken : longer ≡ offer c log = rw room refl in
          let found : log ∷ accepted actions (offer c log) ≡ accepted (offers log ∷ actions) c =
            rw room refl in
          subst (Drains capacity recorded actions) taken
            (run-Drains actions capacity recorded (logs ++ (log ∷ [])))
          ∙ ap (λ l. after capacity (recorded ++ l) [])
              (ap (λ q. q.logs ++ accepted actions (offer c log)) (sym taken)
                ∙ append_assoc logs (log ∷ []) (accepted actions (offer c log))
                ∙ ap (λ l. logs ++ l) found)
    ]

-- However requests that offer their logs and the goroutine's rounds follow each other on a new log store, once
-- the goroutine has had as many more rounds as logs wait, none waits, and `Recent(n)` of the store
-- returns the accepted logs, the newest first: `n` of them, or as many as there are or the store has room for.
pub drain_lem :
    (actions : List Action) (capacity n : ℕ)
    → let c = new_capture (new_log_store capacity) in
      let drained = drain (run actions c) in
      (drained.logs ≡ [])
      × (recent drained.store n
          ≡ take n (take (capacity_of capacity) (reverse (accepted actions c))))
unfolding new_capture added
drain_lem actions capacity n =
    let flows = run-Drains actions capacity [] [] in
    let c = new_capture (new_log_store capacity) in
    (
      ap (λ d. d.logs) flows,
      ap (λ d. recent d.store n) flows ∙ recent_lem capacity n (reverse (accepted actions c)),
    )

-- A request never writes to the store itself.
pub offer-store : (c : Capture) (log : RequestLog) → (offer c log).store ≡ c.store
unfolding offer
offer-store c log = ground arith

pub offer-logs :
    (c : Capture) (log : RequestLog)
    → (offer c log).logs ≡ (if ltb (length c.logs) 256 then c.logs ++ (log ∷ []) else c.logs)
unfolding offer
offer-logs c log = ground arith

work_from-length :
    (c : Capture) (waiting : List RequestLog)
    → c.logs ≡ waiting
    → length (work_from c waiting).0.logs ≤ length waiting
unfolding work_from
work_from-length c [] e = rw e (omega arith)
work_from-length c (log ∷ rest) e = omega arith

-- A round never makes more logs wait.
pub work-length : (c : Capture) → length (work c).0.logs ≤ length c.logs
unfolding work
work-length c = work_from-length c c.logs refl
