-- ===== src/Capture/Tests.antt =====
-- Runs of internal/middleware/capture.go at concrete inputs.
use mathlib.Core.List.{reverse}
use microgate.Base.{◌≡◌, List, [], ◌∷◌, lit, take, GoString, ℕ}
use microgate.Dashboard.LogStore.{RequestLog, zero_log, new_log_store, recent}
use microgate.Capture.{new_capture}
use microgate.Capture.Laws.{Action, offers, works, run, accepted, drain, drain_lem}

abbrev log_of : GoString → ℕ → RequestLog
log_of id status = record zero_log { id = id; status = status }

abbrev actions : List Action
actions =
    works
    ∷ offers (log_of (lit "a") 200)
    ∷ offers (log_of (lit "b") 401)
    ∷ works
    ∷ offers (log_of (lit "c") 502)
    ∷ []

drain_lem_example :
    let c = new_capture (new_log_store 2) in
    let drained = drain (run actions c) in
    (drained.logs ≡ []) × (recent drained.store 5 ≡ take 5 (take 2 (reverse (accepted actions c))))
drain_lem_example = drain_lem actions 2 5
