-- ===== src/Health/Tests.antt =====
-- Runs of internal/health/health.go at concrete inputs.
use microgate.Base.{
  ℕ, ◌≡◌, refl, true, false, Option, none, some, [], ◌∷◌, if◌then◌else◌, ◌==◌, GoString, lit,
  length, lookup, insert, str_eq,
}
use microgate.Http.Writer.{wire_status, wire_header}
use microgate.Health.{
  HealthChecker, new_health_checker, run_checks, check_one, is_healthy, count_healthy, handler,
}
use microgate.Health.Laws.{run_checks_lem, handler_lem, known, responds}

abbrev checker : HealthChecker
checker = new_health_checker (lit "a" ∷ lit "b" ∷ []) 0

abbrev probe : GoString → Option ℕ
probe url =
    if str_eq url (lit "a") then some 200 else if str_eq url (lit "b") then some 404 else none

one_change : (run_checks probe 5 (record checker { hooked = true })).1 ≡ (lit "b", false) ∷ []
unfolding run_checks check_one new_health_checker lookup insert str_eq
one_change = refl

run_checks_lem_example :
    is_healthy (run_checks probe 5 checker).0 (lit "b")
    ≡ (if known checker (lit "b") then responds (probe (lit "b")) else false)
run_checks_lem_example = run_checks_lem probe 5 checker (lit "b")

handler_lem_example :
    let calls = handler (λ status hc. status) checker in
    let up = count_healthy checker.backends == length checker.backends in
    (wire_status calls ≡ (if up then 200 else 503))
    × (wire_header calls (lit "Content-Type") none
        ≡ (if up then some (lit "application/json") else none))
handler_lem_example = handler_lem (λ status hc. status) checker
