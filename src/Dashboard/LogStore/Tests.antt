-- ===== src/Dashboard/LogStore/Tests.antt =====
-- Runs of internal/dashboard/store.go at concrete inputs.
use microgate.Base.{
  ℕ, ◌*◌, ◌≡◌, ◌↔◌, refl, true, [], ◌∷◌, lit, take, keep, has_prefix, str_eq, GoString,
}
use microgate.Analytics.State.{minute}
use microgate.Dashboard.Ring.{push, back}
use microgate.Dashboard.LogStore.{
  RequestLog, zero_log, LogStore, new_log_store, add, recent_from, recent, contains_string,
  contains_from, matches, search_from, search,
}
use microgate.Dashboard.LogStore.Reads.{added, recent_lem, search_lem, contains_string_iff, Occurs}

abbrev log_of : GoString → ℕ → ℕ → RequestLog
log_of id status t = record zero_log { id = id; status = status; timestamp = t; path = lit "/api" }

abbrev first : RequestLog
first = log_of (lit "1") 200 (1000 * minute)

abbrev second_log : RequestLog
second_log = log_of (lit "2") 502 (1001 * minute)

abbrev third : RequestLog
third = log_of (lit "3") 404 (1002 * minute)

abbrev two_slots : LogStore
two_slots = added 2 (third ∷ second_log ∷ first ∷ [])

wraps_round : recent two_slots 5 ≡ third ∷ second_log ∷ []
unfolding added new_log_store add push back recent recent_from
wraps_round = refl

found_by_status : search two_slots 0 502 (lit "ap") ≡ second_log ∷ []
unfolding added new_log_store add push back search search_from matches contains_string contains_from
    has_prefix str_eq
found_by_status = refl

recent_lem_example : recent two_slots 5 ≡ take 5 (take 2 (third ∷ second_log ∷ first ∷ []))
recent_lem_example = recent_lem 2 5 (third ∷ second_log ∷ first ∷ [])

search_lem_example :
    search two_slots 1 404 []
    ≡ take 1 (keep (matches 404 []) (take 2 (third ∷ second_log ∷ first ∷ [])))
search_lem_example = search_lem 2 1 404 [] (third ∷ second_log ∷ first ∷ [])

contains_string_iff_example :
    (contains_string (lit "/api/v1") (lit "pi") ≡ true) ↔ Occurs (lit "pi") (lit "/api/v1")
contains_string_iff_example = contains_string_iff (lit "/api/v1") (lit "pi")
