-- ===== src/Analytics/Store/Tests.antt =====
-- Runs of internal/analytics/store.go at concrete inputs.
use microgate.Base.{
  ℕ, ◌+◌, ◌-◌, ◌*◌, ◌≡◌, ◌≢◌, refl, false, none, List, [], ◌∷◌, if◌then◌else◌, ltb, ◌==◌, lit,
  length, keep, str_eq,
}
use microgate.Base.Int.{pos}
use microgate.Analytics.State.{minute}
use microgate.Analytics.Store.{TrafficEvent, cleanup, minute_of}
use microgate.Analytics.Store.Laws.{bucket_at, recorded, history_lem, summary}
use microgate.Analytics.Store.Cleanup.{cleanup_lem, recorded-Distinct}
use microgate.Analytics.Store.Reads.{counts_for}

abbrev event : ℕ → ℕ → TrafficEvent
event status at = record {
  route = lit "/api";
  backend = lit "http://b";
  status = status;
  latency = 5;
  bytes_in = pos 10;
  bytes_out = 20;
  client_ip = [];
  timestamp = at;
}

-- Two events in one minute, one in the next but one.
abbrev events : List TrafficEvent
events = event 200 (3 * minute + 7) ∷ event 502 (minute + 9) ∷ event 200 (minute + 1) ∷ []

history_lem_example :
    let s = recorded 0 events in
    (bucket_at s.routes (lit "/api") minute
      ≡ summary
          (lit "/api")
          minute
          (keep (λ e. if str_eq e.route (lit "/api") then minute_of e == minute else false) events))
    × (lit "/api" ≢ []
        → bucket_at s.backends (lit "/api") minute
          ≡ summary (lit "/api") minute (
              keep
                (λ e. if str_eq e.backend (lit "/api") then minute_of e == minute else false)
                events))
history_lem_example = history_lem 0 events (lit "/api") minute

two_in_the_minute : length (keep (counts_for (lit "/api") minute (2 * minute)) events) ≡ 2
unfolding keep str_eq
two_in_the_minute = refl

cleanup_lem_example :
    let s = recorded minute events in
    let now = 4 * minute in
    let cutoff = now - s.retention in
    let s' = cleanup s now in
    (bucket_at s'.routes (lit "/api") minute
      ≡ (if ltb minute cutoff then none else bucket_at s.routes (lit "/api") minute))
    × (bucket_at s'.backends (lit "/api") minute
        ≡ (if ltb minute cutoff then none else bucket_at s.backends (lit "/api") minute))
cleanup_lem_example =
    let (d, b) = recorded-Distinct minute events in
    cleanup_lem (recorded minute events) (4 * minute) (lit "/api") minute d b
