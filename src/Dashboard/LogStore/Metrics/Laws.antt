-- ===== src/Dashboard/LogStore/Metrics/Laws.antt =====
-- internal/dashboard/store.go, `Metrics`: the counts are counts of stored logs.
use microgate.Base.{
  ltb, leb, not, ◌-◌, ℕ, ◌+◌, ◌*◌, ◌≡◌, Bool, ◌&&◌, List, [], ◌∷◌, if◌then◌else◌, ◌==◌, get_or,
  length,
}
use microgate.Analytics.State.{minute}
use microgate.Dashboard.LogStore.{RequestLog, LogStore}
use microgate.Dashboard.LogStore.Metrics.{Tally, bucket_count, within, is_error, bucket_of}

abbrev pub count_if : (RequestLog → Bool) → List RequestLog → ℕ
count_if p [] = 0
count_if p (log ∷ logs) = (if p log then 1 else 0) + count_if p logs

-- The log falls into the sparkline bucket `k`.
abbrev pub falls : ℕ → ℕ → RequestLog → Bool
falls now k log = within (30 * minute) now log && (bucket_of now log == k)

-- What the loop has added to a tally after the given logs, with `k` a sparkline bucket.
pub record Counted (now k : ℕ) (logs : List RequestLog) (t u : Tally) : Type 0 where
  pub recent : u.recent_count ≡ t.recent_count + count_if (within minute now) logs
  pub recent_failed :
      u.recent_errors
      ≡ t.recent_errors + count_if (λ log. within minute now log && is_error log) logs
  pub requests :
      get_or u.bucket_requests k 0 ≡ get_or t.bucket_requests k 0 + count_if (falls now k) logs
  pub averaged :
      get_or u.bucket_latency_count k 0
      ≡ get_or t.bucket_latency_count k 0 + count_if (falls now k) logs
  pub failed :
      get_or u.bucket_errors k 0
      ≡ get_or t.bucket_errors k 0 + count_if (λ log. falls now k log && is_error log) logs

record IsWide (t : Tally) : Type 0 where
  requests : length t.bucket_requests ≡ bucket_count
  averaged : length t.bucket_latency_count ≡ bucket_count
  failed : length t.bucket_errors ≡ bucket_count

-- The log has a time, and became less than `age` old.
abbrev pub younger : ℕ → ℕ → RequestLog → Bool
younger age now log = not (log.timestamp == 0) && ltb now (log.timestamp + age)

abbrev pub server_error : RequestLog → Bool
server_error log = ltb 499 log.status

-- The log's age has `29 - k` whole minutes. (A log from later than `now` has no age.)
abbrev pub in_minute : ℕ → ℕ → RequestLog → Bool
in_minute now k log =
    younger (30 * minute) now log
    && (leb ((29 - k) * minute) (now - log.timestamp)
        && ltb (now - log.timestamp) ((30 - k) * minute))
