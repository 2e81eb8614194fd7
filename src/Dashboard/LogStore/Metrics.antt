-- ===== src/Dashboard/LogStore/Metrics.antt =====
-- internal/dashboard/store.go, `Metrics`: one pass over the stored logs. Counts held in a float64
-- are integers far below 2 ^ 53, and are natural numbers here; only the averages divide.
pub mod Laws
use microgate.Base.{
  ℕ, zero, suc, ◌+◌, ◌-◌, ◌*◌, ◌/◌, ◌^◌, ◌≤◌, ◌<◌, ◌≡◌, refl, Bool, true, false, not, ◌&&◌, List,
  [], ◌∷◌, if◌then◌else◌, ltb, leb, ◌==◌, get_or, set, length, length-set, replicate, arith,
  Bool-cases, inl, inr, ap, ◌∙◌,
}
use microgate.Base.Floats.{Float64}
use microgate.Analytics.State.{second, minute}
use microgate.Dashboard.LogStore.{RequestLog, LogStore, entry}

-- The local variables of the loop.
pub record Tally : Type 0 where
  pub recent_count : ℕ
  pub recent_errors : ℕ
  pub recent_latency_sum : ℕ
  pub bucket_requests : List ℕ
  pub bucket_latency_sum : List ℕ
  pub bucket_latency_count : List ℕ
  pub bucket_errors : List ℕ

abbrev pub bucket_count : ℕ
bucket_count = 30

abbrev pub zeros : List ℕ
zeros = replicate bucket_count 0

abbrev pub no_tally : Tally
no_tally = record {
  recent_count = 0;
  recent_errors = 0;
  recent_latency_sum = 0;
  bucket_requests = zeros;
  bucket_latency_sum = zeros;
  bucket_latency_count = zeros;
  bucket_errors = zeros;
}

-- `xs[i] += n`
abbrev pub bump : List ℕ → ℕ → ℕ → List ℕ
bump xs i n = set xs i (get_or xs i 0 + n)

abbrev pub milliseconds : ℕ → ℕ
milliseconds d = d / 10 ^ 6

-- Whether the log has a timestamp that is later than `age` ago.
abbrev pub within : ℕ → ℕ → RequestLog → Bool
within age now log = not (log.timestamp == 0) && ltb (now - age) log.timestamp

abbrev pub is_error : RequestLog → Bool
is_error log = leb 500 log.status

-- The bucket of a log: 29 is the newest minute. (A timestamp later than `now` counts as `now`.)
unfoldable pub bucket_of : ℕ → RequestLog → ℕ
bucket_of now log =
    let bucket = (now - log.timestamp) / minute in
    let clipped = if leb bucket_count bucket then bucket_count - 1 else bucket in
    bucket_count - 1 - clipped

unfoldable pub tally_summary : ℕ → RequestLog → Tally → Tally
tally_summary now log t =
    if within minute now log
    then record t {
      recent_count = t.recent_count + 1;
      recent_latency_sum = t.recent_latency_sum + log.latency;
      recent_errors = if is_error log then t.recent_errors + 1 else t.recent_errors;
    }
    else t

unfoldable pub tally_sparkline : ℕ → RequestLog → Tally → Tally
tally_sparkline now log t =
    let bucket = bucket_of now log in
    if within (30 * minute) now log
    then record t {
      bucket_requests = bump t.bucket_requests bucket 1;
      bucket_latency_sum = bump t.bucket_latency_sum bucket (milliseconds log.latency);
      bucket_latency_count = bump t.bucket_latency_count bucket 1;
      bucket_errors = if is_error log then bump t.bucket_errors bucket 1 else t.bucket_errors;
    }
    else t

-- The loop over the entries, newest first.
unfoldable pub tally_from : LogStore → ℕ → ℕ → ℕ → Tally → Tally
tally_from s now zero i t = t
tally_from s now (suc rounds) i t =
    let log = entry s i in
    tally_from s now rounds (i + 1) (tally_sparkline now log (tally_summary now log t))

pub record SparklineData (F : Type 0) : Type 0 where
  pub requests : List F
  pub latency : List F
  pub errors : List F

pub record MetricsSnapshot (F : Type 0) : Type 0 where
  pub requests_per_minute : ℕ
  pub avg_latency_ms : ℕ
  pub error_rate : F
  pub sparklines : SparklineData F

module _ {F : Type 0} ⦃f : Float64 F⦄ where
  open f use {div, of_nat}

  averages : List ℕ → List ℕ → List F
  averages (s ∷ sums) (n ∷ counts) =
      (if ltb 0 n then div (of_nat s) (of_nat n) else of_nat 0) ∷ averages sums counts
  averages _ _ = []

  as_floats : List ℕ → List F
  as_floats [] = []
  as_floats (n ∷ ns) = of_nat n ∷ as_floats ns

  unfoldable pub metrics : LogStore → ℕ → MetricsSnapshot F
  unfolding averages as_floats
  metrics s now =
      let t = tally_from s now s.ring.count 0 no_tally in
      record {
        requests_per_minute = t.recent_count;
        avg_latency_ms =
            if ltb 0 t.recent_count then milliseconds t.recent_latency_sum / t.recent_count else 0;
        error_rate =
            if ltb 0 t.recent_count
            then div (of_nat t.recent_errors) (of_nat t.recent_count)
            else of_nat 0;
        sparklines = record {
          requests = as_floats t.bucket_requests;
          latency = averages t.bucket_latency_sum t.bucket_latency_count;
          errors = as_floats t.bucket_errors;
        };
      }
