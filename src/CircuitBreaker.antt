-- ===== src/CircuitBreaker.antt =====
-- internal/middleware/circuitbreaker.go. The handler is two critical sections around the call of the
-- next handler: `enter` before it and `finish` after it. Counters are far below 2 ^ 63, and a
-- threshold or timeout that is negative behaves as 0 (the clock does not go back).

pub mod Laws
pub mod Traces
pub mod Handler
mod Tests
use microgate.Base.{
  ℕ, ◌+◌, ◌-◌, Bool, true, false, ◌&&◌, Option, none, some, if◌then◌else◌, leb, ltb, GoString,
}
use microgate.Base.Floats.{Float64, ratio}
use microgate.Analytics.State.{Analyzer, BackendBaseline, has_sufficient_data, get_backend_baseline}

pub data State : Type 0 where
  closed open_state half_open : State

-- `analyzer` says whether `SetAnalyzer` has been called. The analyzer itself is shared, and is given
-- to the functions that read it.
pub record CircuitBreaker : Type 0 where
  pub state : State
  pub failure_count : ℕ
  pub threshold : ℕ
  pub timeout : ℕ
  pub last_failure : ℕ
  pub total_count : ℕ
  pub analyzer : Bool

unfoldable pub new_circuit_breaker : ℕ → ℕ → CircuitBreaker
new_circuit_breaker threshold timeout = record {
  state = closed;
  failure_count = 0;
  threshold = threshold;
  timeout = timeout;
  last_failure = 0;
  total_count = 0;
  analyzer = false;
}

unfoldable pub set_analyzer : CircuitBreaker → CircuitBreaker
set_analyzer cb = record cb { analyzer = true }

-- The first critical section: whether the request goes on, and the state after the check.
enter_at : State → CircuitBreaker → ℕ → Bool × CircuitBreaker
enter_at open_state cb now =
    if ltb cb.timeout (now - cb.last_failure)
    then (true, record cb { state = half_open })
    else (false, cb)
enter_at _ cb now = (true, cb)

unfoldable pub enter : CircuitBreaker → ℕ → Bool × CircuitBreaker
unfolding enter_at
enter cb now = enter_at cb.state cb now

abbrev is_half_open : State → Bool
is_half_open half_open = true
is_half_open _ = false

module _ {F : Type 0} ⦃f : Float64 F⦄ where
  open f use {lt, mul, div, of_nat}

  -- `max(baseline.MeanErrorRate * 5.0, 0.05)`, with the defaults 1.0 and 0.5.
  threshold_of : Option (BackendBaseline F) → F
  threshold_of none = ratio 1 2
  threshold_of (some b) =
      let threshold = mul b.mean_error_rate (of_nat 5) in
      if ltb b.sample_size 2
      then ratio 1 2
      else if lt threshold (ratio 5 100)
      then ratio 5 100
      else threshold

  unfoldable pub dynamic_threshold : CircuitBreaker → Analyzer F → GoString → F
  unfolding threshold_of
  dynamic_threshold cb a backend =
      if cb.analyzer then threshold_of (get_backend_baseline a backend) else of_nat 1

  unfoldable pub should_trip : CircuitBreaker → Analyzer F → ℕ → GoString → Bool
  should_trip cb a now backend =
      if cb.analyzer && has_sufficient_data a now && ltb 0 cb.total_count
      then lt (dynamic_threshold cb a backend)
          (div (of_nat cb.failure_count) (of_nat cb.total_count))
      else leb cb.threshold cb.failure_count

  -- The second critical section, for a response of the given status that `backend` gave.
  unfoldable pub finish : CircuitBreaker → Analyzer F → ℕ → GoString → ℕ → CircuitBreaker
  unfolding should_trip
  finish cb a status backend now =
      let counted = record cb { total_count = cb.total_count + 1 } in
      let failed = record counted {
        failure_count = counted.failure_count + 1;
        last_failure = now;
      } in
      if leb 500 status
      then if is_half_open failed.state
        then record failed { state = open_state }
        else if should_trip failed a now backend
        then record failed { state = open_state }
        else failed
      else record counted { failure_count = 0; total_count = 0; state = closed }
