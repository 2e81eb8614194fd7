-- ===== src/CircuitBreaker/Laws.antt =====
-- internal/middleware/circuitbreaker.go: what one critical section does, on every branch.
use microgate.Base.{ℕ, ◌+◌, ◌≤◌, ◌<◌, ◌≡◌, ◌≢◌, ◌↔◌, true, false, arith, GoString}
use microgate.Base.Floats.{Float64}
use microgate.Analytics.State.{Analyzer}
use microgate.CircuitBreaker.{closed, open_state, half_open, CircuitBreaker, enter, finish}

-- A request is turned away exactly while the breaker is open and no more than the timeout has gone by
-- since the last failure; the state is then unchanged. Otherwise an open breaker becomes half-open,
-- a closed or half-open one stays as it is, and nothing but the state of the machine changes.
enter_lem :
    (cb : CircuitBreaker) (now : ℕ)
    → cb.last_failure ≤ now
    → let (goes_on, cb') = enter cb now in
      ((goes_on ≡ false) ↔ ((cb.state ≡ open_state) × (now ≤ cb.last_failure + cb.timeout)))
      × (goes_on ≡ false → cb' ≡ cb)
      × (goes_on ≡ true → cb.state ≡ open_state → cb' ≡ record cb { state = half_open })
      × (cb.state ≢ open_state → cb' ≡ cb)
unfolding enter
enter_lem cb now h = ground arith

module _ {F : Type 0} ⦃f : Float64 F⦄ where
  -- A response below 500 closes the breaker and resets both counters, whatever the state.
  pub finish_success :
      (cb : CircuitBreaker) (a : Analyzer F) (status : ℕ) (backend : GoString) (now : ℕ)
      → status < 500
      → finish cb a status backend now
        ≡ record cb { failure_count = 0; total_count = 0; state = closed }
  unfolding finish
  finish_success cb a status backend now h = ground arith

  -- A response of 500 or more counts one failure in both counters and dates it.
  pub finish_failure_counts :
      (cb : CircuitBreaker) (a : Analyzer F) (status : ℕ) (backend : GoString) (now : ℕ)
      → 500 ≤ status
      → let cb' = finish cb a status backend now in
        (cb'.failure_count ≡ cb.failure_count + 1)
        × (cb'.total_count ≡ cb.total_count + 1)
        × (cb'.last_failure ≡ now)
  unfolding finish
  finish_failure_counts cb a status backend now h = ground arith

  pub finish-fixed :
      (cb : CircuitBreaker) (a : Analyzer F) (status : ℕ) (backend : GoString) (now : ℕ)
      → let cb' = finish cb a status backend now in
        (cb'.threshold ≡ cb.threshold) × (cb'.timeout ≡ cb.timeout) × (cb'.analyzer ≡ cb.analyzer)
  unfolding finish
  finish-fixed cb a status backend now = ground arith
