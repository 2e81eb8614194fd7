-- ===== src/CircuitBreaker/Tests.antt =====
-- Runs of internal/middleware/circuitbreaker.go at concrete inputs.
use native.Mathlib.Nat.{div-eq_of_eq-mul_left}
use microgate.Base.{ℕ, ◌*◌, ◌/◌, ◌<◌, ◌≡◌, ◌↔◌, refl, true, arith, [], ◌∷◌, lit, GoString}
use microgate.Base.Floats.{Milli, milli_float}
use microgate.Analytics.State.{Analyzer, has_sufficient_data}
use microgate.CircuitBreaker.{
  open_state, half_open, CircuitBreaker, new_circuit_breaker, set_analyzer, dynamic_threshold,
  finish,
}
use microgate.CircuitBreaker.Traces.{
  World, Response, Reach, here, next, attach, arrivals, Reach-CountsAgree, dynamic_trip,
  half_open_admits_all,
}

abbrev backend : GoString
backend = lit "b"

-- A backend whose mean error rate is 2%: the dynamic threshold is 10%.
abbrev learned : Analyzer Milli
learned = record {
  config = record { interval = 0; window = 0; z_score_threshold = 3000 };
  start_time = 0;
  route_baselines = [];
  backend_baselines =
      (
        backend,
        record {
          backend = backend;
          mean_latency_ms = 1000;
          mean_error_rate = 20;
          std_dev_error = 0;
          sample_size = 7;
        },
      )
      ∷ [];
  anomalies = [];
  channel = [];
}

abbrev fails : ℕ → Response
fails t = record { status = 502; backend = backend; at = t }

abbrev tripped : CircuitBreaker
tripped = record (new_circuit_breaker 5 30) {
  state = open_state;
  failure_count = 5;
  total_count = 5;
  last_failure = 100;
}

abbrev start : World
start = record { breaker = new_circuit_breaker 5 30; in_flight = 0 }

abbrev attached : World
attached = record { breaker = set_analyzer (new_circuit_breaker 5 30); in_flight = 0 }

start-Reach : Reach Milli start attached
start-Reach = next here (attach refl)

Reach-CountsAgree_example : attached.breaker.failure_count ≡ attached.breaker.total_count
Reach-CountsAgree_example = Reach-CountsAgree {F = Milli} 5 30 start-Reach

one : (n : ℕ) → 0 < n → n * 1000 * 1000 / (n * 1000) ≡ 1 * 1000
one n h = div-eq_of_eq-mul_left {k = 1000} (omega arith) (omega arith)

dynamic_trip_example :
    ((finish attached.breaker learned 502 backend 9).state ≡ open_state)
    ↔ (milli_float.lt (dynamic_threshold attached.breaker learned backend) 1000 ≡ true)
unfolding set_analyzer new_circuit_breaker has_sufficient_data
dynamic_trip_example =
    dynamic_trip one 5 30 start-Reach learned (fails 9) refl refl refl (omega arith)

half_open_admits_all_example :
    arrivals tripped (131 ∷ 131 ∷ 132 ∷ []) ≡ (3, record tripped { state = half_open })
unfolding new_circuit_breaker
half_open_admits_all_example = half_open_admits_all tripped 131 (131 ∷ 132 ∷ []) refl (omega arith)
