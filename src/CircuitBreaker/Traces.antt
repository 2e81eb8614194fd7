-- ===== src/CircuitBreaker/Traces.antt =====
-- internal/middleware/circuitbreaker.go under load: any number of requests are between the two
-- critical sections at once, and these follow one another in any order.
use microgate.Base.{
  ℕ, suc, ◌+◌, ◌-◌, ◌≤◌, ◌<◌, ◌≡◌, ◌∙◌, ◌≢◌, ◌↔◌, refl, true, false, arith, List, [], ◌∷◌, GoString,
  if◌then◌else◌, length,
}
use microgate.Base.Floats.{Float64}
use microgate.Analytics.State.{Analyzer, has_sufficient_data}
use microgate.CircuitBreaker.{
  closed, open_state, half_open, CircuitBreaker, new_circuit_breaker, set_analyzer, enter,
  dynamic_threshold, should_trip, finish,
}

pub record World : Type 0 where
  pub breaker : CircuitBreaker
  pub in_flight : ℕ

abbrev arrived : World → ℕ → World
arrived w now =
    let (goes_on, cb) = enter w.breaker now in
    record w { breaker = cb; in_flight = if goes_on then w.in_flight + 1 else w.in_flight }

-- Requests that arrive at the given instants before any response: how many go on.
unfoldable pub arrivals : CircuitBreaker → List ℕ → ℕ × CircuitBreaker
arrivals cb [] = (0, cb)
arrivals cb (now ∷ later) =
    let (goes_on, cb') = enter cb now in
    let (n, last) = arrivals cb' later in (if goes_on then n + 1 else n, last)

pub record Response : Type 0 where
  pub status : ℕ
  pub backend : GoString
  pub at : ℕ

abbrev pub AllFailed : List Response → Type 0
AllFailed [] = Unit
AllFailed (r ∷ rs) = (500 ≤ r.status) × AllFailed rs

abbrev pub CountsAgree : CircuitBreaker → Type 0
CountsAgree cb = cb.failure_count ≡ cb.total_count

-- What holds of a breaker with no analyzer that has seen failures alone.
record IsCounting (cb : CircuitBreaker) : Type 0 where
  static : cb.analyzer ≡ false
  not_testing : cb.state ≢ half_open
  opens : (cb.state ≡ open_state) ↔ (cb.threshold ≤ cb.failure_count)

module _ (F : Type 0) ⦃f : Float64 F⦄ where
  -- One step: `SetAnalyzer`, an arrival, or the response to a request that is in flight, at which
  -- the analyzer may have learned anything.
  pub data Step (w u : World) : Type 0 where
    attach : u ≡ record w { breaker = set_analyzer w.breaker } → Step w u
    arrive : (now : ℕ) → u ≡ arrived w now → Step w u
    respond :
        (a : Analyzer F) (r : Response)
        → 0 < w.in_flight
        → u ≡ record {
          breaker = finish w.breaker a r.status r.backend r.at;
          in_flight = w.in_flight - 1;
        }
        → Step w u

  pub data Reach (w : World) : World → Type 0 where
    here : Reach w w
    next : {u v : World} → Reach w u → Step u v → Reach w v

module _ {F : Type 0} ⦃f : Float64 F⦄ where
  open f use {lt, div, of_nat}

  finish-CountsAgree :
      (cb : CircuitBreaker) (a : Analyzer F) (status : ℕ) (backend : GoString) (now : ℕ)
      → CountsAgree cb
      → CountsAgree (finish cb a status backend now)
  unfolding finish
  finish-CountsAgree cb a status backend now h = ground arith

  Step-CountsAgree : {w u : World} → Step F w u → CountsAgree w.breaker → CountsAgree u.breaker
  unfolding enter set_analyzer
  Step-CountsAgree (attach e) h = ground arith
  Step-CountsAgree (arrive now e) h = ground arith
  Step-CountsAgree {w} (respond a r p e) h =
      ground (arith, finish-CountsAgree w.breaker a r.status r.backend r.at)

  -- In every breaker that is reached from a new one the failures are all the counted requests: a
  -- success resets both counters, and a failure moves both.
  pub Reach-CountsAgree :
      (threshold timeout : ℕ) {w : World}
      → Reach F (record { breaker = new_circuit_breaker threshold timeout; in_flight = 0 }) w
      → w.breaker.failure_count ≡ w.breaker.total_count
  unfolding new_circuit_breaker
  Reach-CountsAgree threshold timeout here = refl
  Reach-CountsAgree threshold timeout (next r s) =
      Step-CountsAgree s (Reach-CountsAgree threshold timeout r)

  -- Once the analyzer has data, a closed breaker that is reached from a new one opens at a failed
  -- response exactly if the dynamic threshold is below one, were it the first failure among any
  -- number of requests. (`n / n` is one for every positive integer.)
  pub dynamic_trip :
      ((n : ℕ) → 0 < n → div (of_nat n) (of_nat n) ≡ of_nat 1)
      → (threshold timeout : ℕ) {w : World}
      → Reach F (record { breaker = new_circuit_breaker threshold timeout; in_flight = 0 }) w
      → (a : Analyzer F) (r : Response) → w.breaker.analyzer ≡ true
      → has_sufficient_data a r.at ≡ true
      → w.breaker.state ≡ closed
      → 500 ≤ r.status
      → ((finish w.breaker a r.status r.backend r.at).state ≡ open_state)
        ↔ (lt (dynamic_threshold w.breaker a r.backend) (of_nat 1) ≡ true)
  unfolding finish dynamic_threshold
  dynamic_trip one threshold timeout {w} reach a r on enough c h = ground (
    arith,
    Reach-CountsAgree threshold timeout reach,
    one (w.breaker.total_count + 1),
    one (w.breaker.failure_count + 1),
  )

  pub finish_all : CircuitBreaker → Analyzer F → List Response → CircuitBreaker
  finish_all cb a [] = cb
  finish_all cb a (r ∷ rs) = finish_all (finish cb a r.status r.backend r.at) a rs

  finish-IsCounting :
      (cb : CircuitBreaker) (a : Analyzer F) (r : Response)
      → IsCounting cb
      → 500 ≤ r.status
      → let cb' = finish cb a r.status r.backend r.at in
        IsCounting cb' × (cb'.failure_count ≡ cb.failure_count + 1) × (cb'.threshold ≡ cb.threshold)
  unfolding finish should_trip
  finish-IsCounting cb a r c h = ground arith

  finish_all-IsCounting :
      (cb : CircuitBreaker) (a : Analyzer F) (rs : List Response)
      → IsCounting cb
      → AllFailed rs
      → let last = finish_all cb a rs in
        IsCounting last
        × (last.failure_count ≡ cb.failure_count + length rs)
        × (last.threshold ≡ cb.threshold)
  unfolding finish_all
  finish_all-IsCounting cb a [] c h = (c, omega arith, refl)
  finish_all-IsCounting cb a (r ∷ rs) c (h, hs) =
      let (c', count, same) = finish-IsCounting cb a r c h in
      let (last, total, kept) =
        finish_all-IsCounting (finish cb a r.status r.backend r.at) a rs c' hs in
      (last, omega arith, kept ∙ same)

  -- With no analyzer and a positive threshold, a new breaker that receives failed responses alone is
  -- open exactly when there are at least as many as the threshold.
  static_trip :
      (threshold timeout : ℕ) (a : Analyzer F) (rs : List Response)
      → 0 < threshold
      → AllFailed rs
      → ((finish_all (new_circuit_breaker threshold timeout) a rs).state ≡ open_state)
        ↔ (threshold ≤ length rs)
  unfolding new_circuit_breaker
  static_trip threshold timeout a rs pos h =
      let (last, total, kept) =
        finish_all-IsCounting (new_circuit_breaker threshold timeout) a rs
          (record { static = refl; not_testing = cc; opens = ground arith }) h in
      (λ o. omega (arith, last.opens.0 o), λ k. last.opens.1 (omega arith))

  -- A success that arrives late, from a request admitted before the breaker opened, lets requests
  -- through at once: the timeout is not waited for.
  late_success :
      (cb : CircuitBreaker) (a : Analyzer F) (r : Response) (now : ℕ)
      → cb.state ≡ open_state
      → cb.last_failure ≤ now
      → now ≤ cb.last_failure + cb.timeout
      → r.status < 500
      → ((enter cb now).0 ≡ false) × ((enter (finish cb a r.status r.backend r.at) now).0 ≡ true)
  unfolding enter finish
  late_success cb a r now o past early ok = ground arith

arrivals-half_open :
    (cb : CircuitBreaker) (ts : List ℕ) → cb.state ≡ half_open → arrivals cb ts ≡ (length ts, cb)
unfolding arrivals enter
arrivals-half_open cb [] h = refl
arrivals-half_open cb (t ∷ ts) h = ground (arith, arrivals-half_open cb ts)

-- Once the timeout of an open breaker has passed, every request that arrives before the first response
-- goes on, not one alone.
pub half_open_admits_all :
    (cb : CircuitBreaker) (t : ℕ) (ts : List ℕ)
    → cb.state ≡ open_state
    → cb.last_failure + cb.timeout < t
    → arrivals cb (t ∷ ts) ≡ (suc (length ts), record cb { state = half_open })
unfolding arrivals enter
half_open_admits_all cb t ts o late =
    ground (arith, arrivals-half_open (record cb { state = half_open }) ts)
