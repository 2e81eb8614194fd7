-- ===== src/CircuitBreaker/Handler.antt =====
-- internal/middleware/circuitbreaker.go: the handler. The next handler runs between two critical sections.
use microgate.Base.{ℕ, if◌then◌else◌, lit, []}
use microgate.Base.Floats.{Float64}
use microgate.Analytics.State.{Analyzer}
use microgate.Http.{aborts, Middleware, Cell, http_error}
use microgate.Http.Writer.{writer_status, header_after}
use microgate.CircuitBreaker.{CircuitBreaker, enter, finish}

module _ {F : Type 0} ⦃f : Float64 F⦄ where
  unfoldable pub middleware :
      {S : Type 0} → Cell S CircuitBreaker → (S → Analyzer F) → (S → ℕ) → Middleware S
  middleware breaker analyzer clock next r s =
      let (passes, cb) = enter (breaker.get s) (clock s) in
      let (calls, s') = next r (breaker.put cb s) in
      let backend = header_after calls (lit "X-Proxy-Backend") [] in
      let finished =
        finish (breaker.get s') (analyzer s') (writer_status 200 calls) backend (clock s') in
      if passes
      then if aborts calls then (calls, s') else (calls, breaker.put finished s')
      else (http_error (lit "Service Unavailable") 503, breaker.put cb s)
