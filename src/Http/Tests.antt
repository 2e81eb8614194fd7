-- ===== src/Http/Tests.antt =====
-- Runs of the response wrappers and of the middleware chain at concrete inputs.
use microgate.Base.{ℕ, ◌+◌, ◌≡◌, refl, lit, [], ◌∷◌, GoString}
use microgate.Http.{set_header, write_header, write, Handler, Middleware}
use microgate.Http.Address.{split_host}
use microgate.Http.Writer.{writer_status, captured_status, capture_all, fresh_capture, wire_status}

split_host_test : split_host (lit "10.0.0.1:4242") ≡ lit "10.0.0.1"
unfolding split_host
split_host_test = refl

split_host_v6 : split_host (lit "[::1]:80") ≡ lit "::1"
unfolding split_host
split_host_v6 = refl

split_host_bare : split_host (lit "::1") ≡ []
unfolding split_host
split_host_bare = refl

-- `responseCapture` takes an informational code for the status and drops the final one.
early_hints_reported : captured_status (write_header 103 ∷ write_header 404 ∷ []) ≡ 103
unfolding captured_status capture_all
early_hints_reported = refl

final_code_lost :
    wire_status (capture_all fresh_capture (write_header 103 ∷ write_header 404 ∷ [])).1 ≡ 200
unfolding wire_status capture_all
final_code_lost = refl

-- A second `WriteHeader` is not sent, and `responseWriter` reports it.
superfluous_code_reported : writer_status 200 (write_header 200 ∷ write_header 500 ∷ []) ≡ 500
unfolding writer_status
superfluous_code_reported = refl

abbrev hello : Handler ℕ
hello r s = (write (lit "hello") ∷ [], s + 1)

abbrev tagged : GoString → Middleware ℕ
tagged tag next r s = let (calls, s') = next r s in (set_header (lit "T") tag ∷ calls, s')
