-- ===== src/Health.antt =====
-- internal/health/health.go: the cached health of the backends. A probe is what `client.Get` gives:
-- a status code, or nothing on an error.
pub mod Laws
mod Tests
use microgate.Base.{
  ℕ, zero, suc, ◌+◌, Bool, true, false, not, ◌&&◌, Option, none, some, List, [], ◌∷◌, ◌++◌,
  if◌then◌else◌, ◌==◌, GoString, GoMap, lookup, insert, keys, lit, length,
}
use microgate.Http.{Call, set_header, write_header, write}

pub record BackendStatus : Type 0 where
  pub url : GoString
  pub healthy : Bool
  pub last_check : ℕ

-- `hooked` says whether `OnStateChange` is set.
pub record HealthChecker : Type 0 where
  pub backends : GoMap BackendStatus
  pub start_time : ℕ
  pub hooked : Bool

add_all : List GoString → GoMap BackendStatus → GoMap BackendStatus
add_all [] m = m
add_all (url ∷ urls) m =
    add_all urls (insert url (record { url = url; healthy = true; last_check = 0 }) m)

unfoldable pub new_health_checker : List GoString → ℕ → HealthChecker
unfolding add_all
new_health_checker urls now = record {
  backends = add_all urls [];
  start_time = now;
  hooked = false;
}

check_backend : Option ℕ → Bool
check_backend none = false
check_backend (some status) = status == 200

abbrev xor : Bool → Bool → Bool
xor a b = if a then not b else b

-- The body of the loop of `RunChecks` for one backend: the new map, and the calls of the hook.
unfoldable pub check_one :
    (GoString → Option ℕ) → ℕ → HealthChecker → GoString → HealthChecker × List (GoString × Bool)
unfolding check_backend
check_one probe now hc url = elim (lookup url hc.backends) [
  | none ↦ (hc, [])
  | some old ↦
      let healthy = check_backend (probe url) in
      (
        record hc {
          backends = insert url (record old { healthy = healthy; last_check = now }) hc.backends;
        },
        if hc.hooked && xor old.healthy healthy then (url, healthy) ∷ [] else [],
      )
]

check_all :
    (GoString → Option ℕ)
    → ℕ
    → List GoString
    → HealthChecker
    → HealthChecker × List (GoString × Bool)
check_all probe now [] hc = (hc, [])
check_all probe now (url ∷ urls) hc =
    let (hc', fired) = check_one probe now hc url in
    let (last, rest) = check_all probe now urls hc' in (last, fired ++ rest)

-- One round, with no `AddBackend` in between.
unfoldable pub run_checks :
    (GoString → Option ℕ) → ℕ → HealthChecker → HealthChecker × List (GoString × Bool)
unfolding check_all
run_checks probe now hc = check_all probe now (keys hc.backends) hc

unfoldable pub add_backend : HealthChecker → GoString → HealthChecker
add_backend hc url = elim (lookup url hc.backends) [
  | some old ↦ hc
  | none ↦ record hc {
    backends = insert url (record { url = url; healthy = false; last_check = 0 }) hc.backends;
  }
]

healthy_of : Option BackendStatus → Bool
healthy_of none = false
healthy_of (some status) = status.healthy

unfoldable pub is_healthy : HealthChecker → GoString → Bool
unfolding healthy_of
is_healthy hc url = healthy_of (lookup url hc.backends)

unfoldable pub count_healthy : GoMap BackendStatus → ℕ
count_healthy [] = 0
count_healthy ((url, s) ∷ m) = if s.healthy then suc (count_healthy m) else count_healthy m

unfoldable pub backend_counts : HealthChecker → ℕ × ℕ
unfolding count_healthy
backend_counts hc = (count_healthy hc.backends, length hc.backends)

-- The loop with its `break`.
unfoldable pub all_healthy : GoMap BackendStatus → Bool
all_healthy [] = true
all_healthy ((url, s) ∷ m) = if s.healthy then all_healthy m else false

-- The calls of the `/health` handler; `encode` is the JSON encoding of the response.
unfoldable pub handler : (GoString → HealthChecker → GoString) → HealthChecker → List Call
unfolding all_healthy
handler encode hc =
    let status = if all_healthy hc.backends then lit "healthy" else lit "degraded" in
    let code = if all_healthy hc.backends then [] else write_header 503 ∷ [] in
    code
    ++ (set_header (lit "Content-Type") (lit "application/json") ∷ write (encode status hc) ∷ [])
