-- ===== src/Health/Laws.antt =====
-- internal/health/health.go: a round of checks, and the `/health` answer.
use microgate.Base.{
  ℕ, ◌≤◌, ◌≡◌, ◌∙◌, refl, sym, Bool, true, false, Option, none, some, List, [], ◌∷◌, if◌then◌else◌,
  ◌==◌, GoString, GoMap, lookup, lookup-insert, keys, lit, length, arith, str_eq, str_eq_iff,
  str_eq_refl, inl, inr, Option-cases,
}
use microgate.Http.Writer.{wire_status, wire_header}
use microgate.Health.{
  BackendStatus, HealthChecker, check_backend, check_one, check_all, run_checks, is_healthy,
  count_healthy, all_healthy, handler,
}

-- The health that a probe shows: an answer with status 200.
abbrev pub responds : Option ℕ → Bool
responds none = false
responds (some status) = status == 200

abbrev pub has : {V : Type 0} → Option V → Bool
has none = false
has (some v) = true

abbrev pub known : HealthChecker → GoString → Bool
known hc url = has (lookup url hc.backends)

abbrev pub member : GoString → List GoString → Bool
member url [] = false
member url (u ∷ urls) = if str_eq u url then true else member url urls

member-keys : {V : Type 0} (url : GoString) (m : GoMap V) → member url (keys m) ≡ has (lookup url m)
unfolding lookup
member-keys url [] = refl
member-keys url ((k, v) ∷ m) = ground (arith, member-keys url m)

abbrev AllKnown : HealthChecker → List GoString → Type 0
AllKnown hc [] = Unit
AllKnown hc (u ∷ urls) = (known hc u ≡ true) × AllKnown hc urls

module _ (probe : GoString → Option ℕ) (now : ℕ) where
  check_one-healthy :
      (hc : HealthChecker) (url other : GoString)
      → known hc url ≡ true
      → let hc' = (check_one probe now hc url).0 in
        (is_healthy hc' other
          ≡ (if str_eq url other then responds (probe other) else is_healthy hc other))
        × (known hc' other ≡ known hc other)
  unfolding check_one is_healthy
  check_one-healthy hc url other k = elim (Option-cases (lookup url hc.backends)) [
    | inl e ↦ ground arith
    | inr (old, e) ↦ ground (
      arith,
      str_eq_iff url other,
      lookup-insert url other (record old { healthy = check_backend (probe url); last_check = now })
          hc.backends,
    )
  ]

  check_one-AllKnown :
      (hc : HealthChecker) (url : GoString) (urls : List GoString)
      → known hc url ≡ true
      → AllKnown hc urls
      → AllKnown (check_one probe now hc url).0 urls
  check_one-AllKnown hc url [] k all = tt
  check_one-AllKnown hc url (u ∷ urls) k (first, rest) =
      ((check_one-healthy hc url u k).1 ∙ first, check_one-AllKnown hc url urls k rest)

  check_all-healthy :
      (urls : List GoString) (hc : HealthChecker) (url : GoString)
      → AllKnown hc urls
      → is_healthy (check_all probe now urls hc).0 url
        ≡ (if member url urls then responds (probe url) else is_healthy hc url)
  unfolding check_all
  check_all-healthy [] hc url all = refl
  check_all-healthy (u ∷ urls) hc url (k, all) = ground (
    arith,
    check_one-healthy hc u url k,
    check_all-healthy urls (check_one probe now hc u).0 url (check_one-AllKnown hc u urls k all),
  )

  keys-AllKnown :
      (hc : HealthChecker) (urls : List GoString)
      → ((u : GoString) → member u urls ≡ true → known hc u ≡ true)
      → AllKnown hc urls
  keys-AllKnown hc [] h = tt
  keys-AllKnown hc (u ∷ urls) h =
      (h u (ground (arith, str_eq_refl u)), keys-AllKnown hc urls (λ v m. h v (ground arith)))

  -- After a round of checks a registered backend is healthy exactly if its probe answered with status
  -- 200, and no other is.
  pub run_checks_lem :
      (hc : HealthChecker) (url : GoString)
      → is_healthy (run_checks probe now hc).0 url
        ≡ (if known hc url then responds (probe url) else false)
  unfolding run_checks is_healthy
  run_checks_lem hc url =
      let all = keys-AllKnown hc (keys hc.backends) (λ u m. sym (member-keys u hc.backends) ∙ m) in
      ground (arith, check_all-healthy (keys hc.backends) hc url all, member-keys url hc.backends)

count_healthy-le : (m : GoMap BackendStatus) → count_healthy m ≤ length m
unfolding count_healthy
count_healthy-le [] = omega arith
count_healthy-le ((url, s) ∷ m) = ground (arith, count_healthy-le m)

all_healthy_lem : (m : GoMap BackendStatus) → all_healthy m ≡ (count_healthy m == length m)
unfolding all_healthy count_healthy
all_healthy_lem [] = ground arith
all_healthy_lem ((url, s) ∷ m) = ground (arith, all_healthy_lem m, count_healthy-le m)

-- The health endpoint answers 200 exactly if every backend is healthy, and 503 otherwise. Only in the
-- first case does the JSON content type go out: otherwise it is set after the status was sent.
pub handler_lem :
    (encode : GoString → HealthChecker → GoString) (hc : HealthChecker)
    → let calls = handler encode hc in
      let up = count_healthy hc.backends == length hc.backends in
      (wire_status calls ≡ (if up then 200 else 503))
      × (wire_header calls (lit "Content-Type") none
          ≡ (if up then some (lit "application/json") else none))
unfolding handler wire_status wire_header str_eq
handler_lem encode hc = ground (arith, all_healthy_lem hc.backends)
