-- ===== src/Proxy/LoadBalancer/Laws.antt =====
-- internal/proxy/loadbalancer.go: the choice is a backend, a healthy one if there is any, and
-- round-robin is fair.
use native.Mathlib.Nat.{mod-lt, mod-eq_of_lt, mod-eq-sub-mod, mod-add-mod}
use native.Mathlib.Decide.{dec_lt}
use microgate.Base.{
  ℕ, zero, suc, ◌+◌, ◌-◌, ◌%◌, ◌^◌, ◌<◌, ◌≡◌, ◌≢◌, ◌∙◌, refl, sym, ap, Bool, true, false, Option,
  none, some, [], GoString, str_eq, lit, length, get_or, arith,
}
use microgate.Proxy.LoadBalancer.{LoadBalancer, healthy_backends, next}

-- The health checker, if there is one, says that the backend is healthy.
abbrev pub Says : Option (GoString → Bool) → GoString → Type 0
Says none url = Unit
Says (some healthy) url = healthy url ≡ true

-- The balancer after `k` calls.
unfoldable pub after : ℕ → LoadBalancer → Option (GoString → Bool) → (ℕ → ℕ) → LoadBalancer
after zero lb health intn = lb
after (suc k) lb health intn = after k (next lb health intn).1 health intn

-- The position, among the healthy backends, of the call that follows `k` others.
abbrev pub position : LoadBalancer → ℕ → ℕ → ℕ
position lb n k = (lb.counter + suc k) % n

module _ (lb : LoadBalancer) (health : Option (GoString → Bool)) (intn : ℕ → ℕ) where
  step_lem :
      str_eq lb.strategy (lit "random") ≡ false
      → 0 < length (healthy_backends lb health)
      → lb.counter + 1 < 2 ^ 64
      → ((next lb health intn).0
          ≡ get_or
              (healthy_backends lb health)
              ((lb.counter + 1) % length (healthy_backends lb health))
              [])
        × ((next lb health intn).1 ≡ record lb { counter = lb.counter + 1 })
  unfolding next
  step_lem rr pos small = let e = mod-eq_of_lt small in ground arith

healthy_backends-counter :
    (lb : LoadBalancer) (health : Option (GoString → Bool)) (c : ℕ)
    → healthy_backends (record lb { counter = c }) health ≡ healthy_backends lb health
unfolding healthy_backends
healthy_backends-counter lb none c = refl
healthy_backends-counter lb (some healthy) c = refl

turn_lem :
    (k : ℕ) (lb : LoadBalancer) (health : Option (GoString → Bool)) (intn : ℕ → ℕ)
    → str_eq lb.strategy (lit "random") ≡ false
    → 0 < length (healthy_backends lb health)
    → lb.counter + suc k < 2 ^ 64
    → let up = healthy_backends lb health in
      (next (after k lb health intn) health intn).0 ≡ get_or up (position lb (length up) k) []
unfolding after
turn_lem zero lb health intn rr pos small =
    let e : lb.counter + suc 0 ≡ lb.counter + 1 = omega arith in
    rw e (step_lem lb health intn rr pos (omega arith)).0
turn_lem (suc k) lb health intn rr pos small =
    let lb' = record lb { counter = lb.counter + 1 } in
    let same = healthy_backends-counter lb health (lb.counter + 1) in
    let e : lb.counter + suc (suc k) ≡ lb.counter + 1 + suc k = omega arith in
    let rest = turn_lem k lb' health intn rr (rw same pos) (omega arith) in
    rw ((step_lem lb health intn rr pos (omega arith)).1, e) (rw same at rest)

-- Fewer than `n` steps round a circle of `n` do not come back to the start.
add-mod-ne : (m d n : ℕ) → 0 < d → d < n → (m + d) % n ≢ m % n
add-mod-ne m d n pos lt e =
    let r = m % n in
    let small : r < n = mod-lt m (omega arith) in
    let shifted : (r + d) % n ≡ (m + d) % n = mod-add-mod m n d in
    elim (dec_lt (r + d) n) [
      | yes p ↦ omega (arith, mod-eq_of_lt p, shifted, e)
      | no p ↦ omega (
        arith,
        mod-eq-sub-mod {n = r + d} {m = n} (omega arith),
        mod-eq_of_lt {n = r + d - n} {m = n} (omega arith),
        shifted,
        e,
      )
    ]

add-mod_self : (m n : ℕ) → 0 < n → (m + n) % n ≡ m % n
add-mod_self m n pos =
    let e : m + n - n ≡ m = omega arith in
    mod-eq-sub-mod {n = m + n} {m = n} (omega arith) ∙ ap (λ k. k % n) e

-- With any strategy but random, the choice is fair while the health of the backends does not change
-- and the counter does not wrap: calls fewer than `n` apart, for `n` healthy backends, choose
-- different positions among them, and a call chooses the position that was chosen `n` calls before.
pub round_robin_fair :
    (lb : LoadBalancer) (health : Option (GoString → Bool)) (intn : ℕ → ℕ) (k d : ℕ)
    → str_eq lb.strategy (lit "random") ≡ false
    → let up = healthy_backends lb health in
      let n = length up in
      0 < d
      → d < n
      → lb.counter + suc (k + n) < 2 ^ 64
      → let pick = λ (j : ℕ). (next (after j lb health intn) health intn).0 in
        let p = position lb n k in
        let q = position lb n (k + d) in
        (pick k ≡ get_or up p [])
        × (pick (k + d) ≡ get_or up q [])
        × (pick (k + n) ≡ get_or up p [])
        × (p < n)
        × (q < n)
        × (p ≢ q)
round_robin_fair lb health intn k d rr pos lt small =
    let up = healthy_backends lb health in
    let n = length up in
    let some_up : 0 < n = omega arith in
    let far : lb.counter + suc (k + n) ≡ lb.counter + suc k + n = omega arith in
    let near : lb.counter + suc (k + d) ≡ lb.counter + suc k + d = omega arith in
    (
      turn_lem k lb health intn rr some_up (omega arith),
      turn_lem (k + d) lb health intn rr some_up (omega arith),
      turn_lem (k + n) lb health intn rr some_up small
          ∙ ap (λ i. get_or up i [])
              (ap (λ i. i % n) far ∙ add-mod_self (lb.counter + suc k) n some_up),
      mod-lt (lb.counter + suc k) some_up,
      mod-lt (lb.counter + suc (k + d)) some_up,
      λ same. add-mod-ne (lb.counter + suc k) d n pos lt (ap (λ i. i % n) (sym near) ∙ sym same),
    )
