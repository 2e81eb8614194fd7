-- ===== src/Proxy/LoadBalancer.antt =====
-- internal/proxy/loadbalancer.go. The counter is a uint64 that wraps; what `rand.Intn(n)` returns is
-- an argument. `healthy` is `IsHealthy` of the shared health checker, if there is one.
pub mod Laws
use microgate.Base.{
  ℕ, zero, suc, ◌+◌, ◌%◌, ◌^◌, Bool, true, false, Option, none, some, List, [], ◌∷◌, ◌++◌,
  if◌then◌else◌, ◌==◌, GoString, str_eq, lit, length, get_or, keep,
}

pub record LoadBalancer : Type 0 where
  pub backends : List GoString
  pub strategy : GoString
  pub counter : ℕ

unfoldable pub new_load_balancer : List GoString → GoString → LoadBalancer
new_load_balancer backends strategy = record {
  backends = backends;
  strategy = if str_eq strategy [] then lit "round-robin" else strategy;
  counter = 0;
}

unfoldable pub add_backend : LoadBalancer → GoString → LoadBalancer
add_backend lb url = record lb { backends = lb.backends ++ (url ∷ []) }

unfoldable pub healthy_backends : LoadBalancer → Option (GoString → Bool) → List GoString
healthy_backends lb none = lb.backends
healthy_backends lb (some healthy) =
    let up = keep healthy lb.backends in if length up == 0 then lb.backends else up

-- `atomic.AddUint64`
abbrev pub next_counter : ℕ → ℕ
next_counter c = (c + 1) % 2 ^ 64

unfoldable pub next : LoadBalancer → Option (GoString → Bool) → (ℕ → ℕ) → GoString × LoadBalancer
next lb healthy intn =
    let up = healthy_backends lb healthy in
    let idx = next_counter lb.counter in
    if length up == 0
    then ([], lb)
    else if str_eq lb.strategy (lit "random")
    then (get_or up (intn (length up)) [], lb)
    else (get_or up (idx % length up) [], record lb { counter = idx })
