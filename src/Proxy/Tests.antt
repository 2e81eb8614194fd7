-- ===== src/Proxy/Tests.antt =====
-- Runs of internal/proxy at concrete inputs.
use microgate.Base.{
  ℕ, ◌<◌, ◌≡◌, ◌≢◌, refl, Bool, true, false, Option, some, List, [], ◌∷◌, if◌then◌else◌, GoString,
  lit, length, get_or, In, str_eq, arith, keep,
}
use microgate.Base.Floats.{Milli, milli_float}
use microgate.Analytics.State.{Analyzer, new_analyzer}
use microgate.Config.{Route}
use microgate.Proxy.LoadBalancer.{LoadBalancer, new_load_balancer, healthy_backends, next}
use microgate.Proxy.LoadBalancer.Laws.{Says, after, position, round_robin_fair}
use microgate.Proxy.Weighted.{WeightedLoadBalancer, new_weighted_load_balancer, rebalance}
use microgate.Proxy.Weighted as Weighted
use microgate.Proxy.Weighted.Laws.{urls, weighted_next_lem}
use microgate.Proxy.Router.{weighted, Proxy, new_proxy, set_route_selector, add_backend}
use microgate.Proxy.Router.Laws.{new_proxy-IsWired, reply_of, swapped_selector_unused}

abbrev backends : List GoString
backends = lit "a" ∷ lit "b" ∷ lit "c" ∷ []

abbrev lb : LoadBalancer
lb = new_load_balancer backends []

-- All but the second backend are up.
abbrev health : Option (GoString → Bool)
health = some (λ url. if str_eq url (lit "b") then false else true)

abbrev first : ℕ → ℕ
first n = 0

round_robin_fair_example :
    let up = healthy_backends lb health in
    let n = length up in
    let pick = λ (j : ℕ). (next (after j lb health first) health first).0 in
    let p = position lb n 4 in
    let q = position lb n 5 in
    (pick 4 ≡ get_or up p [])
    × (pick 5 ≡ get_or up q [])
    × (pick 6 ≡ get_or up p [])
    × (p < n)
    × (q < n)
    × (p ≢ q)
unfolding new_load_balancer healthy_backends str_eq keep
round_robin_fair_example =
    round_robin_fair lb health first 4 1 refl (omega arith) (omega arith) (omega arith)

-- A balancer of three backends with equal weights.
abbrev wlb : WeightedLoadBalancer Milli
wlb = new_weighted_load_balancer backends 0

weighted_next_lem_example :
    In (Weighted.next wlb health 500) (urls wlb.weights)
    × ((other : GoString)
        → In other (urls wlb.weights)
        → Says health other
        → Says health (Weighted.next wlb health 500))
unfolding new_weighted_load_balancer
weighted_next_lem_example = weighted_next_lem wlb health 500 (omega arith)

abbrev analyzer : Analyzer Milli
analyzer = new_analyzer (record { interval = 0; window = 0; z_score_threshold = 0 }) 0

abbrev route : Route
route = record { path = lit "/x"; backend = lit "a"; backends = []; strategy = [] }

abbrev proxy : Proxy Milli
proxy = new_proxy (route ∷ [])

abbrev parses : GoString → Bool
parses url = true

abbrev swapped : Proxy Milli
swapped = set_route_selector proxy (lit "/x") (weighted wlb)

-- The route has one backend, `a`, which is what serves after the swap.
swapped_selector_unused_example :
    (later : Proxy Milli) × (add_backend swapped (lit "/x") (lit "d") ≡ some later)
    × ((path : GoString) (up : Option (GoString → Bool)) (intn : ℕ → ℕ) (rand : Milli)
        → (reply_of parses swapped path up intn rand ≡ reply_of parses proxy path up intn rand)
          × (reply_of parses later path up intn rand ≡ reply_of parses proxy path up intn rand))
swapped_selector_unused_example =
    swapped_selector_unused parses proxy (lit "/x") (lit "d") (weighted wlb)
      (new_proxy-IsWired Milli (route ∷ []))
