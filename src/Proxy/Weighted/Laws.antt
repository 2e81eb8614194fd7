-- ===== src/Proxy/Weighted/Laws.antt =====
-- internal/proxy/weighted_lb.go: the choice and the weights.
use microgate.Base.{
  ℕ, ◌≡◌, ◌≢◌, ◌∙◌, refl, ap, inl, inr, Bool, true, Option, none, some, List, [], ◌∷◌, ◌++◌, ◌==◌,
  GoString, length, keep, In, arith, Bool-cases,
}
use microgate.Base.Floats.{Float64}
use microgate.Analytics.State.{Analyzer}
use microgate.Proxy.Weighted.{
  BackendWeight, WeightedLoadBalancer, is_up, last_url, new_weighted_load_balancer, rebalance,
  raw_weights, divide_all, equal_weights, candidates, choose, choose_among, next, add_backend,
  sum_from,
}
use microgate.Proxy.LoadBalancer.Laws.{Says}

module _ {F : Type 0} where
  abbrev pub urls : List (BackendWeight F) → List GoString
  urls [] = []
  urls (w ∷ ws) = w.url ∷ urls ws

  last_url-In :
      (w : BackendWeight F) (ws : List (BackendWeight F)) → In (last_url w ws) (urls (w ∷ ws))
  unfolding last_url
  last_url-In w [] = inl refl
  last_url-In w (v ∷ vs) = inr (last_url-In v vs)

  Says-of-is_up :
      (health : Option (GoString → Bool)) (w : BackendWeight F)
      → is_up health w ≡ true
      → Says health w.url
  Says-of-is_up none w e = tt
  Says-of-is_up (some healthy) w e = e

  is_up-of-Says :
      (health : Option (GoString → Bool)) (w : BackendWeight F)
      → Says health w.url
      → is_up health w ≡ true
  is_up-of-Says none w e = refl
  is_up-of-Says (some healthy) w e = e

  urls-keep :
      (health : Option (GoString → Bool)) (ws : List (BackendWeight F)) (url : GoString)
      → In url (urls (keep (is_up health) ws))
      → In url (urls ws) × Says health url
  unfolding keep
  urls-keep health [] url m = absurd m
  urls-keep health (w ∷ ws) url m = elim (Bool-cases (is_up health w)) [
    | inl up ↦ elim (rw up at m) [
      | inl e ↦ (inl e, rw e (Says-of-is_up health w up))
      | inr rest ↦ let (found, says) = urls-keep health ws url rest in (inr found, says)
    ]
    | inr down ↦ let (found, says) = urls-keep health ws url (rw down at m) in (inr found, says)
  ]

  keep-urls :
      (health : Option (GoString → Bool)) (ws : List (BackendWeight F)) (url : GoString)
      → In url (urls ws)
      → Says health url
      → length (keep (is_up health) ws) ≢ 0
  unfolding keep
  keep-urls health [] url m says = absurd m
  keep-urls health (w ∷ ws) url (inl e) says =
      let up : is_up health w ≡ true = is_up-of-Says health w (rw e at says) in rw up (omega arith)
  keep-urls health (w ∷ ws) url (inr m) says = ground (arith, keep-urls health ws url m says)

  urls-equal_weights : (l : List GoString) (w : F) → urls (equal_weights l w) ≡ l
  unfolding equal_weights
  urls-equal_weights [] w = refl
  urls-equal_weights (u ∷ l) w = ap (λ t. u ∷ t) (urls-equal_weights l w)

module _ {F : Type 0} ⦃f : Float64 F⦄ where
  open f use {lt, le, add, sub, mul, div, of_nat}

  choose-In :
      (r cumulative : F) (w : BackendWeight F) (ws : List (BackendWeight F)) (fallback : GoString)
      (l : List GoString)
      → In fallback l
      → ((url : GoString) → In url (urls (w ∷ ws)) → In url l)
      → In (choose r cumulative w ws fallback) l
  unfolding choose
  choose-In r cumulative w [] fallback l m sub_l =
      elim (Bool-cases (le r (add cumulative w.weight))) [
        | inl stop ↦ rw stop (sub_l w.url (inl refl))
        | inr go_on ↦ rw go_on m
      ]
  choose-In r cumulative w (v ∷ vs) fallback l m sub_l =
      elim (Bool-cases (le r (add cumulative w.weight))) [
        | inl stop ↦ rw stop (sub_l w.url (inl refl))
        | inr go_on ↦
            rw go_on
              (choose-In r (add cumulative w.weight) v vs fallback l m (λ url k. sub_l url (inr k)))
      ]

  choose_among-In :
      (rand : F) (ws : List (BackendWeight F)) → length ws ≢ 0 → In (choose_among rand ws) (urls ws)
  unfolding choose_among
  choose_among-In rand [] h = absurd (h refl)
  choose_among-In rand (w ∷ ws) h =
      choose-In _ (of_nat 0) w ws (last_url w ws) (urls (w ∷ ws)) (last_url-In w ws) (λ url m. m)

  -- With at least one weight the choice, for any random number, is one of the weighted backends, and a
  -- healthy one if any of them is healthy.
  pub weighted_next_lem :
      (wlb : WeightedLoadBalancer F) (health : Option (GoString → Bool)) (rand : F)
      → length wlb.weights ≢ 0
      → In (next wlb health rand) (urls wlb.weights)
        × ((other : GoString)
            → In other (urls wlb.weights)
            → Says health other
            → Says health (next wlb health rand))
  unfolding next candidates
  weighted_next_lem wlb health rand h =
      let up = keep (is_up health) wlb.weights in
      elim (Bool-cases (length up == 0)) [
        | inl none_up ↦ (
          rw none_up (choose_among-In rand wlb.weights h),
          λ other m says. absurd (keep-urls health wlb.weights other m says (ground arith)),
        )
        | inr some_up ↦
            let ne : length up ≢ 0 = ground arith in
            let (found, says) = urls-keep health wlb.weights _ (choose_among-In rand up ne) in
            (rw some_up found, λ other m _. rw some_up says)
      ]

  urls-raw_weights : (a : Analyzer F) (l : List GoString) → urls (raw_weights a l) ≡ l
  unfolding raw_weights
  urls-raw_weights a [] = refl
  urls-raw_weights a (u ∷ l) = ap (λ t. u ∷ t) (urls-raw_weights a l)

  urls-divide_all : (total : F) (ws : List (BackendWeight F)) → urls (divide_all total ws) ≡ urls ws
  unfolding divide_all
  urls-divide_all total [] = refl
  urls-divide_all total (w ∷ ws) = ap (λ t. w.url ∷ t) (urls-divide_all total ws)

  urls-append : (l m : List (BackendWeight F)) → urls (l ++ m) ≡ urls l ++ urls m
  urls-append [] m = refl
  urls-append (w ∷ l) m = ap (λ t. w.url ∷ t) (urls-append l m)

  -- The weights of a new balancer, of a rebalanced one, and of one to which a backend is added are for its
  -- backends, each in its place.
  urls_lem :
      (wlb : WeightedLoadBalancer F) (a : Analyzer F) (backends : List GoString) (n : ℕ)
      (url : GoString)
      → (urls (new_weighted_load_balancer {F = F} backends n).weights ≡ backends)
        × (urls (rebalance wlb a).weights ≡ (rebalance wlb a).backends)
        × (urls wlb.weights ≡ wlb.backends
            → urls (add_backend wlb url).weights ≡ (add_backend wlb url).backends)
  unfolding rebalance new_weighted_load_balancer add_backend
  urls_lem wlb a backends n url =
      let raw = raw_weights a wlb.backends in
      (
        urls-equal_weights backends _,
        elim (Bool-cases (lt (of_nat 0) (sum_from (of_nat 0) raw))) [
          | inl pos ↦ rw pos (urls-divide_all _ raw ∙ urls-raw_weights a wlb.backends)
          | inr zero_sum ↦ rw zero_sum (urls-raw_weights a wlb.backends)
        ],
        λ e. urls-append wlb.weights _ ∙ ap (λ l. l ++ (url ∷ [])) e,
      )
