-- ===== src/Proxy/Router/Laws.antt =====
-- internal/proxy/proxy.go: what the swap of a selector and a backend added later do to requests.
use mathlib.Core.Option.{some-ne-none}
use microgate.Base.{
  get_elem?-append, get_elem?-length, ℕ, ◌≤◌, ◌<◌, ◌≡◌, ◌∙◌, refl, sym, ap, inl, inr, Bool, Option,
  none, some, List, [], ◌∷◌, true, false, GoString, GoMap, lookup, insert, lookup-insert,
  str_eq_refl, length, length-append, get_elem?, set, get_elem?-set_ne, arith, Bool-cases,
  Option-cases, has_prefix,
}
use microgate.Base.Floats.{Float64}
use microgate.Config.{Route, get_backends}
use microgate.Proxy.LoadBalancer.{new_load_balancer}
use microgate.Proxy.Router.{
  Selector, plain, not_found, moved, Proxy, Reply, add_route, add_routes, new_proxy, better,
  longest_match, is_redirected, set_route_selector, add_to, add_at, add_backend, serve, serve_at,
}

-- Every handler's selector is there.
abbrev pub AllBelow : ℕ → GoMap ℕ → Type 0
AllBelow n [] = Unit
AllBelow n ((pattern, ref) ∷ m) = (ref < n) × AllBelow n m

abbrev pub IsWired : {F : Type 0} → Proxy F → Type 0
IsWired p = AllBelow (length p.selectors) p.mux

abbrev Below : ℕ → Option (GoString × ℕ) → Type 0
Below n none = Unit
Below n (some (pattern, ref)) = ref < n

better-lt :
    (n : ℕ) (pattern : GoString) (ref : ℕ) (o : Option (GoString × ℕ))
    → ref < n
    → Below n o
    → (better (pattern, ref) o).1 < n
unfolding better
better-lt n pattern ref none h k = h
better-lt n pattern ref (some (other, r)) h k = ground arith

longest_match-Below :
    (path : GoString) (n : ℕ) (m : GoMap ℕ) → AllBelow n m → Below n (longest_match path m)
unfolding longest_match
longest_match-Below path n [] h = tt
longest_match-Below path n ((pattern, ref) ∷ m) (h, hs) =
    elim (Bool-cases (has_prefix path pattern)) [
      | inl fits ↦ rw fits (better-lt n pattern ref _ h (longest_match-Below path n m hs))
      | inr not ↦ rw not (longest_match-Below path n m hs)
    ]

AllBelow-weaken : (n k : ℕ) (m : GoMap ℕ) → n ≤ k → AllBelow n m → AllBelow k m
AllBelow-weaken n k [] le h = tt
AllBelow-weaken n k ((pattern, ref) ∷ m) le (h, hs) = (omega arith, AllBelow-weaken n k m le hs)

AllBelow-insert :
    (n : ℕ) (key : GoString) (ref : ℕ) (m : GoMap ℕ)
    → ref < n
    → AllBelow n m
    → AllBelow n (insert key ref m)
unfolding insert
AllBelow-insert n key ref [] h hs = (h, tt)
AllBelow-insert n key ref ((k, r) ∷ m) h (first, hs) =
    ground (arith, AllBelow-insert n key ref m h hs)

add_route-IsWired :
    {F : Type 0} (p : Proxy F) (route : Route) → IsWired p → IsWired (add_route p route)
unfolding add_route
add_route-IsWired p route h =
    let n = length p.selectors in
    let grown =
      length-append p.selectors
        (plain (new_load_balancer (get_backends route) route.strategy) ∷ []) in
    AllBelow-insert _ _ n p.mux (omega (arith, grown))
      (AllBelow-weaken n _ p.mux (omega (arith, grown)) h)

add_routes-IsWired :
    {F : Type 0} (p : Proxy F) (routes : List Route) → IsWired p → IsWired (add_routes p routes)
unfolding add_routes
add_routes-IsWired p [] h = h
add_routes-IsWired p (route ∷ rest) h =
    add_routes-IsWired (add_route p route) rest (add_route-IsWired p route h)

-- `NewProxy` gives every handler a selector that is there.
pub new_proxy-IsWired : (F : Type 0) (routes : List Route) → IsWired (new_proxy {F = F} routes)
unfolding new_proxy
new_proxy-IsWired F routes = add_routes-IsWired _ routes tt

module _ {F : Type 0} ⦃f : Float64 F⦄ (parses : GoString → Bool) where
  -- What a request for a path gets.
  abbrev pub reply_of : Proxy F → GoString → Option (GoString → Bool) → (ℕ → ℕ) → F → Reply
  reply_of p path health intn rand = (serve parses p path health intn rand).0

  serve_at-reply :
      (p q : Proxy F) (ref : ℕ) (health : Option (GoString → Bool)) (intn : ℕ → ℕ) (rand : F)
      (o : Option (Selector F))
      → (serve_at parses q ref health intn rand o).0 ≡ (serve_at parses p ref health intn rand o).0
  unfolding serve_at
  serve_at-reply p q ref health intn rand none = refl
  serve_at-reply p q ref health intn rand (some s) = refl

  reply_of-moved :
      (p : Proxy F) (path : GoString) (health : Option (GoString → Bool)) (intn : ℕ → ℕ) (rand : F)
      → is_redirected path p.mux ≡ true
      → reply_of p path health intn rand ≡ moved
  unfolding serve
  reply_of-moved p path health intn rand r = rw (r, reply_of, serve) refl

  reply_of-none :
      (p : Proxy F) (path : GoString) (health : Option (GoString → Bool)) (intn : ℕ → ℕ) (rand : F)
      → is_redirected path p.mux ≡ false
      → longest_match path p.mux ≡ none
      → reply_of p path health intn rand ≡ not_found
  unfolding serve
  reply_of-none p path health intn rand r m = rw (r, m, reply_of, serve) refl

  reply_of-some :
      (p : Proxy F) (path : GoString) (health : Option (GoString → Bool)) (intn : ℕ → ℕ) (rand : F)
      (pattern : GoString) (ref : ℕ)
      → is_redirected path p.mux ≡ false
      → longest_match path p.mux ≡ some (pattern, ref)
      → reply_of p path health intn rand
        ≡ (serve_at parses p ref health intn rand (get_elem? p.selectors ref)).0
  unfolding serve
  reply_of-some p path health intn rand pattern ref r m = rw (r, m, reply_of, serve) refl

  reply_of-congr :
      (p q : Proxy F) (path : GoString) (health : Option (GoString → Bool)) (intn : ℕ → ℕ)
      (rand : F)
      → IsWired p
      → q.mux ≡ p.mux
      → ((i : ℕ) → i < length p.selectors → get_elem? q.selectors i ≡ get_elem? p.selectors i)
      → reply_of q path health intn rand ≡ reply_of p path health intn rand
  reply_of-congr p q path health intn rand h e same =
      let below = longest_match-Below path (length p.selectors) p.mux h in
      elim (Bool-cases (is_redirected path p.mux)) [
        | inl r ↦
            reply_of-moved q path health intn rand (ap (is_redirected path) e ∙ r)
            ∙ sym (reply_of-moved p path health intn rand r)
        | inr r ↦
            let r' = ap (is_redirected path) e ∙ r in
            elim (Option-cases (longest_match path p.mux)) [
              | inl m ↦
                  reply_of-none q path health intn rand r' (ap (longest_match path) e ∙ m)
                  ∙ sym (reply_of-none p path health intn rand r m)
              | inr ((pattern, ref), m) ↦
                  let here : ref < length p.selectors = rw m at below in
                  reply_of-some q path health intn rand pattern ref r'
                    (ap (longest_match path) e ∙ m)
                  ∙ ap (λ o. (serve_at parses q ref health intn rand o).0) (same ref here)
                  ∙ serve_at-reply p q ref health intn rand (get_elem? p.selectors ref)
                  ∙ sym (reply_of-some p path health intn rand pattern ref r m)
            ]
      ]

  add_backend-found :
      (p : Proxy F) (route url : GoString) (ref : ℕ) (s : Selector F)
      → lookup route p.routes ≡ some ref
      → get_elem? p.selectors ref ≡ some s
      → add_backend p route url ≡ some (record p { selectors = set p.selectors ref (add_to s url) })
  unfolding add_backend add_at
  add_backend-found p route url ref s e found = rw (e, found, add_backend, add_at) refl

  -- On a proxy whose handlers all have their selector, as `NewProxy` makes it, the selector that
  -- `SetRouteSelector` sets never serves: every request gets the reply that it got before the swap, and
  -- so it does after a backend was added to the route, which succeeds.
  pub swapped_selector_unused :
      (p : Proxy F) (route url : GoString) (selector : Selector F)
      → IsWired p
      → let swapped = set_route_selector p route selector in
        (later : Proxy F) × (add_backend swapped route url ≡ some later)
        × ((path : GoString) (health : Option (GoString → Bool)) (intn : ℕ → ℕ) (rand : F)
            → (reply_of swapped path health intn rand ≡ reply_of p path health intn rand)
              × (reply_of later path health intn rand ≡ reply_of p path health intn rand))
  unfolding set_route_selector add_backend add_at
  swapped_selector_unused p route url selector h =
      let swapped = set_route_selector p route selector in
      let n = length p.selectors in
      let later : Proxy F = record swapped {
        selectors = set swapped.selectors n (add_to selector url);
      } in
      let kept : (i : ℕ) → i < n → get_elem? swapped.selectors i ≡ get_elem? p.selectors i =
        λ i lt. get_elem?-append p.selectors (selector ∷ []) i lt in
      (
        later,
        add_backend-found swapped route url n selector
            (lookup-insert route route n p.routes ∙ rw (str_eq_refl route) refl)
            (get_elem?-length p.selectors selector),
        λ path health intn rand. (
          reply_of-congr p swapped path health intn rand h refl kept,
          reply_of-congr p later path health intn rand h refl (λ i lt.
              get_elem?-set_ne swapped.selectors (add_to selector url) (λ (e : n ≡ i). omega arith)
              ∙ kept i lt),
        ),
      )

-- Only an unknown route makes `AddBackend` fail.
pub add_backend-none :
    {F : Type 0} ⦃f : Float64 F⦄
    → (p : Proxy F) (route url : GoString) → add_backend p route url ≡ none
    → lookup route p.routes ≡ none
unfolding add_backend
add_backend-none p route url e = elim (Option-cases (lookup route p.routes)) [
  | inl unknown ↦ unknown
  | inr (ref, known) ↦
      let found : add_backend p route url ≡ some (add_at p url ref (get_elem? p.selectors ref)) =
        rw (add_backend, known) refl in
      absurd (some-ne-none (add_at p url ref (get_elem? p.selectors ref)) (sym found ∙ e))
]
