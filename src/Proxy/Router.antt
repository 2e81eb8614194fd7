-- ===== src/Proxy/Router.antt =====
-- internal/proxy/proxy.go. Selectors are pointers: `selectors` is the heap, and both the map of routes
-- and the handlers' closures hold places in it. A handler keeps the selector that was made with it.
pub mod Laws
pub mod Added
use microgate.Base.{
  keys, sort_strings, ℕ, zero, suc, ◌+◌, Bool, true, false, Option, none, some, List, [], ◌∷◌, ◌++◌,
  if◌then◌else◌, ◌==◌, ltb, leb, GoString, GoMap, lookup, insert, str_eq, has_prefix, length,
  get_elem?, set, lit, keys,
}
use microgate.Base.Floats.{Float64}
use microgate.Config.{Route, get_backends}
use microgate.Proxy.LoadBalancer.{LoadBalancer, new_load_balancer}
use microgate.Proxy.LoadBalancer as Plain
use microgate.Proxy.Weighted.{WeightedLoadBalancer}
use microgate.Proxy.Weighted

-- A `BackendSelector`.
pub data Selector (F : Type 0) : Type 0 where
  plain : LoadBalancer → Selector F
  weighted : WeightedLoadBalancer F → Selector F

pub record Proxy (F : Type 0) : Type 0 where
  pub selectors : List (Selector F)
  pub mux : GoMap ℕ
  pub routes : GoMap ℕ

-- What a handler does with a request.
pub data Reply : Type 0 where
  not_found moved unavailable bad_url : Reply
  forward : GoString → Reply

-- Of two matches, the one with the longer pattern.
better : GoString × ℕ → Option (GoString × ℕ) → GoString × ℕ
better (pattern, ref) none = (pattern, ref)
better (pattern, ref) (some (other, r)) =
    if ltb (length pattern) (length other) then (other, r) else (pattern, ref)

-- net/http serves a path by the longest pattern that is a prefix of it.
unfoldable pub longest_match : GoString → GoMap ℕ → Option (GoString × ℕ)
unfolding better
longest_match path [] = none
longest_match path ((pattern, ref) ∷ m) =
    if has_prefix path pattern
    then some (better (pattern, ref) (longest_match path m))
    else longest_match path m

is_registered : GoString → GoMap ℕ → Bool
is_registered pattern m = elim (lookup pattern m) [ none ↦ false | some ref ↦ true ]

-- net/http answers a path that lacks only the last slash of a pattern by a redirection. The paths here
-- are clean (no `..` and no `//`), which it sees to in the same way.
unfoldable pub is_redirected : GoString → GoMap ℕ → Bool
unfolding is_registered
is_redirected path m = if is_registered path m then false else is_registered (path ++ lit "/") m

-- What the handler that `NewProxy` registers does with the backend that was chosen.
unfoldable pub reply_to : (GoString → Bool) → GoString → Reply
reply_to parses backend =
    if str_eq backend [] then unavailable else if parses backend then forward backend else bad_url

module _ {F : Type 0} where
  -- The body of the loop of `NewProxy`. (Two routes with one path make net/http panic.)
  unfoldable pub add_route : Proxy F → Route → Proxy F
  add_route p route =
      let lb = new_load_balancer (get_backends route) route.strategy in
      let ref = length p.selectors in
      record {
        selectors = p.selectors ++ (plain lb ∷ []);
        mux = insert (route.path ++ lit "/") ref p.mux;
        routes = insert route.path ref p.routes;
      }

  add_routes : Proxy F → List Route → Proxy F
  add_routes p [] = p
  add_routes p (route ∷ rest) = add_routes (add_route p route) rest

  unfoldable pub new_proxy : List Route → Proxy F
  unfolding add_routes
  new_proxy routes = add_routes (record { selectors = []; mux = []; routes = [] }) routes

  -- The new selector is a new object, and the map of routes points to it.
  unfoldable pub set_route_selector : Proxy F → GoString → Selector F → Proxy F
  set_route_selector p route selector = record p {
    selectors = p.selectors ++ (selector ∷ []);
    routes = insert route (length p.selectors) p.routes;
  }

module _ {F : Type 0} ⦃f : Float64 F⦄ where
  unfoldable pub next : Selector F → Option (GoString → Bool) → (ℕ → ℕ) → F → GoString × Selector F
  next (plain lb) health intn rand = let (url, lb') = Plain.next lb health intn in (url, plain lb')
  next (weighted wlb) health intn rand = (Weighted.next wlb health rand, weighted wlb)

  unfoldable pub add_to : Selector F → GoString → Selector F
  add_to (plain lb) url = plain (Plain.add_backend lb url)
  add_to (weighted wlb) url = weighted (Weighted.add_backend wlb url)

  add_at : Proxy F → GoString → ℕ → Option (Selector F) → Proxy F
  add_at p url ref none = p
  add_at p url ref (some s) = record p { selectors = set p.selectors ref (add_to s url) }

  -- `none` is the error of a route that is not there.
  unfoldable pub add_backend : Proxy F → GoString → GoString → Option (Proxy F)
  unfolding add_at
  add_backend p route url = elim (lookup route p.routes) [
    | none ↦ none
    | some ref ↦ some (add_at p url ref (get_elem? p.selectors ref))
  ]

  module _ (parses : GoString → Bool) where
    serve_at :
        Proxy F → ℕ → Option (GoString → Bool) → (ℕ → ℕ) → F → Option (Selector F) → Reply × Proxy F
    unfolding reply_to
    serve_at p ref health intn rand none = (not_found, p)
    serve_at p ref health intn rand (some s) =
        let (backend, s') = next s health intn rand in
        (reply_to parses backend, record p { selectors = set p.selectors ref s' })

    unfoldable pub serve :
        Proxy F → GoString → Option (GoString → Bool) → (ℕ → ℕ) → F → Reply × Proxy F
    unfolding serve_at
    serve p path health intn rand =
        if is_redirected path p.mux then (moved, p) else elim (longest_match path p.mux) [
          | none ↦ (not_found, p)
          | some (pattern, ref) ↦ serve_at p ref health intn rand (get_elem? p.selectors ref)
        ]

unfoldable pub route_names : {F : Type 0} → Proxy F → List GoString
route_names p = sort_strings (keys p.routes)
