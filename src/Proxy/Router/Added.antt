-- ===== src/Proxy/Router/Added.antt =====
-- internal/proxy/proxy.go: what `AddBackend` makes of the route's balancer and of the others.
use mathlib.Core.Path.{subst}
use microgate.Base.{
  ℕ, zero, suc, ◌<◌, ◌≡◌, ◌≢◌, refl, ap, Option, none, some, List, [], ◌∷◌, ◌++◌, inl, inr,
  GoString, lookup, length, get_elem?, get_elem?-set_self, get_elem?-set_ne, arith, Option-cases,
}
use microgate.Base.Floats.{Float64}
use microgate.Proxy.LoadBalancer.{LoadBalancer}
use microgate.Proxy.LoadBalancer as Plain
use microgate.Proxy.Weighted.{BackendWeight, WeightedLoadBalancer}
use microgate.Proxy.Weighted as Weighted
use microgate.Proxy.Router.{Selector, plain, weighted, Proxy, add_to, add_at, add_backend}

in_heap : {A : Type 0} (xs : List A) (i : ℕ) → i < length xs → (x : A) × (get_elem? xs i ≡ some x)
in_heap [] i h = elim h [ ]
in_heap (x ∷ xs) zero h = (x, refl)
in_heap (x ∷ xs) (suc i) h = in_heap xs i (omega arith)

module _ {F : Type 0} where
  -- Each route's selector is in the heap.
  abbrev pub IsWired : Proxy F → Type 0
  IsWired p =
      (route : GoString) (ref : ℕ) → lookup route p.routes ≡ some ref → ref < length p.selectors

  abbrev urls : List (BackendWeight F) → List GoString
  urls [] = []
  urls (w ∷ ws) = w.url ∷ urls ws

  -- The URLs that a selector chooses from, in its order: for a weighted one those that have a weight.
  abbrev pub choices : Selector F → List GoString
  choices (plain lb) = lb.backends
  choices (weighted wlb) = urls wlb.weights

  urls-append :
      (ws : List (BackendWeight F)) (w : BackendWeight F)
      → urls (ws ++ (w ∷ [])) ≡ urls ws ++ (w.url ∷ [])
  urls-append [] w = refl
  urls-append (v ∷ ws) w = ap (λ us. v.url ∷ us) (urls-append ws w)

module _ {F : Type 0} ⦃f : Float64 F⦄ where
  choices-add_to :
      (s : Selector F) (url : GoString) → choices (add_to s url) ≡ choices s ++ (url ∷ [])
  unfolding add_to Plain.add_backend Weighted.add_backend
  choices-add_to (plain lb) url = refl
  choices-add_to (weighted wlb) url = urls-append wlb.weights _

  -- The selector of the route chooses from one more URL, the new one, and all others are as they were.
  abbrev pub Added : Proxy F → GoString → GoString → Proxy F → Type 0
  Added p route url p' =
      (ref : ℕ) × (before : Selector F) × (after : Selector F) × (lookup route p.routes ≡ some ref)
      × (get_elem? p.selectors ref ≡ some before)
      × (get_elem? p'.selectors ref ≡ some after)
      × (choices after ≡ choices before ++ (url ∷ []))
      × ((other : ℕ) → ref ≢ other → get_elem? p'.selectors other ≡ get_elem? p.selectors other)
      × (p'.routes ≡ p.routes)
      × (p'.mux ≡ p.mux)

  add_at-Added :
      (p : Proxy F) (route url : GoString) (ref : ℕ)
      → lookup route p.routes ≡ some ref
      → ref < length p.selectors
      → Added p route url (add_at p url ref (get_elem? p.selectors ref))
  unfolding add_at
  add_at-Added p route url ref known inside =
      let (s, found) = in_heap p.selectors ref inside in
      rw found (
        ref,
        s,
        add_to s url,
        known,
        found,
        get_elem?-set_self p.selectors ref (add_to s url) inside,
        choices-add_to s url,
        λ other ne. get_elem?-set_ne p.selectors (add_to s url) ne,
        refl,
        refl,
      )

  abbrev AddedAt : Proxy F → GoString → GoString → Option (Proxy F) → Type 0
  AddedAt p route url none = Unit
  AddedAt p route url (some p') = Added p route url p'

  add_backend-AddedAt :
      (p : Proxy F) (route url : GoString)
      → IsWired p
      → AddedAt p route url (add_backend p route url)
  unfolding add_backend
  add_backend-AddedAt p route url wired = elim (Option-cases (lookup route p.routes)) [
    | inl unknown ↦ rw (add_backend, unknown) tt
    | inr (ref, known) ↦
        rw (add_backend, known) (add_at-Added p route url ref known (wired route ref known))
  ]

  -- What a call that succeeds makes of a proxy whose routes all have a selector.
  pub add_backend-Added :
      (p p' : Proxy F) (route url : GoString)
      → IsWired p
      → add_backend p route url ≡ some p'
      → Added p route url p'
  add_backend-Added p p' route url wired e =
      subst (AddedAt p route url) e (add_backend-AddedAt p route url wired)
