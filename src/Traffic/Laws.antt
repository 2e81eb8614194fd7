-- ===== src/Traffic/Laws.antt =====
-- internal/middleware/traffic.go: the route that a path counts for, and the bounded channel.
use mathlib.Core.Path.{subst}
use microgate.Base.{
  ℕ, ◌≤◌, ◌≡◌, ◌∙◌, refl, sym, ap, ◌⊎◌, inl, inr, true, false, List, [], ◌∷◌, leb, GoString, length,
  In, arith, Bool-cases,
}
use microgate.Analytics.Store.{MemoryTrafficStore}
use microgate.Traffic.{
  new_traffic_recorder, insert_by_length, sort_by_length, is_under, first_prefix, normalize_route,
}

AllUpTo : ℕ → List GoString → Type 0
AllUpTo n [] = Unit
AllUpTo n (s ∷ ss) = (length s ≤ n) × AllUpTo n ss

abbrev IsDescending : List GoString → Type 0
IsDescending [] = Unit
IsDescending (s ∷ ss) = AllUpTo (length s) ss × IsDescending ss

AllUpTo-weaken : (n k : ℕ) (ss : List GoString) → n ≤ k → AllUpTo n ss → AllUpTo k ss
unfolding AllUpTo
AllUpTo-weaken n k [] le h = tt
AllUpTo-weaken n k (s ∷ ss) le (h, hs) = (omega arith, AllUpTo-weaken n k ss le hs)

AllUpTo-insert_by_length :
    (n : ℕ) (s : GoString) (ss : List GoString)
    → length s ≤ n
    → AllUpTo n ss
    → AllUpTo n (insert_by_length s ss)
unfolding AllUpTo insert_by_length
AllUpTo-insert_by_length n s [] le h = (le, tt)
AllUpTo-insert_by_length n s (t ∷ ts) le (h, hs) =
    ground (arith, AllUpTo-insert_by_length n s ts le hs)

insert_by_length-IsDescending :
    (s : GoString) (ss : List GoString) → IsDescending ss → IsDescending (insert_by_length s ss)
unfolding insert_by_length AllUpTo
insert_by_length-IsDescending s [] h = (tt, tt)
insert_by_length-IsDescending s (t ∷ ts) (after, h) =
    elim (Bool-cases (leb (length t) (length s))) [
      | inl le ↦
          let first : length t ≤ length s = ground arith in
          rw le ((first, AllUpTo-weaken _ _ ts first after), (after, h))
      | inr gt ↦
          let first : length s ≤ length t = ground arith in
          rw gt (
            AllUpTo-insert_by_length (length t) s ts first after,
            insert_by_length-IsDescending s ts h,
          )
    ]

sort_by_length-IsDescending : (ss : List GoString) → IsDescending (sort_by_length ss)
unfolding sort_by_length
sort_by_length-IsDescending [] = tt
sort_by_length-IsDescending (s ∷ ss) =
    insert_by_length-IsDescending s (sort_by_length ss) (sort_by_length-IsDescending ss)

In-insert_by_length :
    (q s : GoString) (ss : List GoString)
    → (In q (insert_by_length s ss) → In q (s ∷ ss))
      × (In q (s ∷ ss) → In q (insert_by_length s ss))
unfolding insert_by_length
In-insert_by_length q s [] = (λ m. m, λ m. m)
In-insert_by_length q s (t ∷ ts) = ground (arith, In-insert_by_length q s ts)

In-sort_by_length :
    (q : GoString) (ss : List GoString)
    → (In q (sort_by_length ss) → In q ss) × (In q ss → In q (sort_by_length ss))
unfolding sort_by_length
In-sort_by_length q [] = (λ m. m, λ m. m)
In-sort_by_length q (s ∷ ss) =
    ground (arith, In-insert_by_length q s (sort_by_length ss), In-sort_by_length q ss)

In-AllUpTo : (n : ℕ) (q : GoString) (ss : List GoString) → In q ss → AllUpTo n ss → length q ≤ n
unfolding AllUpTo
In-AllUpTo n q [] m h = absurd m
In-AllUpTo n q (s ∷ ss) (inl e) (h, hs) = omega (arith, ap length {x = q} {y = s} e)
In-AllUpTo n q (s ∷ ss) (inr m) (h, hs) = In-AllUpTo n q ss m hs

-- The path counts for the longest of the prefixes that it is under, or for itself.
abbrev pub Normal : GoString → List GoString → GoString → Type 0
Normal path prefixes p =
    (In p prefixes
      × (is_under path p ≡ true)
      × ((q : GoString) → In q prefixes → is_under path q ≡ true → length q ≤ length p))
    ⊎ ((p ≡ path) × ((q : GoString) → In q prefixes → is_under path q ≡ false))

here-Normal :
    (path s : GoString) (ss : List GoString)
    → is_under path s ≡ true
    → AllUpTo (length s) ss
    → Normal path (s ∷ ss) s
here-Normal path s ss here after = inl (
  inl refl,
  here,
  λ q m under. elim m [
    | inl e ↦ omega (arith, ap length {x = q} {y = s} e)
    | inr rest ↦ In-AllUpTo (length s) q ss rest after
  ],
)

past-Normal :
    (path s p : GoString) (ss : List GoString)
    → is_under path s ≡ false
    → Normal path ss p
    → Normal path (s ∷ ss) p
past-Normal path s p ss other (inl (m, under, longest)) = inl (
  inr m,
  under,
  λ q k u. elim k [
    | inl e ↦ absurd (ground (arith, sym other ∙ ap (is_under path) (sym e) ∙ u))
    | inr rest ↦ longest q rest u
  ],
)
past-Normal path s p ss other (inr (e, out)) =
    inr (e, λ q k. elim k [ inl same ↦ ap (is_under path) same ∙ other | inr rest ↦ out q rest ])

first_prefix-Normal :
    (path : GoString) (ss : List GoString) → IsDescending ss → Normal path ss (first_prefix path ss)
unfolding first_prefix
first_prefix-Normal path [] d = inr (refl, λ q m. absurd m)
first_prefix-Normal path (s ∷ ss) (after, d) = elim (Bool-cases (is_under path s)) [
  | inl here ↦
      let e : first_prefix path (s ∷ ss) ≡ s = rw here refl in
      subst (Normal path (s ∷ ss)) (sym e) (here-Normal path s ss here after)
  | inr other ↦
      let p = first_prefix path ss in
      let e : first_prefix path (s ∷ ss) ≡ p = rw other refl in
      subst (Normal path (s ∷ ss)) (sym e)
        (past-Normal path s p ss other (first_prefix-Normal path ss d))
]

-- `NormalizeRoute` gives the longest of the configured prefixes that the path equals or continues after
-- a slash, in whatever order they are configured, and the path itself if there is none.
pub normalize_route_lem :
    (store : MemoryTrafficStore) (prefixes : List GoString) (path : GoString)
    → Normal path prefixes (normalize_route (new_traffic_recorder store prefixes) path)
unfolding normalize_route new_traffic_recorder
normalize_route_lem store prefixes path =
    let sorted = sort_by_length prefixes in
    elim (first_prefix-Normal path sorted (sort_by_length-IsDescending prefixes)) [
      | inl (m, under, longest) ↦ inl (
        (In-sort_by_length _ prefixes).0 m,
        under,
        λ q k u. longest q ((In-sort_by_length q prefixes).1 k) u,
      )
      | inr (e, out) ↦ inr (e, λ q k. out q ((In-sort_by_length q prefixes).1 k))
    ]
