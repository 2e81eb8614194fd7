-- ===== src/Analytics/Store/Ranges.antt =====
-- internal/analytics/store.go: what `GetAllBuckets` and `GetBackendBuckets` have for a key.
use microgate.Base.{
  ℕ, ◌≡◌, refl, sym, false, Option, none, some, List, [], ◌∷◌, ltb, GoString, GoMap, lookup,
  Distinct, str_eq, str_eq_iff, length, arith, Bool-cases, inl, inr,
}
use microgate.Analytics.Store.{
  Bucket, Minutes, minutes_or_empty, collect_buckets, collect_all, buckets_in, sort_by_time,
}

abbrev pub buckets_or_empty : Option (List Bucket) → List Bucket
buckets_or_empty none = []
buckets_or_empty (some bs) = bs

lookup-collect_all-none :
    (m : GoMap Minutes) (from to : ℕ) (key : GoString)
    → lookup key m ≡ none
    → lookup key (collect_all m from to) ≡ none
unfolding lookup collect_all
lookup-collect_all-none [] from to key h = refl
lookup-collect_all-none ((k, inner) ∷ m) from to key h =
    ground (arith, lookup-collect_all-none m from to key)

pub collect_all-Distinct :
    (m : GoMap Minutes) (from to : ℕ) → Distinct m → Distinct (collect_all m from to)
unfolding collect_all
collect_all-Distinct [] from to d = tt
collect_all-Distinct ((k, inner) ∷ m) from to (new, d) =
    let rest = collect_all-Distinct m from to d in
    let out = lookup-collect_all-none m from to k new in
    elim (Bool-cases (ltb 0 (length (collect_buckets inner from to)))) [
      | inl full ↦ rw full (out, rest)
      | inr empty ↦ rw empty rest
    ]

empty-eq : (bs : List Bucket) → ltb 0 (length bs) ≡ false → bs ≡ []
empty-eq [] h = refl
empty-eq (b ∷ bs) h = ground arith

pub lookup-collect_all :
    (m : GoMap Minutes) (from to : ℕ) (key : GoString)
    → Distinct m
    → buckets_or_empty (lookup key (collect_all m from to))
      ≡ collect_buckets (minutes_or_empty (lookup key m)) from to
unfolding lookup collect_all collect_buckets buckets_in sort_by_time
lookup-collect_all [] from to key d = refl
lookup-collect_all ((k, inner) ∷ m) from to key (new, d) =
    let bs = collect_buckets inner from to in
    let rest = lookup-collect_all m from to key d in
    elim (Bool-cases (ltb 0 (length bs))) [
      | inl full ↦ rw full (ground (arith, rest))
      | inr empty ↦
          let none_left = empty-eq bs empty in
          rw empty (elim (Bool-cases (str_eq k key)) [
            | inr other ↦ rw other rest
            | inl same ↦
                let gone : lookup key m ≡ none = rw (sym ((str_eq_iff k key).0 same)) new in
                rw (same, lookup-collect_all-none m from to key gone) (sym none_left)
          ])
    ]
