-- ===== src/Analytics/Store/Cleanup.antt =====
-- internal/analytics/store.go: what a cleanup drops.
use microgate.Base.{
  ℕ, ◌-◌, ◌≡◌, ◌∙◌, refl, sym, true, none, List, [], ◌∷◌, if◌then◌else◌, ltb, ◌==◌, GoString, GoMap,
  lookup, insert-Distinct, Distinct, str_eq, str_eq_iff, length, arith, Bool-cases, inl, inr,
}
use microgate.Analytics.Store.{
  TrafficEvent, Minutes, find, MemoryTrafficStore, new_memory_traffic_store, record_into, minute_of,
  record_event, prune_minutes, prune_map, cleanup,
}
use microgate.Analytics.Store.Laws.{bucket_at, recorded}

find-prune_minutes :
    (m : Minutes) (cutoff t : ℕ)
    → find t (prune_minutes m cutoff) ≡ (if ltb t cutoff then none else find t m)
unfolding find prune_minutes
find-prune_minutes [] cutoff t = ground arith
find-prune_minutes ((ts, b) ∷ m) cutoff t = ground (arith, find-prune_minutes m cutoff t)

find-empty : (m : Minutes) (t : ℕ) → (length m == 0) ≡ true → find t m ≡ none
unfolding find
find-empty [] t e = refl
find-empty (x ∷ m) t e = ground arith

lookup-prune_map-none :
    (m : GoMap Minutes) (cutoff : ℕ) (key : GoString)
    → lookup key m ≡ none
    → lookup key (prune_map m cutoff) ≡ none
unfolding lookup prune_map
lookup-prune_map-none [] cutoff key h = refl
lookup-prune_map-none ((k, inner) ∷ m) cutoff key h =
    ground (arith, lookup-prune_map-none m cutoff key)

bucket_at-prune_map :
    (m : GoMap Minutes) (cutoff : ℕ) (key : GoString) (t : ℕ)
    → Distinct m
    → bucket_at (prune_map m cutoff) key t ≡ (if ltb t cutoff then none else bucket_at m key t)
unfolding lookup prune_map find
bucket_at-prune_map [] cutoff key t d = ground arith
bucket_at-prune_map ((k, inner) ∷ m) cutoff key t (new, d) =
    let kept = prune_minutes inner cutoff in
    let rest = bucket_at-prune_map m cutoff key t d in
    let here = find-prune_minutes inner cutoff t in
    elim (Bool-cases (str_eq k key)) [
      | inr other ↦ rw other (elim (Bool-cases (length kept == 0)) [
        | inl empty ↦ rw empty rest
        | inr full ↦ rw (full, other) rest
      ])
      | inl same ↦ elim (Bool-cases (length kept == 0)) [
        | inl empty ↦
            let gone : lookup key m ≡ none = rw (sym ((str_eq_iff k key).0 same)) new in
            rw (empty, same, lookup-prune_map-none m cutoff key gone)
              (sym (find-empty kept t empty) ∙ here)
        | inr full ↦ rw (full, same) here
      ]
    ]

record_into-Distinct :
    (m : GoMap Minutes) (key : GoString) (t : ℕ) (e : TrafficEvent)
    → Distinct m
    → Distinct (record_into m key t e)
unfolding record_into
record_into-Distinct m key t e d = insert-Distinct key _ m d

pub recorded-Distinct :
    (retention : ℕ) (es : List TrafficEvent)
    → Distinct (recorded retention es).routes × Distinct (recorded retention es).backends
unfolding recorded new_memory_traffic_store record_event
recorded-Distinct retention [] = (tt, tt)
recorded-Distinct retention (e ∷ es) =
    let s = recorded retention es in
    let (d, b) = recorded-Distinct retention es in
    (
      record_into-Distinct s.routes e.route (minute_of e) e d,
      elim (Bool-cases (str_eq e.backend [])) [
        | inl unnamed ↦ rw unnamed b
        | inr named ↦ rw named (record_into-Distinct s.backends e.backend (minute_of e) e b)
      ],
    )

-- A cleanup drops the buckets whose minute began more than the retention period ago and keeps each other
-- one as it is, for routes and backends alike, in a store whose maps hold each key once.
pub cleanup_lem :
    (s : MemoryTrafficStore) (now : ℕ) (key : GoString) (t : ℕ)
    → Distinct s.routes
    → Distinct s.backends
    → let cutoff = now - s.retention in
      let s' = cleanup s now in
      (bucket_at s'.routes key t ≡ (if ltb t cutoff then none else bucket_at s.routes key t))
      × (bucket_at s'.backends key t ≡ (if ltb t cutoff then none else bucket_at s.backends key t))
unfolding cleanup
cleanup_lem s now key t d b =
    let cutoff = now - s.retention in
    (bucket_at-prune_map s.routes cutoff key t d, bucket_at-prune_map s.backends cutoff key t b)
