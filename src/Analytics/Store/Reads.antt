-- ===== src/Analytics/Store/Reads.antt =====
-- internal/analytics/store.go: what `GetBuckets` returns.
use microgate.Base.{
  ℕ, ◌+◌, ◌≤◌, ◌≡◌, ◌∙◌, refl, ap, Bool, false, List, [], ◌∷◌, if◌then◌else◌, leb, GoString, GoMap,
  lookup, lookup-insert, str_eq, str_eq_iff, length, keep, arith, Bool-cases, inl, inr,
}
use microgate.Analytics.Store.{
  TrafficEvent, Bucket, Minutes, find, put, new_memory_traffic_store, minutes_or_empty,
  fresh_bucket, bucket_or, add_event, record_into, minute_of, record_event, insert_by_time,
  sort_by_time, in_range, buckets_in, collect_buckets, get_buckets,
}
use microgate.Analytics.Store.Laws.{recorded}

-- Every bucket of the list begins at or after `t`.
abbrev AllFrom : ℕ → List Bucket → Type 0
AllFrom t [] = Unit
AllFrom t (b ∷ bs) = (t ≤ b.timestamp) × AllFrom t bs

abbrev pub IsSorted : List Bucket → Type 0
IsSorted [] = Unit
IsSorted (b ∷ bs) = AllFrom b.timestamp bs × IsSorted bs

AllFrom-weaken : (t u : ℕ) (bs : List Bucket) → t ≤ u → AllFrom u bs → AllFrom t bs
AllFrom-weaken t u [] le h = tt
AllFrom-weaken t u (b ∷ bs) le (h, hs) = (omega arith, AllFrom-weaken t u bs le hs)

AllFrom-insert_by_time :
    (t : ℕ) (b : Bucket) (bs : List Bucket)
    → t ≤ b.timestamp
    → AllFrom t bs
    → AllFrom t (insert_by_time b bs)
unfolding insert_by_time
AllFrom-insert_by_time t b [] le h = (le, tt)
AllFrom-insert_by_time t b (c ∷ cs) le (h, hs) = ground (arith, AllFrom-insert_by_time t b cs le hs)

insert_by_time-IsSorted :
    (b : Bucket) (bs : List Bucket) → IsSorted bs → IsSorted (insert_by_time b bs)
unfolding insert_by_time
insert_by_time-IsSorted b [] h = (tt, tt)
insert_by_time-IsSorted b (c ∷ cs) (after, h) = elim (Bool-cases (leb b.timestamp c.timestamp)) [
  | inl le ↦
      let first : b.timestamp ≤ c.timestamp = ground arith in
      rw le ((first, AllFrom-weaken _ _ cs first after), (after, h))
  | inr gt ↦
      let first : c.timestamp ≤ b.timestamp = ground arith in
      rw gt (AllFrom-insert_by_time c.timestamp b cs first after, insert_by_time-IsSorted b cs h)
]

sort_by_time-IsSorted : (bs : List Bucket) → IsSorted (sort_by_time bs)
unfolding sort_by_time
sort_by_time-IsSorted [] = tt
sort_by_time-IsSorted (b ∷ bs) =
    insert_by_time-IsSorted b (sort_by_time bs) (sort_by_time-IsSorted bs)

-- The number of requests that buckets stand for.
abbrev pub requests_in : List Bucket → ℕ
requests_in [] = 0
requests_in (b ∷ bs) = b.request_count + requests_in bs

requests_in-insert_by_time :
    (b : Bucket) (bs : List Bucket)
    → requests_in (insert_by_time b bs) ≡ b.request_count + requests_in bs
unfolding insert_by_time
requests_in-insert_by_time b [] = refl
requests_in-insert_by_time b (c ∷ cs) = ground (arith, requests_in-insert_by_time b cs)

requests_in-sort_by_time : (bs : List Bucket) → requests_in (sort_by_time bs) ≡ requests_in bs
unfolding sort_by_time
requests_in-sort_by_time [] = refl
requests_in-sort_by_time (b ∷ bs) =
    omega (arith, requests_in-insert_by_time b (sort_by_time bs), requests_in-sort_by_time bs)

requests_in-put :
    (key : GoString) (t from to : ℕ) (e : TrafficEvent) (m : Minutes)
    → requests_in
        (buckets_in (put t (add_event (bucket_or (find t m) (fresh_bucket key t)) e) m) from to)
      ≡ requests_in (buckets_in m from to) + (if in_range from to t then 1 else 0)
unfolding put find buckets_in add_event fresh_bucket
requests_in-put key t from to e [] = ground arith
requests_in-put key t from to e ((ts, b) ∷ m) = ground (arith, requests_in-put key t from to e m)

minutes_of-record_into :
    (m : GoMap Minutes) (key k : GoString) (t : ℕ) (e : TrafficEvent)
    → minutes_or_empty (lookup k (record_into m key t e)) ≡ (
        if str_eq key k
        then (let inner = minutes_or_empty (lookup key m) in
            put t (add_event (bucket_or (find t inner) (fresh_bucket key t)) e) inner)
        else minutes_or_empty (lookup k m))
unfolding record_into
minutes_of-record_into m key k t e =
    let inner = minutes_or_empty (lookup key m) in
    let new = put t (add_event (bucket_or (find t inner) (fresh_bucket key t)) e) inner in
    ground (arith, lookup-insert key k new m)

-- The events of a route whose minute begins in the range.
abbrev pub counts_for : GoString → ℕ → ℕ → TrafficEvent → Bool
counts_for route from to e = if str_eq e.route route then in_range from to (minute_of e) else false

requests_lem :
    (retention : ℕ) (es : List TrafficEvent) (route : GoString) (from to : ℕ)
    → requests_in
        (buckets_in (minutes_or_empty (lookup route (recorded retention es).routes)) from to)
      ≡ length (keep (counts_for route from to) es)
unfolding recorded new_memory_traffic_store record_event lookup buckets_in keep
requests_lem retention [] route from to = refl
requests_lem retention (e ∷ es) route from to =
    let m = (recorded retention es).routes in
    let t = minute_of e in
    let rest = requests_lem retention es route from to in
    let grown = requests_in-put e.route t from to e (minutes_or_empty (lookup e.route m)) in
    elim (Bool-cases (str_eq e.route route)) [
      | inr other ↦ rw (minutes_of-record_into m e.route route t e, other) rest
      | inl same ↦
          let k : e.route ≡ route = (str_eq_iff e.route route).0 same in
          let before =
            ap (λ r. requests_in (buckets_in (minutes_or_empty (lookup r m)) from to)) k in
          rw (minutes_of-record_into m e.route route t e, same)
            (ground (arith, grown, before, rest))
    ]

-- After any history of events `GetBuckets` returns buckets in the order of time, and their request counts
-- add up to the number of recorded events of the route whose minutes begin in the range.
pub get_buckets_lem :
    (retention : ℕ) (es : List TrafficEvent) (route : GoString) (from to : ℕ)
    → let buckets = get_buckets (recorded retention es) route from to in
      IsSorted buckets × (requests_in buckets ≡ length (keep (counts_for route from to) es))
unfolding get_buckets collect_buckets
get_buckets_lem retention es route from to =
    let found =
      buckets_in (minutes_or_empty (lookup route (recorded retention es).routes)) from to in
    (
      sort_by_time-IsSorted found,
      requests_in-sort_by_time found ∙ requests_lem retention es route from to,
    )
