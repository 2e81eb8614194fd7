-- ===== src/Analytics/Store/Laws.antt =====
-- internal/analytics/store.go: what the buckets hold after a history of events.
use microgate.Base.{
  ℕ, ◌+◌, ◌≡◌, ◌≢◌, ◌∙◌, refl, Bool, false, Option, none, some, List, [], ◌∷◌, if◌then◌else◌, leb,
  ◌==◌, GoString, GoMap, lookup, lookup-insert, str_eq, str_eq_iff, length, keep, arith, Bool-cases,
  inl, inr,
}
use microgate.Base.Int.{ℤ, pos, ◌+ℤ◌}
use microgate.Analytics.Store.{
  TrafficEvent, Bucket, Minutes, find, put, MemoryTrafficStore, new_memory_traffic_store,
  minutes_or_empty, fresh_bucket, bucket_or, add_event, record_into, minute_of, record_event,
}

-- The bucket of a route or a backend for a minute.
abbrev pub bucket_at : GoMap Minutes → GoString → ℕ → Option Bucket
bucket_at m key t = find t (minutes_or_empty (lookup key m))

find-put :
    (t u : ℕ) (b : Bucket) (m : Minutes)
    → find u (put t b m) ≡ (if t == u then some b else find u m)
unfolding find put
find-put t u b [] = refl
find-put t u b ((ts, c) ∷ m) = ground (arith, find-put t u b m)

pub bucket_at-record_into :
    (m : GoMap Minutes) (key k : GoString) (t u : ℕ) (e : TrafficEvent)
    → bucket_at (record_into m key t e) k u ≡ (
        if str_eq key k
        then (if t == u
            then some (add_event (bucket_or (bucket_at m key t) (fresh_bucket key t)) e)
            else bucket_at m k u)
        else bucket_at m k u)
unfolding record_into
bucket_at-record_into m key k t u e =
    let inner = minutes_or_empty (lookup key m) in
    let b = bucket_or (find t inner) (fresh_bucket key t) in
    ground (
      arith,
      lookup-insert key k (put t (add_event b e) inner) m,
      str_eq_iff key k,
      find-put t u (add_event b e) inner,
    )

-- The events, the last recorded first, that belong to a key and a minute.
abbrev belongs : (TrafficEvent → GoString) → GoString → ℕ → TrafficEvent → Bool
belongs key_of key t e = if str_eq (key_of e) key then minute_of e == t else false

abbrev pub is_error : TrafficEvent → Bool
is_error e = leb 500 e.status

abbrev pub sum_of : (TrafficEvent → ℕ) → List TrafficEvent → ℕ
sum_of f [] = 0
sum_of f (e ∷ es) = f e + sum_of f es

abbrev pub greatest : (TrafficEvent → ℕ) → List TrafficEvent → ℕ
greatest f [] = 0
greatest f (e ∷ es) = if leb (f e) (greatest f es) then greatest f es else f e

abbrev pub sum_of_ℤ : (TrafficEvent → ℤ) → List TrafficEvent → ℤ
sum_of_ℤ f [] = pos 0
sum_of_ℤ f (e ∷ es) = sum_of_ℤ f es +ℤ f e

-- What a bucket says of the events that it stands for.
abbrev pub totals : GoString → ℕ → List TrafficEvent → Bucket
totals key t es = record {
  route = key;
  timestamp = t;
  request_count = length es;
  error_count = length (keep is_error es);
  total_latency = sum_of (λ e. e.latency) es;
  max_latency = greatest (λ e. e.latency) es;
  bytes_in = sum_of_ℤ (λ e. e.bytes_in) es;
  bytes_out = sum_of (λ e. e.bytes_out) es;
}

abbrev pub summary : GoString → ℕ → List TrafficEvent → Option Bucket
summary key t [] = none
summary key t (e ∷ es) = some (totals key t (e ∷ es))

summary-or :
    (key : GoString) (t : ℕ) (es : List TrafficEvent)
    → bucket_or (summary key t es) (fresh_bucket key t) ≡ totals key t es
unfolding fresh_bucket keep
summary-or key t [] = refl
summary-or key t (e ∷ es) = refl

totals-cons :
    (key : GoString) (t : ℕ) (e : TrafficEvent) (es : List TrafficEvent)
    → add_event (totals key t es) e ≡ totals key t (e ∷ es)
unfolding add_event keep
totals-cons key t e es = ground arith

-- The store after the events, the last one recorded first in the list.
unfoldable pub recorded : ℕ → List TrafficEvent → MemoryTrafficStore
recorded retention [] = new_memory_traffic_store retention
recorded retention (e ∷ older) = record_event (recorded retention older) e

added_to_summary :
    (key : GoString) (t : ℕ) (e : TrafficEvent) (es : List TrafficEvent) (m : GoMap Minutes)
    → bucket_at m key t ≡ summary key t es
    → some (add_event (bucket_or (bucket_at m key t) (fresh_bucket key t)) e)
      ≡ summary key t (e ∷ es)
added_to_summary key t e es m h = rw (h, summary-or key t es, totals-cons key t e es) refl

recorded_step :
    (key_of : TrafficEvent → GoString) (m : GoMap Minutes) (e : TrafficEvent)
    (es : List TrafficEvent) (key : GoString) (t : ℕ)
    → bucket_at m key t ≡ summary key t (keep (belongs key_of key t) es)
    → bucket_at (record_into m (key_of e) (minute_of e) e) key t
      ≡ summary key t (keep (belongs key_of key t) (e ∷ es))
unfolding keep
recorded_step key_of m e es key t h =
    let same = bucket_at-record_into m (key_of e) key (minute_of e) t e in
    let mine = keep (belongs key_of key t) es in
    elim (Bool-cases (str_eq (key_of e) key)) [
      | inr other ↦ same ∙ rw other h
      | inl here ↦ elim (Bool-cases (minute_of e == t)) [
        | inr other ↦ same ∙ rw (here, other) h
        | inl now ↦
            let k : key_of e ≡ key = (str_eq_iff (key_of e) key).0 here in
            let u : minute_of e ≡ t = ground arith in
            same ∙ rw (here, now) (rw (k, u) (added_to_summary key t e mine m h))
      ]
    ]

pub routes_lem :
    (retention : ℕ) (es : List TrafficEvent) (key : GoString) (t : ℕ)
    → bucket_at (recorded retention es).routes key t
      ≡ summary key t (keep (belongs (λ e. e.route) key t) es)
unfolding recorded new_memory_traffic_store lookup find keep record_event
routes_lem retention [] key t = refl
routes_lem retention (e ∷ es) key t =
    recorded_step (λ e. e.route) (recorded retention es).routes e es key t
      (routes_lem retention es key t)

pub backends_lem :
    (retention : ℕ) (es : List TrafficEvent) (key : GoString) (t : ℕ)
    → key ≢ []
    → bucket_at (recorded retention es).backends key t
      ≡ summary key t (keep (belongs (λ e. e.backend) key t) es)
unfolding recorded new_memory_traffic_store lookup find keep record_event
backends_lem retention [] key t ne = refl
backends_lem retention (e ∷ es) key t ne =
    let rest = backends_lem retention es key t ne in
    elim (Bool-cases (str_eq e.backend [])) [
      | inr named ↦
          rw named (recorded_step (λ e. e.backend) (recorded retention es).backends e es key t rest)
      | inl unnamed ↦
          let other : str_eq e.backend key ≡ false =
            ground (arith, str_eq_iff e.backend key, str_eq_iff e.backend []) in
          rw (unnamed, other) rest
    ]

-- After any history of events, the bucket of a route for a minute is there exactly if an event of the route fell
-- into that minute, and then says how many there were, how many of them failed, and the sums of their sizes, the
-- sum and the greatest of their latencies. The same holds of a backend, by the events that name it.
pub history_lem :
    (retention : ℕ) (es : List TrafficEvent) (key : GoString) (t : ℕ)
    → let s = recorded retention es in
      (bucket_at s.routes key t ≡ summary key t (keep (belongs (λ e. e.route) key t) es))
      × (key ≢ []
          → bucket_at s.backends key t ≡ summary key t (keep (belongs (λ e. e.backend) key t) es))
history_lem retention es key t = (routes_lem retention es key t, backends_lem retention es key t)
