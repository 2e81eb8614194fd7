-- ===== src/Analytics/Store.antt =====
-- internal/analytics/store.go. An instant is nanoseconds since Go's zero time, which is a whole
-- minute. The maps are association lists: a `range` meets the entries in list order.
pub mod Laws
pub mod Cleanup
pub mod Reads
pub mod Ranges
mod Tests
use microgate.Base.{
  ℕ, ◌+◌, ◌-◌, ◌*◌, ◌/◌, ◌%◌, Bool, true, false, Option, none, some, List, [], ◌∷◌, if◌then◌else◌,
  ltb, leb, ◌==◌, GoString, GoMap, lookup, insert, str_eq, length, keep, keys, sort_strings,
}
use microgate.Base.Int.{ℤ, pos, ◌+ℤ◌}
use microgate.Base.Floats.{Float64, ratio}
use microgate.Analytics.State.{minute, hour}

pub record TrafficEvent : Type 0 where
  pub route : GoString
  pub backend : GoString
  pub status : ℕ
  pub latency : ℕ
  pub bytes_in : ℤ
  pub bytes_out : ℕ
  pub client_ip : GoString
  pub timestamp : ℕ

pub record Bucket : Type 0 where
  pub route : GoString
  pub timestamp : ℕ
  pub request_count : ℕ
  pub error_count : ℕ
  pub total_latency : ℕ
  pub max_latency : ℕ
  pub bytes_in : ℤ
  pub bytes_out : ℕ

unfoldable pub avg_latency : Bucket → ℕ
avg_latency b = if b.request_count == 0 then 0 else b.total_latency / b.request_count

unfoldable pub error_rate : {F : Type 0} ⦃f : Float64 F⦄ → Bucket → F
error_rate ⦃f⦄ b = if b.request_count == 0 then f.of_nat 0 else ratio b.error_count b.request_count

-- `map[time.Time]*Bucket`
abbrev pub Minutes : Type 0
Minutes = List (ℕ × Bucket)

unfoldable pub find : ℕ → Minutes → Option Bucket
find t [] = none
find t ((ts, b) ∷ m) = if ts == t then some b else find t m

unfoldable pub put : ℕ → Bucket → Minutes → Minutes
put t b [] = (t, b) ∷ []
put t b ((ts, c) ∷ m) = if ts == t then (ts, b) ∷ m else (ts, c) ∷ put t b m

pub record MemoryTrafficStore : Type 0 where
  pub routes : GoMap Minutes
  pub backends : GoMap Minutes
  pub retention : ℕ

unfoldable pub new_memory_traffic_store : ℕ → MemoryTrafficStore
new_memory_traffic_store retention = record {
  routes = [];
  backends = [];
  retention = if retention == 0 then 48 * hour else retention;
}

abbrev pub minutes_or_empty : Option Minutes → Minutes
minutes_or_empty none = []
minutes_or_empty (some m) = m

unfoldable pub fresh_bucket : GoString → ℕ → Bucket
fresh_bucket key t = record {
  route = key;
  timestamp = t;
  request_count = 0;
  error_count = 0;
  total_latency = 0;
  max_latency = 0;
  bytes_in = pos 0;
  bytes_out = 0;
}

abbrev pub bucket_or : Option Bucket → Bucket → Bucket
bucket_or none b = b
bucket_or (some c) b = c

unfoldable pub add_event : Bucket → TrafficEvent → Bucket
add_event b e = record b {
  request_count = b.request_count + 1;
  total_latency = b.total_latency + e.latency;
  max_latency = if ltb b.max_latency e.latency then e.latency else b.max_latency;
  error_count = if leb 500 e.status then b.error_count + 1 else b.error_count;
  bytes_in = b.bytes_in +ℤ e.bytes_in;
  bytes_out = b.bytes_out + e.bytes_out;
}

unfoldable pub record_into : GoMap Minutes → GoString → ℕ → TrafficEvent → GoMap Minutes
unfolding find put add_event fresh_bucket
record_into m key t e =
    let inner = minutes_or_empty (lookup key m) in
    let b = bucket_or (find t inner) (fresh_bucket key t) in
    insert key (put t (add_event b e) inner) m

-- `Timestamp.Truncate(time.Minute)`
abbrev pub minute_of : TrafficEvent → ℕ
minute_of e = e.timestamp - e.timestamp % minute

unfoldable pub record_event : MemoryTrafficStore → TrafficEvent → MemoryTrafficStore
record_event s e = record s {
  routes = record_into s.routes e.route (minute_of e) e;
  backends =
      if str_eq e.backend [] then s.backends else record_into s.backends e.backend (minute_of e) e;
}

-- `sort.Slice` by time. No two buckets of a map have one time, so there is one sorted order.
unfoldable pub insert_by_time : Bucket → List Bucket → List Bucket
insert_by_time b [] = b ∷ []
insert_by_time b (c ∷ cs) =
    if leb b.timestamp c.timestamp then b ∷ c ∷ cs else c ∷ insert_by_time b cs

unfoldable pub sort_by_time : List Bucket → List Bucket
unfolding insert_by_time
sort_by_time [] = []
sort_by_time (b ∷ bs) = insert_by_time b (sort_by_time bs)

-- `!ts.Before(from) && ts.Before(to)`
abbrev pub in_range : ℕ → ℕ → ℕ → Bool
in_range from to ts = if ltb ts from then false else ltb ts to

unfoldable pub buckets_in : Minutes → ℕ → ℕ → List Bucket
buckets_in [] from to = []
buckets_in ((ts, b) ∷ m) from to =
    if in_range from to ts then b ∷ buckets_in m from to else buckets_in m from to

unfoldable pub collect_buckets : Minutes → ℕ → ℕ → List Bucket
unfolding sort_by_time buckets_in
collect_buckets m from to = sort_by_time (buckets_in m from to)

unfoldable pub get_buckets : MemoryTrafficStore → GoString → ℕ → ℕ → List Bucket
get_buckets s route from to = collect_buckets (minutes_or_empty (lookup route s.routes)) from to

unfoldable pub collect_all : GoMap Minutes → ℕ → ℕ → GoMap (List Bucket)
collect_all [] from to = []
collect_all ((key, inner) ∷ m) from to =
    let buckets = collect_buckets inner from to in
    let rest = collect_all m from to in
    if ltb 0 (length buckets) then (key, buckets) ∷ rest else rest

unfoldable pub get_all_buckets : MemoryTrafficStore → ℕ → ℕ → GoMap (List Bucket)
get_all_buckets s from to = collect_all s.routes from to

unfoldable pub get_backend_buckets : MemoryTrafficStore → ℕ → ℕ → GoMap (List Bucket)
get_backend_buckets s from to = collect_all s.backends from to

unfoldable pub get_routes : MemoryTrafficStore → List GoString
get_routes s = sort_strings (keys s.routes)

unfoldable pub prune_minutes : Minutes → ℕ → Minutes
prune_minutes [] cutoff = []
prune_minutes ((ts, b) ∷ m) cutoff =
    if ltb ts cutoff then prune_minutes m cutoff else (ts, b) ∷ prune_minutes m cutoff

unfoldable pub prune_map : GoMap Minutes → ℕ → GoMap Minutes
unfolding prune_minutes
prune_map [] cutoff = []
prune_map ((key, inner) ∷ m) cutoff =
    let kept = prune_minutes inner cutoff in
    let rest = prune_map m cutoff in if length kept == 0 then rest else (key, kept) ∷ rest

unfoldable pub cleanup : MemoryTrafficStore → ℕ → MemoryTrafficStore
unfolding prune_map
cleanup s now =
    let cutoff = now - s.retention in
    record s { routes = prune_map s.routes cutoff; backends = prune_map s.backends cutoff }
