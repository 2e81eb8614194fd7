-- ===== src/Dashboard/LogStore.antt =====
-- internal/dashboard/store.go: the ring of recent request logs and its reads. `mu` makes each
-- operation one step. A number that is not positive is 0 where the code treats them alike.
pub mod Reads
pub mod Metrics
mod Tests
use microgate.Base.{
  ℕ, zero, suc, ◌+◌, ◌-◌, ◌≤◌, Bool, true, false, not, ◌&&◌, ◌||◌, Option, none, some, List, [],
  ◌∷◌, if◌then◌else◌, ltb, leb, ◌==◌, get_or, length, replicate, GoString, str_eq, has_prefix, min,
}
use microgate.Base.Int.{ℤ, pos}
use microgate.Dashboard.Ring.{Ring, push, back}

pub record RequestLog : Type 0 where
  pub id : GoString
  pub timestamp : ℕ
  pub method : GoString
  pub path : GoString
  pub status : ℕ
  pub latency : ℕ
  pub client_ip : GoString
  pub bytes_in : ℤ
  pub bytes_out : ℕ
  pub backend : GoString
  pub error : GoString

-- `RequestLog{}`
abbrev pub zero_log : RequestLog
zero_log = record {
  id = [];
  timestamp = 0;
  method = [];
  path = [];
  status = 0;
  latency = 0;
  client_ip = [];
  bytes_in = pos 0;
  bytes_out = 0;
  backend = [];
  error = [];
}

-- `logs`, `size`, `index` and `count`, and whether the hook `OnAdd` is set.
pub record LogStore : Type 0 where
  pub ring : Ring RequestLog
  pub on_add : Bool

unfoldable pub new_log_store : ℕ → LogStore
new_log_store capacity =
    let size = if capacity == 0 then 1000 else capacity in
    record {
      ring = record { slots = replicate size zero_log; size = size; index = 0; count = 0 };
      on_add = false;
    }

-- The new store, and what the hook is called with.
unfoldable pub add : LogStore → RequestLog → LogStore × List RequestLog
add s log = (record s { ring = push s.ring log }, if s.on_add then log ∷ [] else [])

-- `s.logs[idx]` for the entry that is `i` older than the newest.
abbrev pub entry : LogStore → ℕ → RequestLog
entry s i = get_or s.ring.slots (back s.ring i) zero_log

-- The loop of `Recent` over `i`.
unfoldable pub recent_from : LogStore → ℕ → ℕ → List RequestLog
recent_from s zero i = []
recent_from s (suc rounds) i = entry s i ∷ recent_from s rounds (i + 1)

unfoldable pub recent : LogStore → ℕ → List RequestLog
recent s n =
    let n' = if ltb s.ring.count n then s.ring.count else n in
    if n' == 0 then [] else recent_from s n' 0

-- The loop of `GetByID`.
unfoldable pub find_from : LogStore → GoString → ℕ → ℕ → Option RequestLog
find_from s id zero i = none
find_from s id (suc rounds) i =
    if str_eq (entry s i).id id then some (entry s i) else find_from s id rounds (i + 1)

unfoldable pub get_by_id : LogStore → GoString → Option RequestLog
get_by_id s id = find_from s id s.ring.count 0

-- The loop of `containsString` over the places at which `substr` may start.
unfoldable pub contains_from : GoString → GoString → Bool
contains_from [] substr = has_prefix [] substr
contains_from (b ∷ s) substr = has_prefix (b ∷ s) substr || contains_from s substr

unfoldable pub contains_string : GoString → GoString → Bool
contains_string s substr = leb (length substr) (length s) && contains_from s substr

-- The filters of `Search`; a status of 0 and an empty path match every log.
unfoldable pub matches : ℕ → GoString → RequestLog → Bool
matches status path log =
    not (ltb 0 status && not (log.status == status))
    && not
        (not (str_eq path []) && not (str_eq log.path path) && not (contains_string log.path path))

-- The loop of `Search`, with the length of the result so far.
unfoldable pub search_from : LogStore → ℕ → ℕ → GoString → ℕ → ℕ → ℕ → List RequestLog
search_from s limit status path zero i found = []
search_from s limit status path (suc rounds) i found =
    let log = entry s i in
    let skipped = search_from s limit status path rounds (i + 1) found in
    let taken = log ∷ search_from s limit status path rounds (i + 1) (found + 1) in
    if not (ltb found limit) then [] else if matches status path log then taken else skipped

unfoldable pub search : LogStore → ℕ → ℕ → GoString → List RequestLog
search s limit status path =
    let limit' = if limit == 0 then 50 else limit in
    search_from s limit' status path s.ring.count 0 0
