-- ===== src/Dashboard/LogStore/Reads.antt =====
-- internal/dashboard/store.go: what the reads return, in terms of the logs that were added.
use microgate.Base.{
  append-drop_prefix, drop_prefix, has_prefix-append, length-append, ℕ, zero, suc, ◌+◌, ◌-◌, ◌≤◌,
  ◌<◌, ◌≡◌, ◌∙◌, ◌↔◌, refl, sym, ap, true, false, Option, none, some, List, [], ◌∷◌, ◌++◌,
  if◌then◌else◌, ltb, ◌==◌, length, GoString, str_eq, has_prefix, min, take, drop, drop-eq-cons,
  get_elem?-eq-get_or, take-min-length, keep, take-nil, take-cons, take-take, take-take, arith,
  Bool-cases, inl, inr,
}
use microgate.Dashboard.Ring.{push, back}
use microgate.Dashboard.Ring.History.{Holds, back-lt, push-Holds, fresh-Holds}
use microgate.Dashboard.LogStore.{
  RequestLog, zero_log, LogStore, new_log_store, add, entry, recent_from, recent, find_from,
  get_by_id, contains_from, contains_string, matches, search_from, search,
}

-- The store after the given logs, the last added first.
unfoldable pub added : ℕ → List RequestLog → LogStore
added capacity [] = new_log_store capacity
added capacity (log ∷ older) = (add (added capacity older) log).0

-- The capacity in use: a thousand if none is asked for.
abbrev pub capacity_of : ℕ → ℕ
capacity_of capacity = if capacity == 0 then 1000 else capacity

added-Holds : (capacity : ℕ) (logs : List RequestLog) → Holds logs (added capacity logs).ring
unfolding added new_log_store add
added-Holds capacity [] = fresh-Holds (capacity_of capacity) zero_log (ground arith)
added-Holds capacity (log ∷ older) =
    push-Holds older (added capacity older).ring log (added-Holds capacity older)

size-added :
    (capacity : ℕ) (logs : List RequestLog) → (added capacity logs).ring.size ≡ capacity_of capacity
unfolding added new_log_store add push
size-added capacity [] = refl
size-added capacity (log ∷ older) = size-added capacity older

entry-eq :
    (logs : List RequestLog) (s : LogStore) (i : ℕ)
    → Holds logs s.ring
    → i < s.ring.count
    → drop i logs ≡ entry s i ∷ drop (i + 1) logs
entry-eq logs s i h lt =
    let inside = back-lt s.ring i h.valid (omega arith) in
    drop-eq-cons logs i
      (sym (h.held i lt) ∙ get_elem?-eq-get_or s.ring.slots (back s.ring i) zero_log (omega arith))

-- The first log with the given id.
abbrev pub first_with : GoString → List RequestLog → Option RequestLog
first_with id [] = none
first_with id (log ∷ logs) = if str_eq log.id id then some log else first_with id logs

module _ (logs : List RequestLog) (s : LogStore) (h : Holds logs s.ring) where
  recent_from-eq :
      (rounds i : ℕ)
      → i + rounds ≤ s.ring.count
      → recent_from s rounds i ≡ take rounds (drop i logs)
  unfolding recent_from
  recent_from-eq zero i lt = refl
  recent_from-eq (suc rounds) i lt =
      rw (entry-eq logs s i h (omega arith), recent_from-eq rounds (i + 1) (omega arith))

  find_from-eq :
      (id : GoString) (rounds i : ℕ)
      → i + rounds ≤ s.ring.count
      → find_from s id rounds i ≡ first_with id (take rounds (drop i logs))
  unfolding find_from
  find_from-eq id zero i lt = refl
  find_from-eq id (suc rounds) i lt =
      rw (entry-eq logs s i h (omega arith), find_from-eq id rounds (i + 1) (omega arith))

  search_from-eq :
      (limit status : ℕ) (path : GoString) (rounds i found : ℕ)
      → i + rounds ≤ s.ring.count
      → search_from s limit status path rounds i found
        ≡ take (limit - found) (keep (matches status path) (take rounds (drop i logs)))
  unfolding search_from keep
  search_from-eq limit status path zero i found lt = sym (take-nil (limit - found))
  search_from-eq limit status path (suc rounds) i found lt =
      rw (entry-eq logs s i h (omega arith)) (
        ground (
          arith,
          search_from-eq limit status path rounds (i + 1) found (omega arith),
          search_from-eq limit status path rounds (i + 1) (found + 1) (omega arith),
          take-cons (limit - found) (entry s i)
              (keep (matches status path) (take rounds (drop (i + 1) logs))),
        ))

  recent_up_to :
      (m : ℕ) → m ≤ s.ring.count → (if m == 0 then [] else recent_from s m 0) ≡ take m logs
  recent_up_to zero lt = refl
  recent_up_to (suc k) lt =
      let some_left : (suc k == 0) ≡ false = ground arith in
      rw some_left (recent_from-eq (suc k) 0 (omega arith))

  search_all-eq :
      (limit status : ℕ) (path : GoString)
      → search_from s limit status path s.ring.count 0 0
        ≡ take limit (keep (matches status path) (take s.ring.count logs))
  search_all-eq limit status path =
      let whole : limit - 0 ≡ limit = omega arith in
      search_from-eq limit status path s.ring.count 0 0 (omega arith)
      ∙ ap (λ k. take k (keep (matches status path) (take s.ring.count logs))) whole

-- The number of logs that are read, against the capacity.
take-count :
    (capacity : ℕ) (logs : List RequestLog)
    → take (added capacity logs).ring.count logs ≡ take (capacity_of capacity) logs
take-count capacity logs =
    let counted = (added-Holds capacity logs).counted in
    let e : (added capacity logs).ring.count ≡ min (capacity_of capacity) (length logs) =
      omega (arith, counted, size-added capacity logs) in
    rw e (take-min-length (capacity_of capacity) logs)

-- The loops over all entries meet the logs that the ring holds, newest first.
pub all_entries-eq :
    (capacity : ℕ) (logs : List RequestLog)
    → recent_from (added capacity logs) (added capacity logs).ring.count 0
      ≡ take (capacity_of capacity) logs
all_entries-eq capacity logs =
    recent_from-eq logs (added capacity logs) (added-Holds capacity logs)
      (added capacity logs).ring.count 0 (omega arith)
    ∙ take-count capacity logs

-- `Recent(n)` gives the newest `n` logs, newest first: all that the ring holds if there are fewer.
pub recent_lem :
    (capacity n : ℕ) (logs : List RequestLog)
    → recent (added capacity logs) n ≡ take n (take (capacity_of capacity) logs)
unfolding recent
recent_lem capacity n logs =
    let s = added capacity logs in
    let h = added-Holds capacity logs in
    let m = min n s.ring.count in
    let cut : take m logs ≡ take n (take (capacity_of capacity) logs) =
      sym (take-take n s.ring.count logs) ∙ ap (take n) (take-count capacity logs) in
    let clip : (if ltb s.ring.count n then s.ring.count else n) ≡ m = ground arith in
    rw clip (recent_up_to logs s h m (omega arith) ∙ cut)

-- `GetByID` finds the newest log with that id among those that the ring holds.
get_by_id_lem :
    (capacity : ℕ) (id : GoString) (logs : List RequestLog)
    → get_by_id (added capacity logs) id ≡ first_with id (take (capacity_of capacity) logs)
unfolding get_by_id
get_by_id_lem capacity id logs =
    let s = added capacity logs in
    find_from-eq logs s (added-Holds capacity logs) id s.ring.count 0 (omega arith)
    ∙ ap (first_with id) (take-count capacity logs)

-- `Search` gives the newest logs, at most `limit` of them (50 if that is 0), that pass the filters
-- among those that the ring holds, newest first.
pub search_lem :
    (capacity limit status : ℕ) (path : GoString) (logs : List RequestLog)
    → search (added capacity logs) limit status path
      ≡ take
          (if limit == 0 then 50 else limit)
          (keep (matches status path) (take (capacity_of capacity) logs))
unfolding search
search_lem capacity limit status path logs =
    let s = added capacity logs in
    let limit' = if limit == 0 then 50 else limit in
    search_all-eq logs s (added-Holds capacity logs) limit' status path
    ∙ ap (λ l. take limit' (keep (matches status path) l)) (take-count capacity logs)

has_prefix-lengths : (s p : GoString) → has_prefix s p ≡ true → length p ≤ length s
unfolding has_prefix
has_prefix-lengths s [] h = omega arith
has_prefix-lengths [] (b ∷ p) h = ground arith
has_prefix-lengths (a ∷ s) (b ∷ p) h = ground (arith, has_prefix-lengths s p)

-- `sub` stands in `s`: between some text before it and some behind it.
abbrev pub Occurs : GoString → GoString → Type 0
Occurs sub s = (before : GoString) × (behind : GoString) × (s ≡ before ++ (sub ++ behind))

contains_from-Occurs : (s sub : GoString) → contains_from s sub ≡ true → Occurs sub s
unfolding contains_from has_prefix
contains_from-Occurs [] sub h = ([], drop_prefix [] sub, sym (append-drop_prefix [] sub h))
contains_from-Occurs (b ∷ s) sub h = elim (Bool-cases (has_prefix (b ∷ s) sub)) [
  | inl here ↦ ([], drop_prefix (b ∷ s) sub, sym (append-drop_prefix (b ∷ s) sub here))
  | inr later ↦
      let (before, behind, e) = contains_from-Occurs s sub (rw later at h) in
      (b ∷ before, behind, ap (λ t. b ∷ t) e)
]

Occurs-contains_from :
    (sub before behind : GoString) → contains_from (before ++ (sub ++ behind)) sub ≡ true
unfolding contains_from has_prefix
Occurs-contains_from [] [] [] = refl
Occurs-contains_from [] [] (b ∷ behind) = refl
Occurs-contains_from (c ∷ sub) [] behind = ground (arith, has_prefix-append (c ∷ sub) behind)
Occurs-contains_from sub (b ∷ before) behind =
    ground (arith, Occurs-contains_from sub before behind)

-- The substring check of the path filter is true exactly if the second string stands somewhere in the
-- first.
pub contains_string_iff : (s sub : GoString) → (contains_string s sub ≡ true) ↔ Occurs sub s
unfolding contains_string
contains_string_iff s sub = (
  λ h. contains_from-Occurs s sub (ground arith),
  λ (before, behind, e). rw e (
      ground (
        arith,
        Occurs-contains_from sub before behind,
        length-append before (sub ++ behind),
        length-append sub behind,
      )),
)
