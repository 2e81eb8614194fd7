-- ===== src/Dashboard/Api/Logs/Laws.antt =====
-- internal/dashboard/api.go: what /logs lists.
use microgate.Base.{
  ℕ, ◌≡◌, ◌≢◌, ◌∙◌, refl, sym, ap, inl, inr, true, ◌&&◌, List, [], ◌∷◌, if◌then◌else◌, ◌==◌,
  GoString, str_eq, eq_of_str_eq, keep, take, arith, Bool-cases,
}
use microgate.Base.Int.{ℤ, pos, negsuc, pos_part}
use microgate.Dashboard.LogStore.{RequestLog, matches}
use microgate.Dashboard.LogStore.Reads.{added, capacity_of, recent_lem, search_lem}
use microgate.Dashboard.Api.Logs.{listed, is_zero}

keep-matches_all : (logs : List RequestLog) → keep (matches 0 []) logs ≡ logs
unfolding keep matches str_eq
keep-matches_all [] = refl
keep-matches_all (log ∷ logs) = ap (λ l. log ∷ l) (keep-matches_all logs)

pos_part_zero : (z : ℤ) → is_zero z ≡ true → pos_part z ≡ 0
unfolding is_zero
pos_part_zero (pos n) h = ground arith
pos_part_zero (negsuc n) h = ground arith

-- For a limit that is not 0, what /logs lists are the stored logs that pass both filters, the newest first and at
-- most as many as the limit, whether `Recent` or `Search` is asked; a status that is not positive filters nothing.
pub listed_lem :
    (capacity limit : ℕ) (status : ℤ) (path : GoString) (logs : List RequestLog)
    → limit ≢ 0
    → listed (added capacity logs) limit status path
      ≡ take limit (keep (matches (pos_part status) path) (take (capacity_of capacity) logs))
unfolding listed
listed_lem capacity limit status path logs h =
    let stored = take (capacity_of capacity) logs in
    elim (Bool-cases (is_zero status && str_eq path [])) [
      | inl no_filter ↦
          let no_status : pos_part status ≡ 0 = pos_part_zero status (ground arith) in
          let no_path : path ≡ [] = eq_of_str_eq path [] (ground arith) in
          rw (no_filter, no_status, no_path)
            (recent_lem capacity limit logs ∙ ap (take limit) (sym (keep-matches_all stored)))
      | inr filtered ↦
          let same : (if limit == 0 then 50 else limit) ≡ limit = ground arith in
          rw filtered (
            search_lem capacity limit (pos_part status) path logs
            ∙ ap (λ l. take l (keep (matches (pos_part status) path) stored)) same)
    ]
