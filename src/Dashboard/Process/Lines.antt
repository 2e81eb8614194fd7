-- ===== src/Dashboard/Process/Lines.antt =====
-- internal/dashboard/process.go: `lineBuffer`, the last lines that a process wrote.
use native.Mathlib.Nat.{mod-eq_of_lt, mod-eq-sub-mod}
use native.Mathlib.Decide.{dec_lt}
use mathlib.Core.List.{reverse, reverse-append}
use microgate.Base.{
  Option, none, some, take-min-length, ℕ, zero, suc, ◌+◌, ◌-◌, ◌%◌, ◌<◌, ◌≤◌, ◌≡◌, ◌∙◌, refl, sym,
  ap, ◌⊎◌, inl, inr, List, [], ◌∷◌, ◌++◌, if◌then◌else◌, ltb, ◌==◌, GoString, get_or, length,
  replicate, min, take, get_elem?, arith,
}
use microgate.Dashboard.Ring.{Ring, push, back}
use microgate.Dashboard.Ring.History.{IsValid, Holds, push-Holds, fresh-Holds}

abbrev pub LineBuffer : Type 0
LineBuffer = Ring GoString

unfoldable pub new_line_buffer : ℕ → LineBuffer
new_line_buffer capacity = record {
  slots = replicate capacity [];
  size = capacity;
  index = 0;
  count = 0;
}

unfoldable pub add : LineBuffer → GoString → LineBuffer
add b line = push b line

-- `startIdx`
start_index : LineBuffer → ℕ → ℕ
start_index b n = if ltb b.index n then b.index + b.size - n else b.index - n

recent_from : LineBuffer → ℕ → ℕ → ℕ → List GoString
recent_from b start zero i = []
recent_from b start (suc rounds) i =
    get_or b.slots ((start + i) % b.size) [] ∷ recent_from b start rounds (i + 1)

-- A negative `n` is 0 here: the code answers both with no lines.
unfoldable pub recent : LineBuffer → ℕ → List GoString
unfolding start_index recent_from
recent b n =
    let n' = if ltb b.count n then b.count else n in
    if n' == 0 then [] else recent_from b (start_index b n') n' 0

-- The buffer of the given lines, the last one written first.
abbrev pub written : ℕ → List GoString → LineBuffer
written capacity [] = new_line_buffer capacity
written capacity (line ∷ older) = add (written capacity older) line

written-Holds :
    (capacity : ℕ) (lines : List GoString) → 0 < capacity → Holds lines (written capacity lines)
unfolding new_line_buffer add
written-Holds capacity [] pos = fresh-Holds capacity [] pos
written-Holds capacity (line ∷ older) pos =
    push-Holds older (written capacity older) line (written-Holds capacity older pos)

size-written : (capacity : ℕ) (lines : List GoString) → (written capacity lines).size ≡ capacity
unfolding new_line_buffer add push
size-written capacity [] = refl
size-written capacity (line ∷ older) = size-written capacity older

mod-cases : (k n : ℕ) → k < n + n → ((k < n) × (k % n ≡ k)) ⊎ ((n ≤ k) × (k % n ≡ k - n))
mod-cases k n h = elim (dec_lt k n) [
  | yes p ↦ inl (p, mod-eq_of_lt p)
  | no p ↦
      let le : n ≤ k = omega arith in
      inr (le, mod-eq-sub-mod {n = k} {m = n} le ∙ mod-eq_of_lt {n = k - n} {m = n} (omega arith))
]

-- Round `i` of `n` reads what was written `n - 1 - i` lines before the last one.
place-eq :
    (b : LineBuffer) (n i : ℕ)
    → IsValid b
    → n ≤ b.count
    → i < n
    → (start_index b n + i) % b.size ≡ back b (n - 1 - i)
unfolding start_index back
place-eq b n i v le lt = ground (arith, mod-cases (start_index b n + i) b.size (ground arith))

-- The newest `n` of a history, oldest first.
abbrev oldest_first : ℕ → List GoString → List GoString
oldest_first zero lines = []
oldest_first (suc n) lines = get_or lines n [] ∷ oldest_first n lines

abbrev or_empty : Option GoString → GoString
or_empty none = []
or_empty (some line) = line

get_or-eq : (lines : List GoString) (i : ℕ) → get_or lines i [] ≡ or_empty (get_elem? lines i)
get_or-eq [] i = refl
get_or-eq (x ∷ xs) zero = refl
get_or-eq (x ∷ xs) (suc i) = get_or-eq xs i

recent_from-eq :
    (lines : List GoString) (b : LineBuffer) (n rounds i : ℕ)
    → Holds lines b
    → n ≤ b.count
    → i + rounds ≡ n
    → recent_from b (start_index b n) rounds i ≡ oldest_first rounds lines
unfolding recent_from
recent_from-eq lines b n zero i h le e = refl
recent_from-eq lines b n (suc rounds) i h le e =
    let j : n - 1 - i ≡ rounds = omega arith in
    let place = place-eq b n i h.valid le (omega arith) ∙ ap (back b) j in
    let here =
      get_or-eq b.slots (back b rounds)
      ∙ ap or_empty (h.held rounds (omega arith))
      ∙ sym (get_or-eq lines rounds) in
    rw (place, here, recent_from-eq lines b n rounds (i + 1) h le (omega arith)) refl

take-suc :
    (n : ℕ) (lines : List GoString)
    → n < length lines
    → take (suc n) lines ≡ take n lines ++ (get_or lines n [] ∷ [])
take-suc n [] lt = elim lt [ ]
take-suc zero (x ∷ xs) lt = refl
take-suc (suc n) (x ∷ xs) lt = ap (λ t. x ∷ t) (take-suc n xs (omega arith))

oldest_first-eq :
    (n : ℕ) (lines : List GoString)
    → n ≤ length lines
    → oldest_first n lines ≡ reverse (take n lines)
oldest_first-eq zero lines le = refl
oldest_first-eq (suc n) lines le =
    rw (take-suc n lines (omega arith), reverse-append (take n lines) (get_or lines n [] ∷ []))
      (ap (λ t. get_or lines n [] ∷ t) (oldest_first-eq n lines (omega arith)))

abbrev all_rounds : LineBuffer → ℕ → List GoString
all_rounds b n = recent_from b (start_index b n) n 0

drop_guard : (b : LineBuffer) (n : ℕ) → (if n == 0 then [] else all_rounds b n) ≡ all_rounds b n
unfolding recent_from
drop_guard b zero = refl
drop_guard b (suc n) = ground arith

-- `Recent(n)` of a buffer returns the last lines written to it, the oldest of them first: `n` of them, or as many
-- as were written or the buffer has room for.
lines_recent_lem :
    (capacity n : ℕ) (lines : List GoString)
    → 0 < capacity
    → recent (written capacity lines) n ≡ reverse (take (min n capacity) lines)
unfolding recent
lines_recent_lem capacity n lines pos =
    let b = written capacity lines in
    let h = written-Holds capacity lines pos in
    let size = size-written capacity lines in
    let k = min (min n capacity) (length lines) in
    let used : (if ltb b.count n then b.count else n) ≡ k = ground (arith, h.counted, size) in
    let le : k ≤ b.count = omega (arith, h.counted, size) in
    let all =
      recent_from-eq lines b k k 0 h le (omega arith) ∙ oldest_first-eq k lines (omega arith) in
    let cut = all ∙ ap reverse (take-min-length (min n capacity) lines) in
    drop_guard b (if ltb b.count n then b.count else n) ∙ ap (all_rounds b) used ∙ cut
