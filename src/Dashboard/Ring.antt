-- ===== src/Dashboard/Ring.antt =====
-- The ring arithmetic that `LogStore` (internal/dashboard/store.go) and `lineBuffer`
-- (internal/dashboard/process.go) share: a slice of `size` slots, the index of the next write and
-- the count of slots in use.
pub mod History
use microgate.Base.{
  ℕ, zero, suc, ◌+◌, ◌-◌, ◌%◌, ◌<◌, ◌≤◌, Bool, List, if◌then◌else◌, ltb, ◌==◌, get_or, set, length,
}

pub record Ring (A : Type 0) : Type 0 where
  pub slots : List A
  pub size : ℕ
  pub index : ℕ
  pub count : ℕ

module _ {A : Type 0} where
  -- Store at `index`, step `index` round, count up to `size`. An index out of range would panic in
  -- Go, and `set` leaves the slots: `IsValid` rules it out.
  unfoldable pub push : Ring A → A → Ring A
  push r x = record r {
    slots = set r.slots r.index x;
    index = (r.index + 1) % r.size;
    count = if ltb r.count r.size then r.count + 1 else r.count;
  }

  -- `startIdx := index - 1; if startIdx < 0 { startIdx = size - 1 }`
  unfoldable pub newest : Ring A → ℕ
  newest r = if r.index == 0 then r.size - 1 else r.index - 1

  -- `idx := startIdx - i; if idx < 0 { idx += size }`
  unfoldable pub back : Ring A → ℕ → ℕ
  unfolding newest
  back r i = if ltb (newest r) i then newest r + r.size - i else newest r - i
