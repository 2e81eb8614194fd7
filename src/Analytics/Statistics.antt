-- ===== src/Analytics/Statistics.antt =====
-- internal/analytics/analyzer.go: the statistical helpers.
pub mod Laws
use mathlib.Core.List.{reverse}
use microgate.Base.{ℕ, zero, suc, ◌-◌, List, [], ◌∷◌, if◌then◌else◌, ltb, leb, ◌==◌, length, get_or}
use microgate.Base.Floats.{Float64}

module _ {F : Type 0} ⦃f : Float64 F⦄ where
  open f use {lt, add, sub, mul, div, sqrt, of_nat, ceil}

  -- `for _, v := range values { sum += v }`
  unfoldable pub sum_from : F → List F → F
  sum_from sum [] = sum
  sum_from sum (v ∷ vs) = sum_from (add sum v) vs

  unfoldable pub mean : List F → F
  unfolding sum_from
  mean values =
      if length values == 0
      then of_nat 0
      else div (sum_from (of_nat 0) values) (of_nat (length values))

  unfoldable pub squares_from : F → F → List F → F
  squares_from sum m [] = sum
  squares_from sum m (v ∷ vs) = squares_from (add sum (mul (sub v m) (sub v m))) m vs

  unfoldable pub stddev : List F → F
  unfolding squares_from
  stddev values =
      if ltb (length values) 2
      then of_nat 0
      else sqrt (div (squares_from (of_nat 0) (mean values) values) (of_nat (length values)))

  -- The inner loop: the part of the array before `i`, read from its end, and `key` put into it.
  unfoldable pub insert_back : F → List F → List F
  insert_back key [] = key ∷ []
  insert_back key (a ∷ before) = if lt key a then a ∷ insert_back key before else key ∷ a ∷ before

  -- The outer loop: the sorted part, read from its end, and the rest.
  unfoldable pub sort_onto : List F → List F → List F
  unfolding insert_back
  sort_onto sorted [] = sorted
  sort_onto sorted (key ∷ rest) = sort_onto (insert_back key sorted) rest

  unfoldable pub sort_float64s : List F → List F
  unfolding sort_onto
  sort_float64s values = reverse (sort_onto [] values)

  -- `int(math.Ceil(p*n)) - 1`, cut to the places of the array; a negative one is 0.
  unfoldable pub rank : F → ℕ → ℕ
  rank p n = let idx = ceil (mul p (of_nat n)) - 1 in if leb n idx then n - 1 else idx

  unfoldable pub percentile : List F → F → F
  unfolding rank
  percentile values p =
      if length values == 0
      then of_nat 0
      else get_or (sort_float64s values) (rank p (length values)) (of_nat 0)
