-- ===== src/Base/Floats.antt =====
-- float64: the operations that the gateway uses, over any type. `IsOrdered` is what the code relies on
-- of the comparisons and of `x - 1`; it holds of every IEEE value, NaN and infinities included.
use Prim.Native.Nat.{ℕ, zero, suc, ◌+◌, ◌-◌, ◌*◌, ◌/◌, ◌%◌, ◌^◌}
use mathlib.Core.Path.{◌≡◌}
use mathlib.Core.Bool.{Bool, true, false}
use native.Mathlib.Omega.{arith}
use microgate.Base.Tests.{ltb, leb, ◌==◌}

pub record Float64 (F : Type 0) : Type 0 where
  pub lt : F → F → Bool
  pub le : F → F → Bool
  pub eq : F → F → Bool
  pub add : F → F → F
  pub sub : F → F → F
  pub mul : F → F → F
  pub div : F → F → F
  pub sqrt : F → F
  -- `float64(n)` for an integer that is not negative.
  pub of_nat : ℕ → F
  -- `int(math.Ceil(x))` for an `x` that is not negative.
  pub ceil : F → ℕ

module _ {F : Type 0} ⦃f : Float64 F⦄ where
  open f use {add, div, of_nat}

  -- A decimal constant, as the quotient of two integers.
  abbrev pub ratio : ℕ → ℕ → F
  ratio p q = div (of_nat p) (of_nat q)

  -- `Duration.Seconds()` of a duration in nanoseconds.
  abbrev pub seconds : ℕ → F
  seconds d = add (of_nat (d / 10 ^ 9)) (div (of_nat (d % 10 ^ 9)) (of_nat (10 ^ 9)))

-- Comparisons, as IEEE 754 defines them: with NaN every one of them is false.
pub record IsOrdered (F : Type 0) ⦃f : Float64 F⦄ : Type 0 where
  pub lt_irrefl : (x : F) → f.lt x x ≡ false
  pub lt_asymm : (x y : F) → f.lt x y ≡ true → f.lt y x ≡ false
  -- Taking one away never makes a value exceed a bound that it did not exceed.
  pub lt-sub_one : (m x : F) → f.lt m x ≡ false → f.lt m (f.sub x (f.of_nat 1)) ≡ false

-- The greatest `r` up to the first argument with `r * r ≤ n`.
abbrev pub root_below : ℕ → ℕ → ℕ
root_below zero n = 0
root_below (suc r) n = elim (leb (suc r * suc r) n) [ true ↦ suc r | false ↦ root_below r n ]

-- Fixed-point numbers that count `unit`-ths, cut off at zero and rounded down.
abbrev pub fixed : ℕ → Float64 ℕ
fixed unit = record {
  lt = ltb;
  le = leb;
  eq = ◌==◌;
  add = ◌+◌;
  sub = ◌-◌;
  mul = λ a b. a * b / unit;
  div = λ a b. a * unit / b;
  sqrt = λ a. root_below (a * unit) (a * unit);
  of_nat = λ n. n * unit;
  ceil = λ a. (a + (unit - 1)) / unit;
}

-- Thousandths meet the laws.
abbrev pub Milli : Type 0
Milli = ℕ

instance abbrev pub milli_float : Float64 Milli
milli_float = fixed 1000

pub Milli-IsOrdered : IsOrdered Milli
Milli-IsOrdered = ground arith
