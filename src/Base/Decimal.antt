-- ===== src/Base/Decimal.antt =====
-- strconv.Atoi, and `%d` of fmt.
use Prim.Native.Nat.{ℕ, zero, suc, ◌+◌, ◌-◌, ◌*◌, ◌/◌, ◌%◌, ◌^◌, ◌<◌}
use native.Mathlib.Omega.{arith}
use mathlib.Core.Logic.{inl, inr}
use mathlib.Core.Path.{◌≡◌, ◌∙◌, refl, sym, ap}
use mathlib.Core.Bool.{true, false, ◌&&◌}
use mathlib.Core.Option.{Option, none, some}
use mathlib.Core.List.{[], ◌∷◌}
use microgate.Base.Tests.{Bool-cases, ltb, leb, ◌==◌, if◌then◌else◌}
use microgate.Base.Strings.{GoString}
use microgate.Base.Int.{ℤ, pos, negsuc}

digits_from : ℕ → GoString → Option ℕ
digits_from n [] = some n
digits_from n (b ∷ s) =
    let rest = digits_from (10 * n + (b - 48)) s in if leb 48 b && leb b 57 then rest else none

digits : GoString → Option ℕ
digits [] = none
digits (b ∷ s) = digits_from 0 (b ∷ s)

-- Within the bounds of int64.
positive : Option ℕ → Option ℤ
positive none = none
positive (some n) = if ltb n (2 ^ 63) then some (pos n) else none

negative : Option ℕ → Option ℤ
negative none = none
negative (some zero) = some (pos 0)
negative (some (suc n)) = if ltb n (2 ^ 63) then some (negsuc n) else none

-- `none` is its error.
unfoldable pub atoi : GoString → Option ℤ
unfolding digits positive negative digits_from
atoi [] = none
atoi (b ∷ s) =
    if b == b'-'
    then negative (digits s)
    else if b == b'+'
    then positive (digits s)
    else positive (digits (b ∷ s))

-- A number has at most as many digits as `rounds` if it is less than it.
print_from : ℕ → ℕ → GoString → GoString
print_from zero n printed = printed
print_from (suc rounds) n printed = elim (ltb n 10) [
  | true ↦ (48 + n) ∷ printed
  | false ↦ print_from rounds (n / 10) ((48 + n % 10) ∷ printed)
]

unfoldable pub itoa : ℕ → GoString
unfolding print_from
itoa n = print_from (suc n) n []

print_from-small :
    (rounds n : ℕ) (printed : GoString)
    → ltb n 10 ≡ true
    → print_from (suc rounds) n printed ≡ (48 + n) ∷ printed
unfolding print_from
print_from-small rounds n printed e = rw (print_from, e) refl

print_from-large :
    (rounds n : ℕ) (printed : GoString)
    → ltb n 10 ≡ false
    → print_from (suc rounds) n printed ≡ print_from rounds (n / 10) ((48 + n % 10) ∷ printed)
unfolding print_from
print_from-large rounds n printed e = rw (print_from, e) refl

digits_from-cons :
    (m d : ℕ) (s : GoString) → d < 10 → digits_from m ((48 + d) ∷ s) ≡ digits_from (10 * m + d) s
unfolding digits_from
digits_from-cons m d s h = ground arith

-- `%d`
unfoldable pub format_int : ℤ → GoString
format_int (pos n) = itoa n
format_int (negsuc n) = b'-' ∷ itoa (suc n)

-- With more rounds than the number, all its digits are printed.
digits_from-print_from :
    (rounds n : ℕ) (printed : GoString)
    → n < rounds
    → digits_from 0 (print_from rounds n printed) ≡ digits_from n printed
digits_from-print_from zero n printed h = ground arith
digits_from-print_from (suc rounds) n printed h = elim (Bool-cases (ltb n 10)) [
  | inl small ↦
      let none_before : 10 * 0 + n ≡ n = omega arith in
      ap (digits_from 0) (print_from-small rounds n printed small)
      ∙ digits_from-cons 0 n printed (ground arith)
      ∙ ap (λ m. digits_from m printed) none_before
  | inr large ↦
      let less : n / 10 < rounds = ground arith in
      let whole : 10 * (n / 10) + n % 10 ≡ n = omega arith in
      ap (digits_from 0) (print_from-large rounds n printed large)
      ∙ digits_from-print_from rounds (n / 10) ((48 + n % 10) ∷ printed) less
      ∙ digits_from-cons (n / 10) (n % 10) printed (omega arith)
      ∙ ap (λ m. digits_from m printed) whole
]

-- What is printed begins with a digit.
abbrev BeginsWithDigit : GoString → Type 0
BeginsWithDigit s = (b : ℕ) × (rest : GoString) × (s ≡ b ∷ rest) × (leb 48 b ≡ true)

print_from-BeginsWithDigit :
    (rounds n b : ℕ) (printed : GoString)
    → leb 48 b ≡ true
    → BeginsWithDigit (print_from rounds n (b ∷ printed))
unfolding print_from
print_from-BeginsWithDigit zero n b printed h = (b, printed, refl, h)
print_from-BeginsWithDigit (suc rounds) n b printed h = elim (Bool-cases (ltb n 10)) [
  | inl small ↦ (48 + n, b ∷ printed, print_from-small rounds n (b ∷ printed) small, ground arith)
  | inr large ↦
      let (c, rest, e, digit) =
        print_from-BeginsWithDigit rounds (n / 10) (48 + n % 10) (b ∷ printed) (ground arith) in
      (c, rest, print_from-large rounds n (b ∷ printed) large ∙ e, digit)
]

itoa-BeginsWithDigit : (n : ℕ) → BeginsWithDigit (itoa n)
unfolding itoa
itoa-BeginsWithDigit n = elim (Bool-cases (ltb n 10)) [
  | inl small ↦ (48 + n, [], print_from-small n n [] small, ground arith)
  | inr large ↦
      let (c, rest, e, digit) =
        print_from-BeginsWithDigit n (n / 10) (48 + n % 10) [] (ground arith) in
      (c, rest, print_from-large n n [] large ∙ e, digit)
]

-- Reading what is printed gives the number back.
pub atoi-itoa : (n : ℕ) → n < 2 ^ 63 → atoi (itoa n) ≡ some (pos n)
unfolding atoi digits positive itoa digits_from
atoi-itoa n h =
    let (b, rest, e, digit) = itoa-BeginsWithDigit n in
    let read : digits_from 0 (b ∷ rest) ≡ some n =
      ap (digits_from 0) (sym e) ∙ digits_from-print_from (suc n) n [] (omega arith) in
    let no_minus : (b == b'-') ≡ false = ground arith in
    let no_plus : (b == b'+') ≡ false = ground arith in
    let fits : ltb n (2 ^ 63) ≡ true = ground arith in
    ap atoi e ∙ rw (no_minus, no_plus, read, fits) refl
