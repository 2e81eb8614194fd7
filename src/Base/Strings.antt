-- ===== src/Base/Strings.antt =====
-- A Go string is a sequence of bytes: comparison, prefixes, `strings.TrimPrefix`.
use Prim.Native.Char.{code}
use Prim.Native.String.{String}
use Prim.Native.Nat.{ℕ}
use mathlib.Core.Path.{◌≡◌, refl}
use mathlib.Core.Logic.{◌↔◌}
use mathlib.Core.Bool.{Bool, true, false, ◌&&◌}
use mathlib.Core.List.{List, [], ◌∷◌, ◌++◌}
use native.Mathlib.Omega.{arith}
use microgate.Base.Tests.{◌==◌, if◌then◌else◌, ltb}

abbrev pub GoString : Type 0
GoString = List ℕ

-- The bytes of an ASCII literal.
abbrev pub lit : String → GoString
lit String.[] = []
lit (String.◌∷◌ c s) = code c ∷ lit s

-- `a == b` on strings.
unfoldable pub str_eq : GoString → GoString → Bool
str_eq [] [] = true
str_eq (a ∷ s) (b ∷ t) = a == b && str_eq s t
str_eq _ _ = false

-- `strings.HasPrefix(s, p)`.
unfoldable pub has_prefix : GoString → GoString → Bool
has_prefix s [] = true
has_prefix [] (b ∷ p) = false
has_prefix (a ∷ s) (b ∷ p) = a == b && has_prefix s p

-- What is left of `s` behind a prefix as long as `p`.
unfoldable pub drop_prefix : GoString → GoString → GoString
drop_prefix s [] = s
drop_prefix [] (b ∷ p) = []
drop_prefix (a ∷ s) (b ∷ p) = drop_prefix s p

-- `strings.TrimPrefix(s, p)`.
unfoldable pub trim_prefix : GoString → GoString → GoString
unfolding has_prefix drop_prefix
trim_prefix s p = if has_prefix s p then drop_prefix s p else s

-- The order of strings by bytes, and `sort.Strings`.
unfoldable pub str_le : GoString → GoString → Bool
str_le [] t = true
str_le (a ∷ s) [] = false
str_le (a ∷ s) (b ∷ t) = let rest = str_le s t in if a == b then rest else ltb a b

unfoldable pub insert_string : GoString → List GoString → List GoString
insert_string s [] = s ∷ []
insert_string s (t ∷ ts) = if str_le s t then s ∷ t ∷ ts else t ∷ insert_string s ts

unfoldable pub sort_strings : List GoString → List GoString
unfolding insert_string
sort_strings [] = []
sort_strings (s ∷ ss) = insert_string s (sort_strings ss)

pub str_eq_refl : (s : GoString) → str_eq s s ≡ true
unfolding str_eq
str_eq_refl [] = refl
str_eq_refl (a ∷ s) = ground (arith, str_eq_refl s)

pub eq_of_str_eq : (s t : GoString) → str_eq s t ≡ true → s ≡ t
unfolding str_eq
eq_of_str_eq [] [] h = refl
eq_of_str_eq [] (b ∷ t) h = ground arith
eq_of_str_eq (a ∷ s) [] h = ground arith
eq_of_str_eq (a ∷ s) (b ∷ t) h = ground (arith, eq_of_str_eq s t)

pub str_eq_of_eq : (s t : GoString) → s ≡ t → str_eq s t ≡ true
str_eq_of_eq s t e = rw e (str_eq_refl t)

pub str_eq_iff : (s t : GoString) → (str_eq s t ≡ true) ↔ (s ≡ t)
str_eq_iff s t = (eq_of_str_eq s t, str_eq_of_eq s t)

pub has_prefix-append : (p s : GoString) → has_prefix (p ++ s) p ≡ true
unfolding has_prefix
has_prefix-append [] s = refl
has_prefix-append (a ∷ p) s = ground (arith, has_prefix-append p s)

pub append-drop_prefix : (s p : GoString) → has_prefix s p ≡ true → p ++ drop_prefix s p ≡ s
unfolding has_prefix drop_prefix
append-drop_prefix s [] h = refl
append-drop_prefix [] (b ∷ p) h = ground arith
append-drop_prefix (a ∷ s) (b ∷ p) h = ground (arith, append-drop_prefix s p)

drop_prefix-append : (p s : GoString) → drop_prefix (p ++ s) p ≡ s
unfolding drop_prefix
drop_prefix-append [] s = refl
drop_prefix-append (b ∷ p) s = drop_prefix-append p s

pub trim_prefix-append : (p s : GoString) → trim_prefix (p ++ s) p ≡ s
unfolding trim_prefix
trim_prefix-append p s = rw (trim_prefix, has_prefix-append p s) (drop_prefix-append p s)
