-- ===== src/Base/Maps.antt =====
-- A Go map from strings, as an association list in the order in which a `range` meets its keys.
-- Go fixes no such order: what is proved of a map holds for every order of its list.

use mathlib.Core.Path.{◌≡◌, refl}
use mathlib.Core.Option.{Option, none, some}
use mathlib.Core.List.{List, [], ◌∷◌}
use native.Mathlib.Omega.{arith}
use microgate.Base.Tests.{if◌then◌else◌}
use microgate.Base.Strings.{GoString, str_eq, str_eq_iff}

abbrev pub GoMap {ℓ} : Type ℓ → Type ℓ
GoMap V = List (GoString × V)

module _ {ℓ} {V : Type ℓ} where
  -- `v, ok := m[k]`.
  unfoldable pub lookup : GoString → GoMap V → Option V
  lookup k [] = none
  lookup k ((j, v) ∷ m) = if str_eq j k then some v else lookup k m

  -- `m[k] = v`.
  unfoldable pub insert : GoString → V → GoMap V → GoMap V
  insert k v [] = (k, v) ∷ []
  insert k v ((j, w) ∷ m) = if str_eq j k then (j, v) ∷ m else (j, w) ∷ insert k v m

  pub lookup-insert :
      (k j : GoString) (v : V) (m : GoMap V)
      → lookup j (insert k v m) ≡ (if str_eq k j then some v else lookup j m)
  unfolding lookup insert
  lookup-insert k j v [] = refl
  lookup-insert k j v ((i, w) ∷ m) =
      ground (arith, str_eq_iff k j, str_eq_iff i k, str_eq_iff i j, lookup-insert k j v m)

-- A Go map holds each key once.
abbrev pub Distinct {ℓ} : {V : Type ℓ} → GoMap V → Type ℓ
Distinct [] = Unit
Distinct ((k, v) ∷ m) = (lookup k m ≡ none) × Distinct m

pub insert-Distinct {ℓ} :
    {V : Type ℓ} (k : GoString) (v : V) (m : GoMap V) → Distinct m → Distinct (insert k v m)
unfolding lookup insert
insert-Distinct k v [] d = (refl, tt)
insert-Distinct k v ((j, w) ∷ m) (new, d) =
    ground (arith, insert-Distinct k v m d, lookup-insert k j v m, str_eq_iff j k, str_eq_iff k j)

abbrev pub keys {ℓ} : {V : Type ℓ} → GoMap V → List GoString
keys [] = []
keys ((k, v) ∷ m) = k ∷ keys m
