-- ===== src/Http/Address.antt =====
-- `net.SplitHostPort` as far as the gateway uses it: the host, or the empty string where it fails.
use microgate.Base.{
  ℕ, Bool, false, ◌||◌, Option, none, some, [], ◌∷◌, GoString, if◌then◌else◌, ◌==◌,
}

contains_byte : ℕ → GoString → Bool
contains_byte c [] = false
contains_byte c (b ∷ s) = b == c || contains_byte c s

-- What stands before and after the last occurrence of a byte.
split_last : ℕ → GoString → Option (GoString × GoString)
split_last c [] = none
split_last c (b ∷ s) = elim (split_last c s) [
  | some (before, after) ↦ some (b ∷ before, after)
  | none ↦ if b == c then some ([], s) else none
]

-- The text between `[` and `]`, if the `]` is the last byte and no other bracket stands between.
inside : GoString → Option GoString
inside [] = none
inside (b ∷ []) = if b == b']' then some [] else none
inside (b ∷ c ∷ s) = elim (inside (c ∷ s)) [
  | none ↦ none
  | some host ↦ if b == b'[' || b == b']' then none else some (b ∷ host)
]

plain_host : GoString → GoString
plain_host host =
    if contains_byte b':' host || contains_byte b'[' host || contains_byte b']' host
    then []
    else host

host_of : GoString → GoString
unfolding inside plain_host
host_of [] = []
host_of (b ∷ s) =
    if b == b'[' then elim (inside s) [ none ↦ [] | some host ↦ host ] else plain_host (b ∷ s)

unfoldable pub split_host : GoString → GoString
unfolding split_last host_of contains_byte
split_host addr = elim (split_last b':' addr) [
  | none ↦ []
  | some (before, port) ↦
      if contains_byte b'[' port || contains_byte b']' port then [] else host_of before
]
