-- ===== src/Analytics/Statistics/Laws.antt =====
-- internal/analytics/analyzer.go: the insertion sort and the percentile.
use mathlib.Core.List.{
  reverse_aux, Perm, reverse_perm, perm_middle, perm-append_left_iff, append-nil,
}
use mathlib.Core.List.Perm
use microgate.Base.{
  ℕ, suc, ◌+◌, ◌<◌, ◌≡◌, ◌≢◌, refl, false, List, [], ◌∷◌, ◌++◌, ◌==◌, length, get_elem?,
  get_elem?-eq-get_or, some, arith, Bool-cases, inl, inr,
}
use microgate.Base.Floats.{Float64, IsOrdered}
use microgate.Analytics.Statistics.{insert_back, sort_onto, sort_float64s, rank, percentile}

module _ {F : Type 0} ⦃f : Float64 F⦄ where
  open f use {lt, mul, of_nat, ceil}

  -- No value is less than the one before it.
  abbrev pub IsAscending : List F → Type 0
  IsAscending [] = Unit
  IsAscending (x ∷ []) = Unit
  IsAscending (x ∷ y ∷ l) = (lt y x ≡ false) × IsAscending (y ∷ l)

  abbrev IsDescending : List F → Type 0
  IsDescending [] = Unit
  IsDescending (x ∷ []) = Unit
  IsDescending (x ∷ y ∷ l) = (lt x y ≡ false) × IsDescending (y ∷ l)

  insert_back-IsDescending :
      (o : IsOrdered F) (key : F) (l : List F) → IsDescending l → IsDescending (insert_back key l)
  unfolding insert_back
  insert_back-IsDescending o key [] h = tt
  insert_back-IsDescending o key (a ∷ []) h = elim (Bool-cases (lt key a)) [
    | inl pass ↦ rw pass (o.lt_asymm key a pass, tt)
    | inr stay ↦ rw stay (stay, tt)
  ]
  insert_back-IsDescending o key (a ∷ b ∷ l) (first, h) = elim (Bool-cases (lt key a)) [
    | inr stay ↦ rw stay (stay, (first, h))
    | inl pass ↦ elim (Bool-cases (lt key b)) [
      | inr stay ↦ rw (pass, stay) (o.lt_asymm key a pass, (stay, h))
      | inl too ↦
          let rest = insert_back-IsDescending o key (b ∷ l) h in
          rw (pass, too) (first, rw too at rest)
    ]
  ]

  insert_back-perm : (key : F) (l : List F) → Perm (insert_back key l) (key ∷ l)
  unfolding insert_back
  insert_back-perm key [] = Perm.refl (key ∷ [])
  insert_back-perm key (a ∷ l) = elim (Bool-cases (lt key a)) [
    | inr stay ↦ rw stay (Perm.refl (key ∷ a ∷ l))
    | inl pass ↦ rw pass (Perm.trans (Perm.cons a (insert_back-perm key l)) (Perm.swap key a l))
  ]

  sort_onto-IsDescending :
      (o : IsOrdered F) (sorted rest : List F)
      → IsDescending sorted
      → IsDescending (sort_onto sorted rest)
  unfolding sort_onto
  sort_onto-IsDescending o sorted [] h = h
  sort_onto-IsDescending o sorted (key ∷ rest) h =
      sort_onto-IsDescending o (insert_back key sorted) rest
        (insert_back-IsDescending o key sorted h)

  sort_onto-perm : (sorted rest : List F) → Perm (sort_onto sorted rest) (rest ++ sorted)
  unfolding sort_onto
  sort_onto-perm sorted [] = Perm.refl sorted
  sort_onto-perm sorted (key ∷ rest) =
      let again = sort_onto-perm (insert_back key sorted) rest in
      let inner = (perm-append_left_iff rest).1 (insert_back-perm key sorted) in
      Perm.trans again (Perm.trans inner (perm_middle rest sorted))

  -- The two lists fit together when the first is turned round onto the second.
  abbrev Fits : List F → List F → Type 0
  Fits [] acc = Unit
  Fits (x ∷ l) [] = Unit
  Fits (x ∷ l) (y ∷ acc) = lt y x ≡ false

  Fits-end : (l : List F) → Fits l []
  Fits-end [] = tt
  Fits-end (x ∷ l) = tt

  reverse_aux-IsAscending :
      (l acc : List F)
      → IsDescending l
      → IsAscending acc
      → Fits l acc
      → IsAscending (reverse_aux l acc)
  reverse_aux-IsAscending [] acc d a fits = a
  reverse_aux-IsAscending (x ∷ []) [] d a fits = tt
  reverse_aux-IsAscending (x ∷ []) (y ∷ acc) d a fits = (fits, a)
  reverse_aux-IsAscending (x ∷ z ∷ l) [] (first, d) a fits =
      reverse_aux-IsAscending (z ∷ l) (x ∷ []) d tt first
  reverse_aux-IsAscending (x ∷ z ∷ l) (y ∷ acc) (first, d) a fits =
      reverse_aux-IsAscending (z ∷ l) (x ∷ y ∷ acc) d (fits, a) first

  length-reverse_aux : (l acc : List F) → length (reverse_aux l acc) ≡ length l + length acc
  length-reverse_aux [] acc = omega arith
  length-reverse_aux (x ∷ l) acc = omega (arith, length-reverse_aux l (x ∷ acc))

  length-insert_back : (key : F) (l : List F) → length (insert_back key l) ≡ suc (length l)
  unfolding insert_back
  length-insert_back key [] = refl
  length-insert_back key (a ∷ l) = ground (arith, length-insert_back key l)

  length-sort_onto :
      (sorted rest : List F) → length (sort_onto sorted rest) ≡ length sorted + length rest
  unfolding sort_onto
  length-sort_onto sorted [] = omega arith
  length-sort_onto sorted (key ∷ rest) =
      omega (arith, length-sort_onto (insert_back key sorted) rest, length-insert_back key sorted)

  length-sort_float64s : (values : List F) → length (sort_float64s values) ≡ length values
  unfolding sort_float64s
  length-sort_float64s values =
      omega (arith, length-reverse_aux (sort_onto [] values) [], length-sort_onto [] values)

  rank-lt : (p : F) (n : ℕ) → n ≢ 0 → rank p n < n
  unfolding rank
  rank-lt p n h = ground arith

  sort_float64s-perm : (values : List F) → Perm (sort_float64s values) values
  unfolding sort_float64s
  sort_float64s-perm values =
      Perm.trans (reverse_perm (sort_onto [] values))
        (rw (append-nil values) at (sort_onto-perm [] values))

  -- The percentile of a list that is not empty stands at its rank in the sorted copy, if comparisons
  -- are as IEEE 754 defines them: the copy is a permutation of the values, none in it is less than
  -- the one before it, and the rank is a place in it.
  pub percentile_lem :
      (o : IsOrdered F) (values : List F) (p : F)
      → length values ≢ 0
      → let sorted = sort_float64s values in
        let place = rank p (length values) in
        IsAscending sorted
        × Perm sorted values
        × (place < length sorted)
        × (get_elem? sorted place ≡ some (percentile values p))
  unfolding percentile
  percentile_lem o values p h =
      let sorted = sort_float64s values in
      let place = rank p (length values) in
      let inside : place < length sorted =
        omega (arith, rank-lt p (length values) h, length-sort_float64s values) in
      let some_values : (length values == 0) ≡ false = ground arith in
      let down = sort_onto-IsDescending o [] values tt in
      (
        unfold sort_float64s in
            reverse_aux-IsAscending (sort_onto [] values) [] down tt
              (Fits-end (sort_onto [] values)),
        sort_float64s-perm values,
        inside,
        rw some_values (get_elem?-eq-get_or sorted place (of_nat 0) inside),
      )
