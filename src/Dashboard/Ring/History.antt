-- ===== src/Dashboard/Ring/History.antt =====
-- A ring holds the last `size` of the values that were pushed.
use native.Mathlib.Nat.{mod-eq_of_lt, mod-eq-sub-mod}
use native.Mathlib.Decide.{dec_lt}
use microgate.Base.{
  ℕ, zero, suc, ◌+◌, ◌-◌, ◌%◌, ◌<◌, ◌≤◌, ◌≡◌, ◌≢◌, ◌∙◌, ◌⊎◌, inl, inr, List, [], ◌∷◌, length,
  length-set, get_elem?, get_elem?-set_self, get_elem?-set_ne, arith, min, replicate,
  length-replicate,
}
use microgate.Dashboard.Ring.{Ring, push, back}

module _ {A : Type 0} where
  pub record IsValid (r : Ring A) : Type 0 where
    pub storage : length r.slots ≡ r.size
    pub index_in : r.index < r.size
    pub count_in : r.count ≤ r.size

  -- The slot that holds the value pushed `i` pushes before the last one.
  abbrev pub slot : Ring A → ℕ → ℕ
  slot r i = (r.index + r.size - 1 - i) % r.size

  -- The ring holds the newest `count` values of a history (newest first), all of it while it fits.
  pub record Holds (history : List A) (r : Ring A) : Type 0 where
    pub valid : IsValid r
    pub counted : r.count ≡ min (length history) r.size
    pub held : (i : ℕ) → i < r.count → get_elem? r.slots (back r i) ≡ get_elem? history i

  pub back-lt : (r : Ring A) (i : ℕ) → IsValid r → i < r.size → back r i < r.size
  unfolding back
  back-lt r i v h = ground arith

  next_index :
      (r : Ring A)
      → IsValid r
      → ((r.index + 1 < r.size) × ((r.index + 1) % r.size ≡ r.index + 1))
        ⊎ ((r.index + 1 ≡ r.size) × ((r.index + 1) % r.size ≡ 0))
  next_index r v = elim (dec_lt (r.index + 1) r.size) [
    | yes p ↦ inl (p, mod-eq_of_lt p)
    | no p ↦
        inr
          (omega arith, omega (arith, mod-eq-sub-mod {n = r.index + 1} {m = r.size} (omega arith)))
  ]

  back-push-zero : (r : Ring A) (x : A) → IsValid r → back (push r x) 0 ≡ r.index
  unfolding back push
  back-push-zero r x v = ground (arith, next_index r v)

  back-push-suc :
      (r : Ring A) (x : A) (i : ℕ) → IsValid r → suc i < r.size → back (push r x) (suc i) ≡ back r i
  unfolding back push
  back-push-suc r x i v h = ground (arith, next_index r v)

  back-ne-index : (r : Ring A) (i : ℕ) → IsValid r → suc i < r.size → r.index ≢ back r i
  unfolding back
  back-ne-index r i v h = ground arith

  pub push-IsValid : (r : Ring A) (x : A) → IsValid r → IsValid (push r x)
  unfolding push
  push-IsValid r x v = ground (arith, length-set r.slots r.index x, next_index r v)

  before_of :
      (r : Ring A) (x : A) (i : ℕ)
      → IsValid r
      → suc i < (push r x).count
      → (i < r.count) × (suc i < r.size)
  unfolding push
  before_of r x i v lt = ground arith

  push-held :
      (history : List A) (r : Ring A) (x : A)
      → Holds history r
      → (i : ℕ) → i < (push r x).count
      → get_elem? (push r x).slots (back (push r x) i) ≡ get_elem? (x ∷ history) i
  push-held history r x h zero lt =
      rw (back-push-zero r x h.valid)
        (unfold push in get_elem?-set_self r.slots r.index x (omega arith))
  push-held history r x h (suc i) lt =
      let (before, room) = before_of r x i h.valid lt in
      rw (back-push-suc r x i h.valid room) (
        unfold push in
        (get_elem?-set_ne r.slots x (back-ne-index r i h.valid room) ∙ h.held i before))

  -- A push puts the value in front of the history.
  pub push-Holds :
      (history : List A) (r : Ring A) (x : A) → Holds history r → Holds (x ∷ history) (push r x)
  unfolding push
  push-Holds history r x h = record {
    valid = push-IsValid r x h.valid;
    counted = ground arith;
    held = push-held history r x h;
  }

  -- An empty ring of `size` slots.
  pub fresh-Holds :
      (size : ℕ) (x : A)
      → 0 < size
      → Holds [] (record { slots = replicate size x; size = size; index = 0; count = 0 })
  fresh-Holds size x pos = record {
    valid = record { storage = length-replicate size x; index_in = pos; count_in = omega arith };
    counted = omega arith;
    held = λ i h. absurd (omega arith);
  }
