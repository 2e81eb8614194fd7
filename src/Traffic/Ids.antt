-- ===== src/Traffic/Ids.antt =====
-- internal/middleware/requestid.go: the ids that are made of random bytes.
use microgate.Base.{
  ℕ, ◌+◌, ◌*◌, ◌-◌, ◌/◌, ◌%◌, ◌<◌, ◌≡◌, refl, List, [], ◌∷◌, GoString, ltb, if◌then◌else◌, length,
  arith,
}

abbrev hex_digit : ℕ → ℕ
hex_digit d = if ltb d 10 then 48 + d else 87 + d

-- `fmt.Sprintf("%x", b)`
hex : List ℕ → GoString
hex [] = []
hex (b ∷ bytes) = hex_digit (b / 16) ∷ hex_digit (b % 16) ∷ hex bytes

-- The four bytes are what `rand.Read` fills in.
unfoldable pub generate_id : ℕ → ℕ → ℕ → ℕ → GoString
unfolding hex
generate_id a b c d = hex (a ∷ b ∷ c ∷ d ∷ [])

abbrev digit_value : ℕ → ℕ
digit_value c = if ltb c 58 then c - 48 else c - 87

abbrev pub bytes_of : GoString → List ℕ
bytes_of [] = []
bytes_of (h ∷ []) = []
bytes_of (h ∷ l ∷ rest) = (16 * digit_value h + digit_value l) ∷ bytes_of rest

AllBytes : List ℕ → Type 0
AllBytes [] = Unit
AllBytes (b ∷ bytes) = (b < 256) × AllBytes bytes

digit_value-hex_digit : (d : ℕ) → d < 16 → digit_value (hex_digit d) ≡ d
digit_value-hex_digit d h = ground arith

bytes_of-hex : (bytes : List ℕ) → AllBytes bytes → bytes_of (hex bytes) ≡ bytes
unfolding hex AllBytes
bytes_of-hex [] h = refl
bytes_of-hex (b ∷ bytes) (small, h) =
    let high = digit_value-hex_digit (b / 16) (omega arith) in
    let low = digit_value-hex_digit (b % 16) (omega arith) in
    let whole : 16 * (b / 16) + b % 16 ≡ b = omega arith in
    rw (high, low, whole, bytes_of-hex bytes h) refl

-- An id has eight characters, and the four bytes that it was made of can be read from it: two ids are the same only
-- if their bytes are.
pub generate_id_lem :
    (a b c d : ℕ)
    → a < 256
    → b < 256
    → c < 256
    → d < 256
    → (length (generate_id a b c d) ≡ 8) × (bytes_of (generate_id a b c d) ≡ a ∷ b ∷ c ∷ d ∷ [])
unfolding generate_id hex AllBytes
generate_id_lem a b c d ha hb hc hd =
    (refl, bytes_of-hex (a ∷ b ∷ c ∷ d ∷ []) (ha, (hb, (hc, (hd, tt)))))
