-- ===== src/RateLimit/Laws.antt =====
-- internal/middleware/ratelimit.go: caps, and the independence of clients.
use microgate.Base.{
  refl, ◌∙◌, List, [], ◌∷◌, ℕ, ◌-◌, ◌≡◌, ap, ◌⊎◌, false, some, if◌then◌else◌, GoString, lookup,
  lookup-insert, str_eq, str_eq_iff, arith, inl, inr, Bool-cases,
}
use microgate.Base.Floats.{Float64, IsOrdered, seconds}
use microgate.RateLimit.{
  TokenBucket, RateLimiter, new_rate_limiter, get_bucket, refill, allow, check,
}

module _ {F : Type 0} ⦃f : Float64 F⦄ where
  open f use {lt, le, add, sub, mul, of_nat}

  abbrev pub IsCappedBucket : F → TokenBucket F → Type 0
  IsCappedBucket limit b = (b.max_tokens ≡ limit) × (lt limit b.tokens ≡ false)

  -- No bucket holds more than the limiter's maximum.
  abbrev pub IsCapped : RateLimiter F → Type 0
  IsCapped rl =
      (ip : GoString) (b : TokenBucket F)
      → lookup ip rl.buckets ≡ some b
      → IsCappedBucket rl.max_tokens b

  -- What a client starts with.
  abbrev pub fresh : RateLimiter F → ℕ → TokenBucket F
  fresh rl now = record {
    tokens = rl.max_tokens;
    max_tokens = rl.max_tokens;
    refill_rate = rl.refill_rate;
    last_refill = now;
  }

  -- The bucket that `check` uses for a client.
  abbrev pub bucket_of : RateLimiter F → GoString → ℕ → TokenBucket F
  bucket_of rl ip now = (get_bucket rl ip now).0

  get_bucket_lem :
      (rl : RateLimiter F) (ip other : GoString) (now : ℕ)
      → let (b, rl') = get_bucket rl ip now in
        (lookup other rl'.buckets ≡ (if str_eq ip other then some b else lookup other rl.buckets))
        × (rl'.max_tokens ≡ rl.max_tokens)
        × (rl'.refill_rate ≡ rl.refill_rate)
        × ((b ≡ fresh rl now) ⊎ (lookup ip rl.buckets ≡ some b))
  unfolding get_bucket
  get_bucket_lem rl ip other now =
      ground (arith, lookup-insert ip other (fresh rl now) rl.buckets, str_eq_iff ip other)

  -- `check` decides by the client's own bucket, stores what `allow` leaves of it, and touches no other
  -- client's bucket.
  pub check_lem :
      (rl : RateLimiter F) (ip other : GoString) (now : ℕ)
      → let (allowed, rl') = check rl ip now in
        let (allowed', b') = allow (bucket_of rl ip now) now in
        (allowed ≡ allowed')
        × (lookup other rl'.buckets
            ≡ (if str_eq ip other then some b' else lookup other rl.buckets))
        × (rl'.max_tokens ≡ rl.max_tokens)
        × (rl'.refill_rate ≡ rl.refill_rate)
  unfolding check
  check_lem rl ip other now =
      let (b, rl') = get_bucket rl ip now in
      ground
        (arith, get_bucket_lem rl ip other now, lookup-insert ip other (allow b now).1 rl'.buckets)

  -- The limiter after the requests of all clients, at any instants.
  abbrev pub after : RateLimiter F → List (GoString × ℕ) → RateLimiter F
  after rl [] = rl
  after rl ((ip, now) ∷ rest) = after (check rl ip now).1 rest

  module _ (laws : IsOrdered F) where
    open laws use {lt_irrefl, lt-sub_one}

    allow-IsCappedBucket :
        (limit : F) (b : TokenBucket F) (now : ℕ)
        → b.max_tokens ≡ limit
        → IsCappedBucket limit (allow b now).1
    unfolding allow refill
    allow-IsCappedBucket limit b now e = ground (
      arith,
      lt_irrefl limit,
      lt-sub_one limit limit,
      lt-sub_one limit (add b.tokens (mul (seconds (now - b.last_refill)) b.refill_rate)),
    )

    -- Every request leaves each bucket within the maximum.
    check-IsCapped :
        (rl : RateLimiter F) (ip : GoString) (now : ℕ) → IsCapped rl → IsCapped (check rl ip now).1
    check-IsCapped rl ip now h other b e =
        let (_, found, same, _) = check_lem rl ip other now in
        let (_, _, _, origin) = get_bucket_lem rl ip ip now in
        let own : (bucket_of rl ip now).max_tokens ≡ rl.max_tokens = elim origin [
          | inl new ↦ ap (λ c. c.max_tokens) new
          | inr old ↦ (h ip (bucket_of rl ip now) old).0
        ] in
        elim (Bool-cases (str_eq ip other)) [
          | inl mine ↦
              rw same
                (ground (arith, allow-IsCappedBucket rl.max_tokens (bucket_of rl ip now) now own))
          | inr not_mine ↦ rw same (ground (arith, h other b))
        ]

    after-IsCapped :
        (events : List (GoString × ℕ)) (rl : RateLimiter F)
        → IsCapped rl
        → IsCapped (after rl events) × ((after rl events).max_tokens ≡ rl.max_tokens)
    after-IsCapped [] rl h = (h, refl)
    after-IsCapped ((ip, now) ∷ rest) rl h =
        let (_, _, same, _) = check_lem rl ip ip now in
        let (capped, kept) = after-IsCapped rest (check rl ip now).1 (check-IsCapped rl ip now h) in
        (capped, kept ∙ same)

    -- Whatever clients send to a new limiter at whatever instants, which may also go back, each bucket has the
    -- limiter's maximum as its own, and never holds more tokens than that.
    pub capped_lem :
        (max_tokens refill_rate : F) (events : List (GoString × ℕ)) (ip : GoString)
        (b : TokenBucket F)
        → lookup ip (after (new_rate_limiter max_tokens refill_rate) events).buckets ≡ some b
        → (b.max_tokens ≡ max_tokens) × (lt max_tokens b.tokens ≡ false)
    unfolding new_rate_limiter lookup
    capped_lem max_tokens refill_rate events ip b e =
        let start = new_rate_limiter max_tokens refill_rate in
        let empty : IsCapped start = λ other c found. ground arith in
        let (capped, kept) = after-IsCapped events start empty in
        let (own, below) = capped ip b e in (own ∙ kept, rw (← kept) below)
