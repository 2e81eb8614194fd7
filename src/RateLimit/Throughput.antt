-- ===== src/RateLimit/Throughput.antt =====
-- internal/middleware/ratelimit.go: what the requests of one client are granted among those of others.
use microgate.Base.{
  ℕ, ◌+◌, ◌≡◌, refl, some, List, [], ◌∷◌, if◌then◌else◌, GoString, lookup, str_eq, str_eq_iff,
  arith, Bool-cases, inl, inr,
}
use microgate.Base.Floats.{Float64}
use microgate.RateLimit.{TokenBucket, RateLimiter, get_bucket, allow, check}
use microgate.RateLimit.Laws.{check_lem, bucket_of}

-- The instants of one client's requests.
abbrev pub own : GoString → List (GoString × ℕ) → List ℕ
own client [] = []
own client ((ip, t) ∷ rest) = if str_eq ip client then t ∷ own client rest else own client rest

module _ {F : Type 0} ⦃f : Float64 F⦄ where
  -- The requests of one client in order: how many are granted, and what is left of its bucket.
  unfoldable pub run : TokenBucket F → List ℕ → ℕ × TokenBucket F
  run b [] = (0, b)
  run b (t ∷ ts) =
      let (allowed, b') = allow b t in
      let (n, last) = run b' ts in (if allowed then n + 1 else n, last)

  -- The requests of all clients in order: how many of one client's are granted.
  unfoldable pub granted_to : GoString → RateLimiter F → List (GoString × ℕ) → ℕ
  granted_to client rl [] = 0
  granted_to client rl ((ip, t) ∷ rest) =
      let (allowed, rl') = check rl ip t in
      let n = granted_to client rl' rest in
      if str_eq ip client then if allowed then n + 1 else n else n

  bucket_of-found :
      (rl : RateLimiter F) (ip : GoString) (now : ℕ) (b : TokenBucket F)
      → lookup ip rl.buckets ≡ some b
      → bucket_of rl ip now ≡ b
  unfolding get_bucket
  bucket_of-found rl ip now b e = ground arith

  -- A client that has a bucket is granted what its bucket alone grants to its own requests, whatever
  -- the other clients send in between.
  pub granted_to_lem :
      (client : GoString) (events : List (GoString × ℕ)) (rl : RateLimiter F) (b : TokenBucket F)
      → lookup client rl.buckets ≡ some b
      → granted_to client rl events ≡ (run b (own client events)).0
  unfolding granted_to run
  granted_to_lem client [] rl b e = refl
  granted_to_lem client ((ip, t) ∷ rest) rl b e =
      let (same_answer, found, _, _) = check_lem rl ip client t in
      let rl' = (check rl ip t).1 in
      elim (Bool-cases (str_eq ip client)) [
        | inl mine ↦
            let e' : lookup ip rl.buckets ≡ some b = rw ((str_eq_iff ip client).0 mine) e in
            let own_bucket = bucket_of-found rl ip t b e' in
            ground (arith, own_bucket, granted_to_lem client rest rl' (allow b t).1)
        | inr other ↦ ground (arith, granted_to_lem client rest rl' b)
      ]
