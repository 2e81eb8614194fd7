-- ===== src/RateLimit.antt =====
-- internal/middleware/ratelimit.go: a token bucket for each client address. `mu` makes the look-up
-- and the use of a bucket one step.
pub mod Laws
pub mod Throughput
pub mod Adaptive
mod Tests
use microgate.Base.{
  ℕ, ◌-◌, Bool, true, false, Option, none, some, List, [], ◌∷◌, if◌then◌else◌, GoString, GoMap,
  lookup, insert, lit,
}
use microgate.Base.Floats.{Float64, seconds}
use microgate.Http.{Request, Call, Handler, Middleware, Cell, http_error}
use microgate.Http.Address.{split_host}

pub record TokenBucket (F : Type 0) : Type 0 where
  pub tokens : F
  pub max_tokens : F
  pub refill_rate : F
  pub last_refill : ℕ

-- The map holds pointers: a change of a bucket is a change of the map's entry.
pub record RateLimiter (F : Type 0) : Type 0 where
  pub buckets : GoMap (TokenBucket F)
  pub max_tokens : F
  pub refill_rate : F

module _ {F : Type 0} where
  unfoldable pub new_rate_limiter : F → F → RateLimiter F
  new_rate_limiter max_tokens refill_rate = record {
    buckets = [];
    max_tokens = max_tokens;
    refill_rate = refill_rate;
  }

  new_bucket : RateLimiter F → ℕ → TokenBucket F
  new_bucket rl now = record {
    tokens = rl.max_tokens;
    max_tokens = rl.max_tokens;
    refill_rate = rl.refill_rate;
    last_refill = now;
  }

  -- The bucket of an address, with the map that holds it.
  unfoldable pub get_bucket : RateLimiter F → GoString → ℕ → TokenBucket F × RateLimiter F
  unfolding new_bucket
  get_bucket rl ip now = elim (lookup ip rl.buckets) [
    | some b ↦ (b, rl)
    | none ↦ let b = new_bucket rl now in (b, record rl { buckets = insert ip b rl.buckets })
  ]

module _ {F : Type 0} ⦃f : Float64 F⦄ where
  open f use {lt, le, add, sub, mul, of_nat}

  unfoldable pub refill : TokenBucket F → ℕ → TokenBucket F
  refill b now =
      let elapsed = seconds (now - b.last_refill) in
      let tokens = add b.tokens (mul elapsed b.refill_rate) in
      record b {
        tokens = if lt b.max_tokens tokens then b.max_tokens else tokens;
        last_refill = now;
      }

  unfoldable pub allow : TokenBucket F → ℕ → Bool × TokenBucket F
  allow b now =
      let b' = refill b now in
      if le (of_nat 1) b'.tokens
      then (true, record b' { tokens = sub b'.tokens (of_nat 1) })
      else (false, b')

  -- What the handlers do under the lock.
  unfoldable pub check : RateLimiter F → GoString → ℕ → Bool × RateLimiter F
  check rl ip now =
      let (b, rl') = get_bucket rl ip now in
      let (allowed, b') = allow b now in
      (allowed, record rl' { buckets = insert ip b' rl'.buckets })

  unfoldable pub middleware : {S : Type 0} → Cell S (RateLimiter F) → (S → ℕ) → Middleware S
  middleware rl clock next r s =
      let (allowed, rl') = check (rl.get s) (split_host r.remote_addr) (clock s) in
      let s' = rl.put rl' s in
      if allowed then next r s' else (http_error (lit "Too Many Requests") 429, s')
