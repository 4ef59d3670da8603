-- ===== src/Security/ShareRate.antt =====
-- `ShareRateLimiter`: a bucket of tokens in floating point, refilled by the clock.
use solo_pool_rs.Prelude.{ℕ, ◌-◌, Bool, true, false, if◌then◌else◌}
use solo_pool_rs.Vardiff.{F64}

module _ (f : F64) where
  pub record ShareRateLimiter : Type 0 where
    pub tokens : f.Carrier
    pub max_per_sec : f.Carrier
    pub last_refill : ℕ

  unfoldable pub new : ℕ → ℕ → ShareRateLimiter
  new max_per_sec now = record {
    tokens = f.of_u64 max_per_sec;
    max_per_sec = f.of_u64 max_per_sec;
    last_refill = now;
  }

  -- The clock is read for the elapsed time, and again for the refill.
  unfoldable pub refill : ℕ → ℕ → ShareRateLimiter → ShareRateLimiter
  refill now later l = record {
    tokens =
        f.fmin (f.add l.tokens (f.mul (f.as_secs (now - l.last_refill)) l.max_per_sec))
          l.max_per_sec;
    max_per_sec = l.max_per_sec;
    last_refill = later;
  }

  unfoldable pub try_consume : ℕ → ℕ → ShareRateLimiter → Bool × ShareRateLimiter
  unfolding refill
  try_consume now later l =
      let refilled = refill now later l in
      if f.le (f.of_u64 1) refilled.tokens
      then (true, record refilled { tokens = f.sub refilled.tokens (f.of_u64 1) })
      else (false, refilled)
