-- ===== src/Server/RateLimit.antt =====
-- internal/server/ratelimit.go: a token bucket for each client.
-- float64 is a parameter: a type with the operations that the limiter applies to it, rounding included.
pub mod Bound
pub mod Spend
pub mod Fresh
pub mod Window
use sys_sentient.Server.AgentHandlers.{wrap_64}
use sys_sentient.Prelude.{
  if◌then◌else◌, ℤ, pos, negsuc, pos_part, ltb_ℤ, leb_ℤ, nat_key, string_key, lookup, insert,
  retain, Time, Duration, since, second, minute, ℕ, ◌+◌, ◌-◌, ◌*◌, ◌%◌, ◌^◌, String, Bool, true,
  false, not, none, some, List, [], arith,
}

-- `float64(n)`, the operators, `d.Seconds()`, and `time.Duration(x)`.
pub record FloatTime (F : Type 0) : Type 0 where
  pub from_int : ℕ → F
  pub lt : F → F → Bool
  pub add : F → F → F
  pub sub : F → F → F
  pub mul : F → F → F
  pub div : F → F → F
  pub seconds : Duration → F
  pub to_duration : F → Duration

pub record Bucket (F : Type 0) : Type 0 where
  pub tokens : F
  pub last : Time

pub record RateLimiter (F : Type 0) : Type 0 where
  pub buckets : List (String × Bucket F)
  pub capacity : F
  pub refill : F
  pub last_sweep : Time

-- `d * time.Second`, in 64 bits.
unfoldable pub times_second : Duration → Duration
times_second (pos n) = wrap_64 (n * second)
times_second (negsuc n) = wrap_64 (2 ^ 64 - (n + 1) * second % 2 ^ 64)

-- At least one request at once.
unfoldable pub clamp_burst : ℤ → ℕ
clamp_burst burst = if ltb_ℤ burst (pos 1) then 1 else pos_part burst

module _ {F : Type 0} (ops : FloatTime F) where
  unfoldable pub new_rate_limiter : ℤ → Duration → Time → RateLimiter F
  unfolding clamp_burst
  new_rate_limiter burst per_request now = record {
    buckets = [];
    capacity = ops.from_int (clamp_burst burst);
    refill =
        ops.div (ops.from_int 1)
          (ops.seconds (if leb_ℤ per_request (pos 0) then pos second else per_request));
    last_sweep = now;
  }

  unfoldable pub idle_full_after : RateLimiter F → Duration
  unfolding times_second
  idle_full_after r = times_second (ops.to_duration (ops.div r.capacity r.refill))

  unfoldable pub keeps : RateLimiter F → Time → String → Bucket F → Bool
  unfolding idle_full_after
  keeps r now key b = not (ltb_ℤ (idle_full_after r) (since now b.last))

  unfoldable pub sweep : RateLimiter F → Time → RateLimiter F
  unfolding keeps
  sweep r now =
      if ltb_ℤ (since now r.last_sweep) (pos minute)
      then r
      else record r { last_sweep = now; buckets = retain (keeps r now) r.buckets }

  -- The refill of a bucket that is there.
  unfoldable pub refilled : RateLimiter F → Time → Bucket F → Bucket F
  refilled r now b =
      let elapsed = ops.seconds (since now b.last) in
      let tokens = ops.add b.tokens (ops.mul elapsed r.refill) in
      if ops.lt (ops.from_int 0) elapsed
      then record { tokens = if ops.lt r.capacity tokens then r.capacity else tokens; last = now }
      else b

  unfoldable pub take_token : RateLimiter F → String → Bucket F → RateLimiter F × Bool
  take_token r key b =
      if ops.lt b.tokens (ops.from_int 1)
      then (record r { buckets = insert key b r.buckets }, false)
      else (
        record r {
          buckets = insert key (record b { tokens = ops.sub b.tokens (ops.from_int 1) }) r.buckets;
        },
        true,
      )

  -- `allow` after the sweep.
  unfoldable pub spend : RateLimiter F → String → Time → RateLimiter F × Bool
  unfolding take_token refilled
  spend r key now = elim (lookup key r.buckets) [
    | none ↦ (
      record r {
        buckets =
            insert key (record { tokens = ops.sub r.capacity (ops.from_int 1); last = now })
              r.buckets;
      },
      true,
    )
    | some b ↦ take_token r key (refilled r now b)
  ]

  unfoldable pub allow : RateLimiter F → String → Time → RateLimiter F × Bool
  unfolding sweep spend
  allow r key now = spend (sweep r now) key now
