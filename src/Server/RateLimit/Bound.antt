-- ===== src/Server/RateLimit/Bound.antt =====
-- internal/server/ratelimit.go: no bucket holds more than the capacity, or less than nothing.
use sys_sentient.Server.RateLimit.{
  FloatTime, Bucket, RateLimiter, clamp_burst, new_rate_limiter, keeps, sweep, refilled,
}
use sys_sentient.Prelude.{
  Bool-cases, All, All-insert, All-retain, insert, ℤ, pos, leb_ℤ, nat_key, string_key, Time,
  Duration, since, ℕ, ◌-◌, ◌^◌, ◌<◌, ◌≤◌, String, ◌≡◌, refl, inl, inr, Bool, true, false, arith,
}

-- What float64 guarantees of the operations, with its `<=`. A whole number of at most 2 ^ 53 is exact,
-- and rounding keeps the order.
pub record FloatLaws {F : Type 0} (ops : FloatTime F) : Type 0 where
  pub le : F → F → Bool
  pub nat_nonneg : (n : ℕ) → le (ops.from_int 0) (ops.from_int n) ≡ true
  pub nat_refl : (n : ℕ) → le (ops.from_int n) (ops.from_int n) ≡ true
  pub one_nat : (n : ℕ) → 0 < n → ops.lt (ops.from_int n) (ops.from_int 1) ≡ false
  pub sub_one :
      (x : F) (n : ℕ)
      → 0 < n
      → n ≤ 2 ^ 53
      → le x (ops.from_int n) ≡ true
      → le (ops.sub x (ops.from_int 1)) (ops.from_int (n - 1)) ≡ true
  pub sub_exact :
      (n : ℕ)
      → 0 < n
      → n ≤ 2 ^ 53
      → ops.sub (ops.from_int n) (ops.from_int 1) ≡ ops.from_int (n - 1)
  pub sub_less :
      (x : F) (n : ℕ)
      → le x (ops.from_int n) ≡ true
      → le (ops.sub x (ops.from_int 1)) (ops.from_int n) ≡ true
  pub sub_nonneg :
      (x : F)
      → le (ops.from_int 0) x ≡ true
      → ops.lt x (ops.from_int 1) ≡ false
      → le (ops.from_int 0) (ops.sub x (ops.from_int 1)) ≡ true
  pub below_one : (x : F) → le x (ops.from_int 0) ≡ true → ops.lt x (ops.from_int 1) ≡ true
  pub add_nonneg :
      (x y : F)
      → le (ops.from_int 0) x ≡ true
      → le (ops.from_int 0) y ≡ true
      → le (ops.from_int 0) (ops.add x y) ≡ true
  pub mul_nonneg :
      (x y : F)
      → ops.lt (ops.from_int 0) x ≡ true
      → ops.lt (ops.from_int 0) y ≡ true
      → le (ops.from_int 0) (ops.mul x y) ≡ true
  pub not_above :
      (x : F) (n : ℕ)
      → le (ops.from_int 0) x ≡ true
      → ops.lt (ops.from_int n) x ≡ false
      → le x (ops.from_int n) ≡ true
  pub rate_positive :
      (d : Duration)
      → leb_ℤ d (pos 0) ≡ false
      → ops.lt (ops.from_int 0) (ops.div (ops.from_int 1) (ops.seconds d)) ≡ true
  pub no_time : ops.lt (ops.from_int 0) (ops.seconds (pos 0)) ≡ false

module _ {F : Type 0} (ops : FloatTime F) (laws : FloatLaws ops) where
  abbrev pub Fits : ℕ → String × Bucket F → Type 0
  Fits n p =
      (laws.le (ops.from_int 0) (p.1).tokens ≡ true)
      × (laws.le (p.1).tokens (ops.from_int n) ≡ true)

  -- A limiter of `n` requests at once, whose buckets hold no more and no less than nothing.
  pub record IsReady (n : ℕ) (r : RateLimiter F) : Type 0 where
    pub fitting : All (Fits n) r.buckets
    pub whole : r.capacity ≡ ops.from_int n
    pub refilling : ops.lt (ops.from_int 0) r.refill ≡ true

  pub new_rate_limiter-IsReady :
      (burst : ℤ) (per : Duration) (now : Time)
      → IsReady (clamp_burst burst) (new_rate_limiter ops burst per now)
  unfolding new_rate_limiter
  new_rate_limiter-IsReady burst per now = record {
    fitting = tt;
    whole = refl;
    refilling = elim (Bool-cases (leb_ℤ per (pos 0))) [
      | inl none_given ↦ rw none_given (laws.rate_positive _ refl)
      | inr given ↦ rw given (laws.rate_positive per given)
    ];
  }

  module _ (n : ℕ) where
    pub sweep-IsReady : (r : RateLimiter F) (now : Time) → IsReady n r → IsReady n (sweep ops r now)
    unfolding sweep
    sweep-IsReady r now v =
        ground (arith, All-retain (Fits n) (keeps ops r now) r.buckets v.fitting)

    pub refilled-Fits :
        (r : RateLimiter F) (now : Time) (key : String) (b : Bucket F)
        → IsReady n r
        → Fits n (key, b)
        → Fits n (key, refilled ops r now b)
    unfolding refilled
    refilled-Fits r now key b v fit =
        let elapsed = ops.seconds (since now b.last) in
        let tokens = ops.add b.tokens (ops.mul elapsed r.refill) in
        elim (Bool-cases (ops.lt (ops.from_int 0) elapsed)) [
          | inr still ↦ rw still fit
          | inl gone_by ↦
              let more = laws.mul_nonneg elapsed r.refill gone_by v.refilling in
              let nonneg = laws.add_nonneg b.tokens (ops.mul elapsed r.refill) fit.0 more in
              rw (gone_by, v.whole)
                (elim (Bool-cases (ops.lt (ops.from_int n) tokens)) [
                  | inl above ↦ rw above (laws.nat_nonneg n, laws.nat_refl n)
                  | inr under ↦ rw under (nonneg, laws.not_above tokens n nonneg under)
                ])
        ]

    -- Writing a bucket that fits.
    pub write-IsReady :
        (r : RateLimiter F) (key : String) (b : Bucket F)
        → IsReady n r
        → Fits n (key, b)
        → IsReady n (record r { buckets = insert key b r.buckets })
    write-IsReady r key b v fit = record {
      fitting = All-insert (Fits n) key b r.buckets fit v.fitting;
      whole = v.whole;
      refilling = v.refilling;
    }
