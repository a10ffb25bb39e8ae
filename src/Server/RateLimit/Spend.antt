-- ===== src/Server/RateLimit/Spend.antt =====
-- internal/server/ratelimit.go: what one request leaves of the grants that a client can still have at an
-- instant.
use sys_sentient.Server.RateLimit.{
  FloatTime, Bucket, RateLimiter, sweep, refilled, take_token, spend, allow,
}
use sys_sentient.Server.RateLimit.Bound.{
  FloatLaws, Fits, IsReady, sweep-IsReady, refilled-Fits, write-IsReady,
}
use sys_sentient.Prelude.{
  Bool-cases, Option-cases, lookup-All, lookup-insert, ==_eq, insert, if◌then◌else◌, pos, ltb_ℤ,
  ◌==◌, nat_key, string_key, lookup, Time, since, minute, ℕ, zero, suc, ◌-◌, ◌^◌, ◌<◌, ◌≤◌, String,
  ◌≡◌, ◌⊎◌, refl, sym, ap, subst, ◌∙◌, inl, inr, Bool, true, false, ◌&&◌, none, some, arith,
}

module _ {F : Type 0} (ops : FloatTime F) where
  pub spend_as_new :
      (r : RateLimiter F) (key : String) (now : Time)
      → lookup key r.buckets ≡ none
      → spend ops r key now ≡ (
        record r {
          buckets =
              insert key
                (record { tokens = ops.sub r.capacity (ops.from_int 1); last = now })
                r.buckets;
        },
        true,
      )
  unfolding spend
  spend_as_new r key now e = rw (e, spend) refl

  pub spend_as_known :
      (r : RateLimiter F) (key : String) (now : Time) (b : Bucket F)
      → lookup key r.buckets ≡ some b
      → spend ops r key now ≡ take_token ops r key (refilled ops r now b)
  unfolding spend
  spend_as_known r key now b e = rw (e, spend) refl

  -- No time has gone by for the bucket.
  abbrev pub IsNow : Time → Bucket F → Type 0
  IsNow now b = ops.lt (ops.from_int 0) (ops.seconds (since now b.last)) ≡ false

  -- The limiter has been swept at this instant, or need not be.
  abbrev pub IsSwept : Time → RateLimiter F → Type 0
  IsSwept now r = ltb_ℤ (since now r.last_sweep) (pos minute) ≡ true

  pub sweep-IsSwept : (r : RateLimiter F) (now : Time) → IsSwept now (sweep ops r now)
  unfolding sweep
  sweep-IsSwept r now = ground arith

  pub sweep_again : (r : RateLimiter F) (now : Time) → IsSwept now r → sweep ops r now ≡ r
  unfolding sweep
  sweep_again r now h = rw h refl

module _ {F : Type 0} (ops : FloatTime F) (laws : FloatLaws ops) (n : ℕ) where
  -- At this instant the client's bucket holds at most `k` more tokens: it has been touched, or `k` is
  -- the burst.
  abbrev pub HasLeft : ℕ → String → Time → RateLimiter F → Type 0
  HasLeft k j now r =
      (k ≡ n)
      ⊎ ((b : Bucket F) × (lookup j r.buckets ≡ some b)
          × (laws.le b.tokens (ops.from_int k) ≡ true)
          × IsNow ops now b
          × IsSwept ops now r)

  refilled-IsNow :
      (r : RateLimiter F) (now : Time) (b : Bucket F) → IsNow ops now (refilled ops r now b)
  unfolding refilled
  refilled-IsNow r now b =
      elim (Bool-cases (ops.lt (ops.from_int 0) (ops.seconds (since now b.last)))) [
        | inr still ↦ rw still still
        | inl gone_by ↦
            let none_since : since now now ≡ pos 0 = ground arith in
            rw gone_by (rw none_since laws.no_time)
      ]

  pub refilled_still :
      (r : RateLimiter F) (now : Time) (b : Bucket F) → IsNow ops now b → refilled ops r now b ≡ b
  unfolding refilled
  refilled_still r now b h = rw h refl

  abbrev pub cost : Bool → ℕ
  cost done = if done then 1 else 0

  -- Nothing is spent from a bucket that holds nothing.
  some_held :
      (k : ℕ) (x : F)
      → laws.le x (ops.from_int k) ≡ true
      → ops.lt x (ops.from_int 1) ≡ false
      → 0 < k
  some_held zero x h e = let gone : true ≡ false = sym (laws.below_one x h) ∙ e in absurd (cc)
  some_held (suc k) x h e = omega arith

  -- What one request leaves: as many grants less, if it is the client's and is granted.
  abbrev pub counted : String → String → Bool → ℕ
  counted key j done = if key == j && done then 1 else 0

  abbrev pub Leaves : ℕ → String → String → Time → RateLimiter F × Bool → Type 0
  Leaves k key j now (r, done) =
      IsReady ops laws n r × (counted key j done ≤ k) × HasLeft (k - counted key j done) j now r

  counted_own : (key j : String) (done : Bool) → (key == j) ≡ true → counted key j done ≡ cost done
  counted_own key j done h = rw h refl

  write-Leaves :
      (k : ℕ) (key j : String) (now : Time) (done : Bool) (r : RateLimiter F) (b : Bucket F)
      → IsReady ops laws n r
      → IsSwept ops now r
      → Fits ops laws n (key, b)
      → IsNow ops now b
      → HasLeft k j now r
      → ((key == j) ≡ true
          → (cost done ≤ k) × (laws.le b.tokens (ops.from_int (k - cost done)) ≡ true))
      → Leaves k key j now (record r { buckets = insert key b r.buckets }, done)
  write-Leaves k key j now done r b v swept fit at_once left own = elim (Bool-cases (key == j)) [
    | inl h ↦
        let same : counted key j done ≡ cost done = counted_own key j done h in
        let written : lookup j (insert key b r.buckets) ≡ some b =
          lookup-insert key j b r.buckets ∙ ap (λ c. if c then some b else lookup j r.buckets) h in
        (
          write-IsReady ops laws n r key b v fit,
          omega (arith, same, (own h).0),
          inr (
            b,
            written,
            subst (λ c. laws.le b.tokens (ops.from_int (k - c)) ≡ true) (sym same) (own h).1,
            at_once,
            swept,
          ),
        )
    | inr h ↦
        let nothing : counted key j done ≡ 0 = (rw h refl) in
        let all_left : k - counted key j done ≡ k = omega (arith, nothing) in
        let kept : lookup j (insert key b r.buckets) ≡ lookup j r.buckets =
          lookup-insert key j b r.buckets ∙ ap (λ c. if c then some b else lookup j r.buckets) h in
        (
          write-IsReady ops laws n r key b v fit,
          omega (arith, nothing),
          rw all_left (elim left [
            | inl full ↦ inl full
            | inr (old, e, le, is_now, s) ↦ inr (old, kept ∙ e, le, is_now, s)
          ]),
        )
  ]

  module _ (at_least : 0 < n) (exact : n ≤ 2 ^ 53) where
    spend_new-Leaves :
        (k : ℕ) (key j : String) (now : Time) (r : RateLimiter F)
        → IsReady ops laws n r
        → IsSwept ops now r
        → lookup key r.buckets ≡ none
        → HasLeft k j now r
        → Leaves k key j now (spend ops r key now)
    spend_new-Leaves k key j now r v swept e left =
        let full = ops.from_int n in
        let b : Bucket F = record { tokens = ops.sub r.capacity (ops.from_int 1); last = now } in
        let fit : Fits ops laws n (key, b) = rw v.whole (
          laws.sub_nonneg full (laws.nat_nonneg n) (laws.one_nat n at_least),
          laws.sub_less full n (laws.nat_refl n),
        ) in
        let at_once : IsNow ops now b =
          (let none_since : since now now ≡ pos 0 = ground arith in rw none_since laws.no_time) in
        let own : (key == j) ≡ true
            → (cost true ≤ k) × (laws.le b.tokens (ops.from_int (k - cost true)) ≡ true) =
          λ h. elim left [
            | inl all_left ↦
                rw (v.whole, all_left)
                  (at_least, laws.sub_one full n at_least exact (laws.nat_refl n))
            | inr (old, found, le, is_now, s) ↦
                let clash : none ≡ some old =
                  sym e ∙ ap (λ i. lookup i r.buckets) (==_eq key j h) ∙ found in
                absurd (cc)
          ] in
        subst (Leaves k key j now) (sym (spend_as_new ops r key now e))
          (write-Leaves k key j now true r b v swept fit at_once left own)

    spend_known-Leaves :
        (k : ℕ) (key j : String) (now : Time) (r : RateLimiter F) (b : Bucket F)
        → k ≤ n
        → IsReady ops laws n r
        → IsSwept ops now r
        → lookup key r.buckets ≡ some b
        → HasLeft k j now r
        → Leaves k key j now (spend ops r key now)
    unfolding take_token
    spend_known-Leaves k key j now r b kn v swept e left =
        let b' = refilled ops r now b in
        let fit =
          refilled-Fits ops laws n r now key b v
            (lookup-All (Fits ops laws n) key b r.buckets v.fitting e) in
        let holds : (key == j) ≡ true → laws.le b'.tokens (ops.from_int k) ≡ true = λ h. elim left [
          | inl all_left ↦ rw all_left fit.1
          | inr (old, found, le, is_now, s) ↦
              let same : some old ≡ some b =
                sym found ∙ ap (λ i. lookup i r.buckets) (sym (==_eq key j h)) ∙ e in
              let same' : old ≡ b = cc in
              let still = refilled_still r now b (subst (IsNow ops now) same' is_now) in
              subst (λ c. laws.le c.tokens (ops.from_int k) ≡ true) (same' ∙ sym still) le
        ] in
        subst (Leaves k key j now) (sym (spend_as_known ops r key now b e))
          (elim (Bool-cases (ops.lt b'.tokens (ops.from_int 1))) [
            | inl short ↦ rw short (
                write-Leaves k key j now false r b' v swept fit (refilled-IsNow r now b) left (λ h.
                  let all_left : k - cost false ≡ k = omega arith in
                  (omega arith, rw all_left (holds h))))
            | inr enough ↦
                let less : Bucket F = record b' { tokens = ops.sub b'.tokens (ops.from_int 1) } in
                let fit' : Fits ops laws n (key, less) =
                  (laws.sub_nonneg b'.tokens fit.0 enough, laws.sub_less b'.tokens n fit.1) in
                rw enough (
                  write-Leaves k key j now true r less v swept fit' (refilled-IsNow r now b) left
                    (λ h.
                      let some_left : 0 < k = some_held k b'.tokens (holds h) enough in
                      (
                        some_left,
                        laws.sub_one b'.tokens k some_left (omega (arith, kn, exact)) (holds h),
                      )))
          ])

    pub allow-Leaves :
        (k : ℕ) (key j : String) (now : Time) (r : RateLimiter F)
        → k ≤ n
        → IsReady ops laws n r
        → HasLeft k j now r
        → Leaves k key j now (allow ops r key now)
    unfolding allow
    allow-Leaves k key j now r kn v left =
        let swept = sweep ops r now in
        let v' = sweep-IsReady ops laws n r now v in
        let s = sweep-IsSwept ops r now in
        let left' : HasLeft k j now swept = elim left [
          | inl all_left ↦ inl all_left
          | inr (b, e, le, is_now, done) ↦
              subst (HasLeft k j now) (sym (sweep_again ops r now done))
                (inr (b, e, le, is_now, done))
        ] in
        elim (Option-cases (lookup key swept.buckets)) [
          | inl e ↦ spend_new-Leaves k key j now swept v' s e left'
          | inr (b, e) ↦ spend_known-Leaves k key j now swept b kn v' s e left'
        ]
