-- ===== src/Server/RateLimit/Fresh.antt =====
-- internal/server/ratelimit.go: what one request leaves of the tokens of a client that is new at an
-- instant, exactly.
use sys_sentient.Server.RateLimit.Spend.{
  spend_as_new, spend_as_known, IsNow, IsSwept, sweep_again, refilled_still,
}
use sys_sentient.Server.RateLimit.{FloatTime, Bucket, RateLimiter, refilled, take_token, allow}
use sys_sentient.Server.RateLimit.Bound.{FloatLaws}
use sys_sentient.Prelude.{
  ltb, Bool-cases, Option-cases, lookup-insert, ==_eq, insert, if◌then◌else◌, pos, ◌==◌, nat_key,
  string_key, lookup, Time, since, ℕ, zero, suc, ◌-◌, ◌^◌, ◌<◌, ◌≤◌, String, ◌≡◌, ◌⊎◌, refl, sym,
  ap, subst, ◌∙◌, inl, inr, Bool, true, false, none, some, arith,
}

module _ {F : Type 0} (ops : FloatTime F) (laws : FloatLaws ops) (n : ℕ) where
  -- At this instant the client can have exactly `k` more grants: it is new and `k` is the burst, or its
  -- bucket holds `k` tokens.
  abbrev pub HasExactly : ℕ → String → Time → RateLimiter F → Type 0
  HasExactly k j now r =
      IsSwept ops now r
      × (((k ≡ n) × (lookup j r.buckets ≡ none))
          ⊎ ((b : Bucket F) × (lookup j r.buckets ≡ some b)
              × (b.tokens ≡ ops.from_int k)
              × IsNow ops now b))

  -- A request of the client is granted if a grant is left; no other client's request changes that.
  abbrev pub ExactlyLeaves : ℕ → String → String → Time → RateLimiter F × Bool → Type 0
  ExactlyLeaves k key j now (r, done) =
      ((key == j) ≡ true → done ≡ ltb 0 k) × HasExactly (if key == j then k - 1 else k) j now r

  write-ExactlyLeaves :
      (k : ℕ) (key j : String) (now : Time) (done : Bool) (r : RateLimiter F) (b : Bucket F)
      → HasExactly k j now r
      → ((key == j) ≡ true → (done ≡ ltb 0 k) × (b.tokens ≡ ops.from_int (k - 1)) × IsNow ops now b)
      → ExactlyLeaves k key j now (record r { buckets = insert key b r.buckets }, done)
  write-ExactlyLeaves k key j now done r b (swept, left) own =
      let found = lookup-insert key j b r.buckets in
      elim (Bool-cases (key == j)) [
        | inl h ↦
            let written = found ∙ ap (λ c. if c then some b else lookup j r.buckets) h in
            let (answered, holds, at_once) = own h in
            rw h ((λ e. answered), (swept, inr (b, written, holds, at_once)))
        | inr h ↦
            let kept = found ∙ ap (λ c. if c then some b else lookup j r.buckets) h in
            rw h (
              (λ e. absurd (cc)),
              (
                swept,
                elim left [
                  | inl (all_left, e) ↦ inl (all_left, kept ∙ e)
                  | inr (old, e, holds, at_once) ↦ inr (old, kept ∙ e, holds, at_once)
                ],
              ),
            )
      ]

  none_held : (k : ℕ) → ops.lt (ops.from_int k) (ops.from_int 1) ≡ true → k ≡ 0
  none_held zero h = refl
  none_held (suc k) h = let full = laws.one_nat (suc k) (omega arith) in absurd (cc)

  one_held : (k : ℕ) → ops.lt (ops.from_int k) (ops.from_int 1) ≡ false → 0 < k
  one_held zero h = let short = laws.below_one (ops.from_int 0) (laws.nat_refl 0) in absurd (cc)
  one_held (suc k) h = omega arith

  module _ (at_least : 0 < n) (exact : n ≤ 2 ^ 53) where
    take_token-Exactly :
        (k : ℕ) (key j : String) (now : Time) (r : RateLimiter F) (b : Bucket F)
        → k ≤ n
        → HasExactly k j now r
        → ((key == j) ≡ true → (b.tokens ≡ ops.from_int k) × IsNow ops now b)
        → ExactlyLeaves k key j now (take_token ops r key b)
    unfolding take_token
    take_token-Exactly k key j now r b kn left own =
        elim (Bool-cases (ops.lt b.tokens (ops.from_int 1))) [
          | inl short ↦ rw short (
              write-ExactlyLeaves k key j now false r b left (λ h.
                let (holds, at_once) = own h in
                let nothing : k ≡ 0 =
                  none_held k (sym (ap (λ x. ops.lt x (ops.from_int 1)) holds) ∙ short) in
                let rest : k - 1 ≡ k = omega (arith, nothing) in
                (rw nothing refl, rw rest holds, at_once)))
          | inr enough ↦
              let less : Bucket F = record b { tokens = ops.sub b.tokens (ops.from_int 1) } in
              rw enough (
                write-ExactlyLeaves k key j now true r less left (λ h.
                  let (holds, at_once) = own h in
                  let some_left : 0 < k =
                    one_held k (sym (ap (λ x. ops.lt x (ops.from_int 1)) holds) ∙ enough) in
                  (
                    ground (arith, some_left),
                    ap (λ x. ops.sub x (ops.from_int 1)) holds
                        ∙ laws.sub_exact k some_left (omega (arith, kn, exact)),
                    at_once,
                  )))
        ]

    pub allow-ExactlyLeaves :
        (k : ℕ) (key j : String) (now : Time) (r : RateLimiter F)
        → k ≤ n
        → r.capacity ≡ ops.from_int n
        → HasExactly k j now r
        → ExactlyLeaves k key j now (allow ops r key now)
    unfolding allow
    allow-ExactlyLeaves k key j now r kn whole (swept, left) =
        let has : HasExactly k j now r = (swept, left) in
        rw (sweep_again ops r now swept) (elim (Option-cases (lookup key r.buckets)) [
          | inl e ↦
              let b : Bucket F = record {
                tokens = ops.sub r.capacity (ops.from_int 1);
                last = now;
              } in
              let none_since : since now now ≡ pos 0 = ground arith in
              let at_once : IsNow ops now b = (rw none_since laws.no_time) in
              subst (ExactlyLeaves k key j now) (sym (spend_as_new ops r key now e)) (
                write-ExactlyLeaves k key j now true r b has (λ h. elim left [
                  | inl (all_left, gone) ↦ (
                    ground (arith, all_left, at_least),
                    ap (λ x. ops.sub x (ops.from_int 1)) whole
                        ∙ laws.sub_exact n at_least exact
                        ∙ ap (λ m. ops.from_int (m - 1)) (sym all_left),
                    at_once,
                  )
                  | inr (old, found, holds, still) ↦
                      let clash : none ≡ some old =
                        sym e ∙ ap (λ i. lookup i r.buckets) (==_eq key j h) ∙ found in
                      absurd (cc)
                ]))
          | inr (b, e) ↦
              subst (ExactlyLeaves k key j now) (sym (spend_as_known ops r key now b e)) (
                take_token-Exactly k key j now r (refilled ops r now b) kn has (λ h. elim left [
                  | inl (all_left, gone) ↦
                      let clash : none ≡ some b =
                        sym gone ∙ ap (λ i. lookup i r.buckets) (sym (==_eq key j h)) ∙ e in
                      absurd (cc)
                  | inr (old, found, holds, still) ↦
                      let same : some old ≡ some b =
                        sym found ∙ ap (λ i. lookup i r.buckets) (sym (==_eq key j h)) ∙ e in
                      let same' : old ≡ b = cc in
                      let still' = subst (IsNow ops now) same' still in
                      let kept = refilled_still ops laws n r now b still' in
                      rw kept (subst (λ c. c.tokens ≡ ops.from_int k) same' holds, still')
                ]))
        ])
