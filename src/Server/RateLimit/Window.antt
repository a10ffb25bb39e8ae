-- ===== src/Server/RateLimit/Window.antt =====
-- internal/server/ratelimit.go: how many requests of a client are granted at one instant.
use sys_sentient.Server.RateLimit.Spend.{HasLeft, counted, allow-Leaves, sweep-IsSwept, sweep_again}
use sys_sentient.Server.RateLimit.Fresh.{HasExactly, allow-ExactlyLeaves}
use sys_sentient.Server.RateLimit.{
  FloatTime, RateLimiter, clamp_burst, new_rate_limiter, sweep, spend, allow,
}
use sys_sentient.Server.RateLimit.Bound.{
  FloatLaws, IsReady, new_rate_limiter-IsReady, sweep-IsReady,
}
use sys_sentient.Prelude.{
  retain, ltb, min, Bool-cases, if◌then◌else◌, ℤ, pos, ltb_ℤ, ◌==◌, nat_key, string_key, lookup,
  Time, Duration, since, minute, ℕ, ◌+◌, ◌-◌, ◌^◌, ◌<◌, ◌≤◌, String, ◌≡◌, refl, sym, ap, subst, ◌∙◌,
  inl, inr, Bool, ◌&&◌, none, List, [], ◌∷◌, map, arith,
}

clamp_burst_positive : (burst : ℤ) → 0 < clamp_burst burst
unfolding clamp_burst
clamp_burst_positive burst = ground arith

module _ {F : Type 0} (ops : FloatTime F) where
  -- Requests in turn, each with its client and its instant.
  unfoldable pub serve : RateLimiter F → List (String × Time) → RateLimiter F × List (String × Bool)
  serve r [] = (r, [])
  serve r ((key, now) ∷ rest) =
      let (r', done) = allow ops r key now in
      let (r'', answers) = serve r' rest in (r'', (key, done) ∷ answers)

-- How many of a client's requests are granted.
abbrev pub granted : String → List (String × Bool) → ℕ
granted j [] = 0
granted j ((key, done) ∷ rest) = (if key == j && done then 1 else 0) + granted j rest

-- How many requests a client makes.
abbrev pub asked : String → List String → ℕ
asked j [] = 0
asked j (key ∷ rest) = (if key == j then 1 else 0) + asked j rest

module _ {F : Type 0} (ops : FloatTime F) (laws : FloatLaws ops) (n : ℕ) where
  module _ (at_least : 0 < n) (exact : n ≤ 2 ^ 53) where
    serve-IsReady :
        (r : RateLimiter F) (reqs : List (String × Time))
        → IsReady ops laws n r
        → IsReady ops laws n (serve ops r reqs).0
    unfolding serve
    serve-IsReady r [] v = v
    serve-IsReady r ((key, now) ∷ rest) v =
        serve-IsReady (allow ops r key now).0 rest
          (allow-Leaves ops laws n at_least exact n key key now r (omega arith) v (inl refl)).0

    granted-serve-le :
        (k : ℕ) (j : String) (now : Time) (r : RateLimiter F) (clients : List String)
        → k ≤ n
        → IsReady ops laws n r
        → HasLeft ops laws n k j now r
        → granted j (serve ops r (map (λ key. (key, now)) clients)).1 ≤ k
    unfolding serve
    granted-serve-le k j now r [] kn v left = omega arith
    granted-serve-le k j now r (key ∷ rest) kn v left =
        let (r', done) = allow ops r key now in
        let told = allow-Leaves ops laws n at_least exact k key j now r kn v left in
        omega (
          arith,
          told.1,
          granted-serve-le (k - counted ops laws n key j done) j now r' rest (omega arith) told.0
              told.2,
        )

    granted-serve-exact :
        (k : ℕ) (j : String) (now : Time) (r : RateLimiter F) (clients : List String)
        → k ≤ n
        → IsReady ops laws n r
        → HasExactly ops laws n k j now r
        → granted j (serve ops r (map (λ key. (key, now)) clients)).1 ≡ min k (asked j clients)
    unfolding serve
    granted-serve-exact k j now r [] kn v left = omega arith
    granted-serve-exact k j now r (key ∷ rest) kn v left =
        let (r', done) = allow ops r key now in
        let v' =
          (allow-Leaves ops laws n at_least exact n key key now r (omega arith) v (inl refl)).0 in
        let told = allow-ExactlyLeaves ops laws n at_least exact k key j now r kn v.whole left in
        elim (Bool-cases (key == j)) [
          | inl h ↦
              let answered : done ≡ ltb 0 k = told.0 h in
              let left' : HasExactly ops laws n (k - 1) j now r' =
                subst (λ c. HasExactly ops laws n (if c then k - 1 else k) j now r') h told.1 in
              let ih = granted-serve-exact (k - 1) j now r' rest (omega (arith, kn)) v' left' in
              rw (h, answered) (ground (arith, ih))
          | inr h ↦
              let left' : HasExactly ops laws n k j now r' =
                subst (λ c. HasExactly ops laws n (if c then k - 1 else k) j now r') h told.1 in
              let ih = granted-serve-exact k j now r' rest kn v' left' in rw h (omega (arith, ih))
        ]

module _ {F : Type 0} (ops : FloatTime F) where
  allow_swept :
      (r : RateLimiter F) (key : String) (now : Time)
      → allow ops (sweep ops r now) key now ≡ allow ops r key now
  unfolding allow
  allow_swept r key now =
      ap (λ c. spend ops c key now)
        (sweep_again ops (sweep ops r now) now (sweep-IsSwept ops r now))

  serve_swept :
      (r : RateLimiter F) (now : Time) (j : String) (clients : List String)
      → granted j (serve ops (sweep ops r now) (map (λ key. (key, now)) clients)).1
        ≡ granted j (serve ops r (map (λ key. (key, now)) clients)).1
  unfolding serve
  serve_swept r now j [] = refl
  serve_swept r now j (key ∷ rest) =
      ap
        (λ a.
          let answers = serve ops a.0 (map (λ key. (key, now)) rest) in
          granted j ((key, a.1) ∷ answers.1))
        (allow_swept r key now)

  new_untracked :
      (burst : ℤ) (per : Duration) (start now : Time) (j : String)
      → lookup j (sweep ops (new_rate_limiter ops burst per start) now).buckets ≡ none
  unfolding sweep new_rate_limiter lookup retain
  new_untracked burst per start now j = elim (Bool-cases (ltb_ℤ (since now start) (pos minute))) [
    | inl h ↦ rw h refl
    | inr h ↦ rw h refl
  ]

-- With float64 as Go has it, its rounding included: from a new limiter, after any requests of any
-- clients at any instants, the clock set back or not, of the requests that come at one instant from any
-- clients no more of a client's are granted than the burst, whatever is swept. Where there were none
-- before, exactly as many of a client's are granted as it makes, up to the burst, whatever other clients
-- ask for.
pub serve_burst :
    {F : Type 0} (ops : FloatTime F) (laws : FloatLaws ops) (burst : ℤ) (per_request : Duration)
    (start now : Time) (past : List (String × Time)) (clients : List String) (j : String)
    → clamp_burst burst ≤ 2 ^ 53
    → let fresh = new_rate_limiter ops burst per_request start in
      let at_once : List (String × Time) = map (λ key. (key, now)) clients in
      (granted j (serve ops (serve ops fresh past).0 at_once).1 ≤ clamp_burst burst)
      × (granted j (serve ops fresh at_once).1 ≡ min (clamp_burst burst) (asked j clients))
serve_burst ops laws burst per_request start now past clients j exact =
    let n = clamp_burst burst in
    let fresh = new_rate_limiter ops burst per_request start in
    let ready : IsReady ops laws n fresh =
      new_rate_limiter-IsReady ops laws burst per_request start in
    let some_burst : 0 < n = clamp_burst_positive burst in
    (
      granted-serve-le ops laws n some_burst exact n j now (serve ops fresh past).0 clients
          (omega arith) (serve-IsReady ops laws n some_burst exact fresh past ready) (inl refl),
      sym (serve_swept ops fresh now j clients)
          ∙ granted-serve-exact ops laws n some_burst exact n j now (sweep ops fresh now) clients
              (omega arith) (sweep-IsReady ops laws n fresh now ready)
              (
                sweep-IsSwept ops fresh now,
                inl (refl, new_untracked ops burst per_request start now j),
              ),
    )
