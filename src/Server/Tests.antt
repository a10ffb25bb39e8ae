-- ===== src/Server/Tests.antt =====
-- internal/server/ratelimit.go: the theorem at a limiter of two requests at once, one more each second.
-- In place of float64 a number counts billionths, quotients are rounded up and products down.
use native.Mathlib.Nat.{mod-lt, div-add-mod, mul-zero}
use sys_sentient.Server.RateLimit.{FloatTime, new_rate_limiter, clamp_burst}
use sys_sentient.Server.RateLimit.Bound.{FloatLaws}
use sys_sentient.Server.RateLimit.Window.{serve, granted, serve_burst}
use sys_sentient.Prelude.{
  List, Time, min, zero, suc, ◌<◌, ◌%◌, ◌⊎◌, inl, inr, true, false, negsuc, leb_ℤ, Duration, ltb,
  leb, leb→le, pos, pos_part, nat_key, string_key, Time, second, hour, ℕ, ◌+◌, ◌-◌, ◌*◌, ◌/◌, ◌≤◌,
  String, ◌≡◌, refl, List, [], ◌∷◌, map, arith,
}

abbrev billionths : FloatTime ℕ
billionths = record {
  from_int = λ n. n * second;
  lt = ltb;
  add = λ x y. x + y;
  sub = λ x y. x - y;
  mul = λ x y. x * y / second;
  div = λ x y. (x * second + y - 1) / y;
  seconds = pos_part;
  to_duration = λ x. pos (x / second);
}

zero_or_more : (n : ℕ) → (n ≡ 0) ⊎ (0 < n)
zero_or_more zero = inl refl
zero_or_more (suc n) = inr (omega arith)

rounded_up : (x y : ℕ) → 0 < x → 0 < y → ltb 0 ((x + y - 1) / y) ≡ true
rounded_up x y h k =
    let a = x + y - 1 in
    let whole = div-add-mod a y in
    let part : a % y < y = mod-lt a k in
    elim (zero_or_more (a / y)) [
      | inl nothing ↦
          let all_of : y * (a / y) ≡ 0 = rw nothing (mul-zero y) in
          absurd (omega (arith, whole, part, all_of, h, k))
      | inr more ↦ ground (arith, more)
    ]

rate_nonzero :
    (d : Duration)
    → leb_ℤ d (pos 0) ≡ false
    → billionths.lt 0 (billionths.div (1 * second) (billionths.seconds d)) ≡ true
rate_nonzero (pos n) h = rounded_up (1 * second * second) n (omega arith) (ground arith)
rate_nonzero (negsuc n) h = ground arith

billionths-FloatLaws : FloatLaws billionths
billionths-FloatLaws = record {
  le = leb;
  nat_nonneg = λ n. ground arith;
  nat_refl = λ n. ground arith;
  one_nat = λ n h. ground arith;
  sub_one = λ x n h k e. ground arith;
  sub_exact = λ n h k. omega arith;
  sub_less = λ x n e. ground arith;
  sub_nonneg = λ x e l. ground arith;
  below_one = λ x e. ground arith;
  add_nonneg = λ x y e f. ground arith;
  mul_nonneg = λ x y e f. ground arith;
  not_above = λ x n e f. ground arith;
  rate_positive = rate_nonzero;
  no_time = refl;
}

-- Two clients, an hour ago.
abbrev earlier : List (String × Time)
earlier = ("10.0.0.1", hour) ∷ ("10.0.0.2", hour) ∷ []

abbrev burst_of_four : List String
burst_of_four = "10.0.0.1" ∷ "10.0.0.2" ∷ "10.0.0.1" ∷ "10.0.0.1" ∷ []

serve_burst_example :
    let fresh = new_rate_limiter billionths (pos 2) (pos second) 0 in
    let at_once : List (String × Time) = map (λ key. (key, 2 * hour)) burst_of_four in
    (granted "10.0.0.1" (serve billionths (serve billionths fresh earlier).0 at_once).1 ≤ 2)
    × (granted "10.0.0.1" (serve billionths fresh at_once).1 ≡ min 2 3)
unfolding clamp_burst
serve_burst_example =
    serve_burst billionths billionths-FloatLaws (pos 2) (pos second) 0 (2 * hour) earlier
      burst_of_four "10.0.0.1" (leb→le 2 9_007_199_254_740_992 refl)
