-- ===== src/Storage/TimeRange/Spread.antt =====
-- internal/storage/timerange.go: the samples that a window is thinned to.
use native.Mathlib.Nat.{mod-lt, div-add-mod}
use native.Mathlib.Decide.{dec_le}
use mathlib.Core.Option
use sys_sentient.Prelude.{
  ltb, nat_beq_iff, Bool-cases, length, take_all, ℤ, pos, negsuc, ◌==◌, nat_key, string_key, ℕ,
  zero, suc, ◌+◌, ◌-◌, ◌*◌, ◌/◌, ◌%◌, ◌≤◌, ◌<◌, String, ◌≡◌, refl, ap, ◌∙◌, ◌≢◌, inl, inr, true,
  false, List, [], ◌∷◌, map, arith, get_elem?,
}
use sys_sentient.Prelude.{length-map, get_elem?-map}
use sys_sentient.Storage.Samples.{restore_top_processes}
use sys_sentient.Models.{Process, SystemState}
use sys_sentient.Storage.Rollup.{History}
use sys_sentient.Storage.TimeRange.{
  Range, rows, clamp_limit, every, stride, window, query_range, max_range_rows,
}

-- One item, then one after each `n - 1` that are passed over; `p` are passed over first.
pick : {A : Type 0} → ℕ → ℕ → List A → List A
pick n p [] = []
pick n zero (x ∷ xs) = x ∷ pick n (n - 1) xs
pick n (suc p) (x ∷ xs) = pick n p xs

multiple_here : (n q i : ℕ) → 0 < n → i ≡ q * n → i % n ≡ 0
multiple_here n q i h e = grind arith

no_multiple_between : (k q n s : ℕ) → 0 < s → s < n → k * n + s ≢ q * n
no_multiple_between k q n s h below e = elim (dec_le q k) [
  | yes le ↦ let few : q * n ≤ k * n = grind arith in omega arith
  | no gt ↦
      let step : suc k ≤ q = omega arith in
      let many : suc k * n ≤ q * n = grind arith in omega arith
]

multiple_later : (n q i p : ℕ) → suc p < n → i + suc p ≡ q * n → i % n ≢ 0
multiple_later n q i p h e z =
    no_multiple_between (i / n) q n (suc p) (omega arith) h (grind (arith, div-add-mod i n))

every-pick :
    {A : Type 0} (n q i p : ℕ) (xs : List A) → p < n → i + p ≡ q * n → every n i xs ≡ pick n p xs
unfolding every pick
every-pick n q i p [] h e = refl
every-pick n q i zero (x ∷ xs) h e =
    rw ((nat_beq_iff (i % n) 0).1 (multiple_here n q i h (omega arith)))
      (ap (◌∷◌ x) (every-pick n (suc q) (i + 1) (n - 1) xs (omega arith) (omega arith)))
every-pick n q i (suc p) (x ∷ xs) h e = elim (Bool-cases (i % n == 0)) [
  | inl hit ↦ absurd (multiple_later n q i p h e ((nat_beq_iff (i % n) 0).0 hit))
  | inr miss ↦ rw miss (every-pick n q (i + 1) p xs (omega arith) (omega arith))
]

pick_elem :
    {A : Type 0} (n p j : ℕ) (xs : List A)
    → 0 < n
    → get_elem? (pick n p xs) j ≡ get_elem? xs (p + j * n)
unfolding pick
pick_elem n p j [] h = refl
pick_elem n zero zero (x ∷ xs) h = let e : 0 + 0 * n ≡ 0 = omega arith in rw e
pick_elem n zero (suc j) (x ∷ xs) h =
    let e : 0 + suc j * n ≡ suc (n - 1 + j * n) = omega arith in rw e (pick_elem n (n - 1) j xs h)
pick_elem n (suc p) j (x ∷ xs) h =
    let e : suc p + j * n ≡ suc (p + j * n) = omega arith in rw e (pick_elem n p j xs h)

-- The number of items picked, and how far it reaches.
length-pick :
    {A : Type 0} (n p c : ℕ) (xs : List A)
    → 0 < n
    → length xs ≤ p + c * n
    → length (pick n p xs) ≤ c
unfolding pick
length-pick n p c [] h fits = omega arith
length-pick n zero zero (x ∷ xs) h fits = absurd (omega arith)
length-pick n zero (suc c) (x ∷ xs) h fits =
    let rest = length-pick n (n - 1) c xs h (omega arith) in omega arith
length-pick n (suc p) c (x ∷ xs) h fits = length-pick n p c xs h (omega arith)

-- With the stride of the query, no more are picked than may be returned.
stride_fits : (total capped : ℕ) → 0 < capped → total ≤ 0 + capped * stride total capped
stride_fits total capped h =
    let a = total + capped - 1 in
    let whole = div-add-mod a capped in
    let part : a % capped < capped = mod-lt a h in
    let most : capped * (a / capped) ≤ capped * stride total capped = grind arith in omega arith

clamp_limit_range : (limit : ℤ) → (0 < clamp_limit limit) × (clamp_limit limit ≤ max_range_rows)
unfolding clamp_limit
clamp_limit_range (pos n) = ground arith
clamp_limit_range (negsuc n) = omega arith

pub not_inverted : (a b : ℕ) → a ≤ b → ltb b a ≡ false
not_inverted a b h = ground arith

-- A window is never cut short: every `stride`-th of its samples is returned, with its summary, the first
-- of them and then each that is a stride further on, in order of time, and these are no more than the
-- limit, so that the query's LIMIT drops none of them. The limit is between 1 and 20000 whatever is
-- asked for.
pub query_range_spread :
    {F : Type 0} (summary : List (Process F) → String) (db : History F) (host : String) (r : Range)
    (limit : ℤ)
    → r.from ≤ r.to
    → let found = window db host r in
      let n = stride (length found) (clamp_limit limit) in
      (answer : List (SystemState F)) × (query_range summary true db host r limit ≡ rows answer)
      × (length answer ≤ clamp_limit limit)
      × (0 < clamp_limit limit)
      × (clamp_limit limit ≤ max_range_rows)
      × ((j : ℕ)
          → get_elem? answer j
            ≡ Option.map (restore_top_processes summary) (get_elem? found (j * n)))
unfolding query_range
query_range_spread summary db host r limit ordered =
    let found = window db host r in
    let n = stride (length found) (clamp_limit limit) in
    let read = map (restore_top_processes summary) in
    let bounds = clamp_limit_range limit in
    let picked : every n 0 found ≡ pick n 0 found =
      every-pick n 0 0 0 found (omega arith) (omega arith) in
    let few : length (every n 0 found) ≤ clamp_limit limit = rw picked (
      length-pick n 0 (clamp_limit limit) found (omega arith)
        (stride_fits (length found) (clamp_limit limit) bounds.0)) in
    (
      read (every n 0 found),
      rw (not_inverted r.from r.to ordered)
          (ap (λ found. rows (read found)) (take_all (clamp_limit limit) (every n 0 found) few)),
      rw (length-map (restore_top_processes summary) (every n 0 found)) few,
      bounds.0,
      bounds.1,
      λ j.
          get_elem?-map (restore_top_processes summary) (every n 0 found) j
          ∙ ap (Option.map (restore_top_processes summary)) (
              rw picked (pick_elem n 0 j found (omega arith) ∙ ap (get_elem? found) (omega arith))),
    )
