-- ===== src/Collector/ProcStat/Tokens.antt =====
-- internal/collector/proctimes_linux.go: the loop over the fields, token by token.
use mathlib.Core.List.{append_assoc, append-nil}
use sys_sentient.Collector.{Arithmetic}
use sys_sentient.Collector.ProcStat.{
  Fields, utime_field, stime_field, rss_field, close_paren, space, after_name, parse_uint,
  end_token, scan,
}
use sys_sentient.Prelude.{
  ltb, if◌then◌else◌, length, All, All-append, ◌==◌, nat_key, string_key, before, ℕ, suc, ◌+◌, ◌≤◌,
  ◌<◌, ◌≡◌, refl, sym, ap, ◌∙◌, ◌≢◌, ◌⊎◌, inl, inr, Bool, true, false, none, some, List, [], ◌∷◌,
  ◌++◌, arith,
}

-- A byte that neither ends a token nor closes a name.
abbrev pub IsPlain : ℕ → Type 0
IsPlain c = ((c == space) ≡ false) × ((c == close_paren) ≡ false)

abbrev pub IsToken : List ℕ → Type 0
IsToken t = (t ≢ []) × All IsPlain t

-- Tokens, each behind a space.
abbrev pub spaced : List (List ℕ) → List ℕ
spaced [] = []
spaced (t ∷ ts) = space ∷ t ++ spaced ts

-- `before` is the process id and the opening parenthesis.
abbrev pub stat_line : List ℕ → List ℕ → List (List ℕ) → List ℕ
stat_line before name tokens = (before ++ name) ++ close_paren ∷ spaced tokens

pub spaced-All :
    (ts : List (List ℕ)) → All IsToken ts → All (λ c. (c == close_paren) ≡ false) (spaced ts)
spaced-All [] h = tt
spaced-All (t ∷ ts) h = (refl, All-append _ t (spaced ts) (weaken t h.0.1) (spaced-All ts h.1))
  where
    weaken : (l : List ℕ) → All IsPlain l → All (λ c. (c == close_paren) ≡ false) l
    weaken [] k = tt
    weaken (c ∷ l) k = (k.0.1, weaken l k.1)

after_name-plain : (l : List ℕ) → All (λ c. (c == close_paren) ≡ false) l → after_name l ≡ none
unfolding after_name
after_name-plain [] h = refl
after_name-plain (c ∷ l) h = rw (after_name-plain l h.1, h.0) refl

pub after_name-append :
    (front l : List ℕ)
    → All (λ c. (c == close_paren) ≡ false) l
    → after_name (front ++ close_paren ∷ l) ≡ some l
unfolding after_name
after_name-append [] l h = rw (after_name-plain l h) refl
after_name-append (c ∷ front) l h = rw (after_name-append front l h) refl

same_if : {A : Type 0} (b : Bool) (x : A) → (if b then x else x) ≡ x
same_if true x = refl
same_if false x = refl

module _ {F : Type 0} (a : Arithmetic F) where
  -- The loop over the fields, token by token.
  pub read_all : List (List ℕ) → Fields F → Fields F
  read_all [] s = s
  read_all (t ∷ ts) s =
      let s' = end_token a t s in if ltb rss_field s'.field then s' else read_all ts s'

  scan-token :
      (t line token : List ℕ) (s : Fields F)
      → All IsPlain t
      → scan a (t ++ line) token s ≡ scan a line (token ++ t) s
  unfolding scan
  scan-token [] line token s h = rw append-nil refl
  scan-token (c ∷ t) line token s h = rw h.0.0 (
      scan-token t line (token ++ c ∷ []) s h.1
      ∙ ap (λ x. scan a line x s) (append_assoc token (c ∷ []) t))

  pub scan-spaced :
      (t : List ℕ) (ts : List (List ℕ)) (s : Fields F)
      → All IsPlain t
      → All IsToken ts
      → scan a (t ++ spaced ts) [] s ≡ read_all (t ∷ ts) s
  unfolding scan read_all
  scan-spaced t [] s h k =
      scan-token t [] [] s h
      ∙ sym (same_if (ltb rss_field (end_token a t s).field) (end_token a t s))
  scan-spaced t (u ∷ ts) s h k =
      scan-token t (spaced (u ∷ ts)) [] s h
      ∙ ap (λ x. if ltb rss_field (end_token a t s).field then end_token a t s else x)
          (scan-spaced u ts (end_token a t s) k.0.1 k.1)

  -- The fields that are not read.
  abbrev pub IsSkipped : ℕ → ℕ → Type 0
  IsSkipped field count =
      (field + count ≤ utime_field) ⊎ ((stime_field < field) × (field + count ≤ rss_field))

  abbrev pub at_field : Fields F → ℕ → Fields F
  at_field s n = record s { field = n }

  skip_token :
      (t : List ℕ) (s : Fields F)
      → t ≢ []
      → (s.field == utime_field) ≡ false
      → (s.field == stime_field) ≡ false
      → (s.field == rss_field) ≡ false
      → end_token a t s ≡ at_field s (s.field + 1)
  unfolding end_token
  skip_token [] s h u v w = absurd (h refl)
  skip_token (c ∷ t) s h u v w = rw (u, v, w) refl

  suc-IsSkipped : (field n : ℕ) → IsSkipped field (suc n) → IsSkipped (field + 1) n
  suc-IsSkipped field n (inl h) = inl (omega arith)
  suc-IsSkipped field n (inr h) = inr (omega arith, omega arith)

  pub read_all-skip :
      (ts more : List (List ℕ)) (s : Fields F)
      → All IsToken ts
      → IsSkipped s.field (length ts)
      → read_all (ts ++ more) s ≡ read_all more (at_field s (s.field + length ts))
  unfolding read_all
  read_all-skip [] more s h k = ap (λ n. read_all more (record s { field = n })) (omega arith)
  read_all-skip (t ∷ ts) more s h k =
      let inside : ltb rss_field (s.field + 1) ≡ false = ground arith in
      rw (skip_token t s h.0.0 (ground arith) (ground arith) (ground arith)) (
        rw inside (
          read_all-skip ts more (at_field s (s.field + 1)) h.1 (suc-IsSkipped s.field (length ts) k)
          ∙ ap (λ n. read_all more (at_field s n)) (omega arith)))

  -- utime stands at its turn, stime at the next, and rss ends the loop.
  pub read_utime :
      (t : List ℕ) (more : List (List ℕ)) (s : Fields F)
      → t ≢ []
      → s.field ≡ utime_field
      → read_all (t ∷ more) s
        ≡ read_all more (record s { field = stime_field; utime = parse_uint a t })
  unfolding read_all end_token
  read_utime [] more s h e = absurd (h refl)
  read_utime (c ∷ t) more s h e = rw e refl

  pub read_stime :
      (t : List ℕ) (more : List (List ℕ)) (s : Fields F)
      → t ≢ []
      → s.field ≡ stime_field
      → read_all (t ∷ more) s ≡ read_all more (record s { field = 14; stime = parse_uint a t })
  unfolding read_all end_token
  read_stime [] more s h e = absurd (h refl)
  read_stime (c ∷ t) more s h e = rw e refl

  pub read_rss :
      (t : List ℕ) (more : List (List ℕ)) (s : Fields F)
      → t ≢ []
      → s.field ≡ rss_field
      → read_all (t ∷ more) s ≡ record s { field = 23; rss_pages = parse_uint a t }
  unfolding read_all end_token
  read_rss [] more s h e = absurd (h refl)
  read_rss (c ∷ t) more s h e = rw e refl
