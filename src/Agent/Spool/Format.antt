-- ===== src/Agent/Spool/Format.antt =====
-- internal/agent/spool.go: the file format. What is appended to any file is read back behind what
-- the file held.
use mathlib.Core.List.{append-nil}
use sys_sentient.Agent.SpoolFile.{
  Codec, newline, push_byte, split_lines, is_blank, decode_lines, starts_array, ends_with_newline,
}
use sys_sentient.Prelude.{
  is_some, Bool-cases, all, ◌==◌, nat_key, string_key, ℕ, ◌≡◌, refl, sym, ap, ◌∙◌, inl, inr, true,
  false, not, some, List, [], ◌∷◌, ◌++◌, arith,
}

-- What the code relies on of encoding/json: a sample's text is one line that is not blank, does not
-- look like an array, and decodes to the sample again; and what was decoded can be encoded.
pub record CodecLaws {S : Type 0} (json : Codec S) : Type 0 where
  pub one_line :
      (s : S) (l : List ℕ) → json.encode s ≡ some l → all (λ c. not (c == newline)) l ≡ true
  pub visible : (s : S) (l : List ℕ) → json.encode s ≡ some l → is_blank l ≡ false
  pub no_array :
      (s : S) (l : List ℕ) (rest : List ℕ)
      → json.encode s ≡ some l
      → starts_array (l ++ rest) ≡ false
  pub encodable : (l : List ℕ) (s : S) → json.decode l ≡ some s → is_some (json.encode s) ≡ true
  pub decodes : (s : S) (l : List ℕ) → json.encode s ≡ some l → json.decode l ≡ some s

pub split_lines-append :
    (line rest : List ℕ)
    → all (λ c. not (c == newline)) line ≡ true
    → split_lines (line ++ newline ∷ rest) ≡ line ∷ split_lines rest
unfolding split_lines
split_lines-append [] rest h = refl
split_lines-append (c ∷ cs) rest h = ground (arith, split_lines-append cs rest)

split_lines_some : (raw : List ℕ) → (l : List ℕ) × (ls : List (List ℕ)) × (split_lines raw ≡ l ∷ ls)
unfolding split_lines
split_lines_some [] = ([], [], refl)
split_lines_some (c ∷ cs) = elim (Bool-cases (c == newline)) [
  | inl e ↦ ([], split_lines cs, rw e)
  | inr e ↦ let (l, ls, p) = split_lines_some cs in (c ∷ l, ls, rw e (ap (push_byte c) p))
]

split_lines_break :
    (raw more : List ℕ) → split_lines (raw ++ newline ∷ more) ≡ split_lines raw ++ split_lines more
unfolding split_lines
split_lines_break [] more = refl
split_lines_break (c ∷ cs) more = elim (Bool-cases (c == newline)) [
  | inl e ↦ rw e (ap (◌∷◌ []) (split_lines_break cs more))
  | inr e ↦
      let (l, ls, p) = split_lines_some cs in
      rw e (
        ap (push_byte c) (split_lines_break cs more ∙ ap (λ x. x ++ split_lines more) p)
        ∙ sym (ap (λ x. push_byte c x ++ split_lines more) p))
]

split_lines_terminated :
    (c : ℕ) (cs : List ℕ)
    → ends_with_newline (c ∷ cs) ≡ true
    → (l : List ℕ) × (init : List (List ℕ)) × (split_lines (c ∷ cs) ≡ l ∷ (init ++ [] ∷ []))
      × ((more : List ℕ) → split_lines ((c ∷ cs) ++ more) ≡ l ∷ (init ++ split_lines more))
unfolding split_lines ends_with_newline
split_lines_terminated c [] h = ([], [], rw h, λ more. rw h)
split_lines_terminated c (d ∷ cs) h = elim (Bool-cases (c == newline)) [
  | inl e ↦
      let (l, init, p, q) = split_lines_terminated d cs h in
      ([], l ∷ init, rw e (ap (◌∷◌ []) p), λ more. rw e (ap (◌∷◌ []) (q more)))
  | inr e ↦
      let (l, init, p, q) = split_lines_terminated d cs h in
      (c ∷ l, init, rw e (ap (push_byte c) p), λ more. rw e (ap (push_byte c) (q more)))
]

module _ {S : Type 0} (json : Codec S) where
  decode_lines-append :
      (xs ys : List (List ℕ))
      → decode_lines json (xs ++ ys) ≡ decode_lines json xs ++ decode_lines json ys
  unfolding decode_lines
  decode_lines-append [] ys = refl
  decode_lines-append (x ∷ xs) ys = ground (arith, decode_lines-append xs ys)

  -- Whatever the file holds, a newline and more behind it are read behind it.
  pub decode_lines_break :
      (raw more : List ℕ)
      → decode_lines json (split_lines (raw ++ newline ∷ more))
        ≡ decode_lines json (split_lines raw) ++ decode_lines json (split_lines more)
  decode_lines_break raw more =
      ap (decode_lines json) (split_lines_break raw more)
      ∙ decode_lines-append (split_lines raw) (split_lines more)

  decode_empty_line : (ls : List (List ℕ)) → decode_lines json ([] ∷ ls) ≡ decode_lines json ls
  unfolding decode_lines
  decode_empty_line ls = refl

  -- A file that ends its last line is read in full before what is behind it.
  pub decode_lines_behind :
      (raw more : List ℕ)
      → ends_with_newline raw ≡ true
      → decode_lines json (split_lines (raw ++ more))
        ≡ decode_lines json (split_lines raw) ++ decode_lines json (split_lines more)
  unfolding split_lines decode_lines
  decode_lines_behind [] more h = refl
  decode_lines_behind (c ∷ cs) more h =
      let (l, init, p, q) = split_lines_terminated c cs h in
      ap (decode_lines json) (q more)
      ∙ decode_lines-append (l ∷ init) (split_lines more)
      ∙ ap (λ xs. xs ++ decode_lines json (split_lines more))
          (sym (
            ap (decode_lines json) p
            ∙ decode_lines-append (l ∷ init) ([] ∷ [])
            ∙ append-nil (decode_lines json (l ∷ init))))
