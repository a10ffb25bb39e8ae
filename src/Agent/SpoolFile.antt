-- ===== src/Agent/SpoolFile.antt =====
-- internal/agent/spool.go: the bytes of the spool file, and the samples that they hold. encoding/json is
-- a parameter.
use sys_sentient.Prelude.{
  leb, if◌then◌else◌, all, ◌==◌, nat_key, string_key, ℕ, Bool, true, false, ◌&&◌, ◌||◌, Option,
  none, some, List, [], ◌∷◌, ◌++◌,
}

-- encoding/json on samples. A `decode_array` that succeeds leaves the rest behind the array.
pub record Codec (S : Type 0) : Type 0 where
  pub encode : S → Option (List ℕ)
  pub decode : List ℕ → Option S
  pub decode_array : List ℕ → Option (List S × List ℕ)

abbrev pub newline : ℕ
newline = 10

abbrev pub is_space : ℕ → Bool
is_space c = c == 32 || (leb 9 c && leb c 13)

-- `bytes.TrimLeft(raw, " \t\r\n")`.
unfoldable pub trim_left : List ℕ → List ℕ
trim_left [] = []
trim_left (c ∷ cs) = if c == 32 || (c == 9 || (c == 13 || c == 10)) then trim_left cs else c ∷ cs

abbrev pub push_byte : ℕ → List (List ℕ) → List (List ℕ)
push_byte c [] = (c ∷ []) ∷ []
push_byte c (l ∷ ls) = (c ∷ l) ∷ ls

-- `bytes.SplitSeq(raw, "\n")`.
unfoldable pub split_lines : List ℕ → List (List ℕ)
split_lines [] = [] ∷ []
split_lines (c ∷ cs) =
    let rest = split_lines cs in if c == newline then [] ∷ rest else push_byte c rest

-- `len(bytes.TrimSpace(line)) == 0`. A line of other Unicode space is no JSON text, so it is left
-- out at the decoding instead.
abbrev pub is_blank : List ℕ → Bool
is_blank line = all is_space line

-- What stands behind the first newline.
unfoldable pub after_newline : List ℕ → List ℕ
after_newline [] = []
after_newline (c ∷ cs) = if c == newline then cs else after_newline cs

unfoldable pub ends_with_newline : List ℕ → Bool
ends_with_newline [] = true
ends_with_newline (c ∷ []) = c == newline
ends_with_newline (c ∷ d ∷ cs) = ends_with_newline (d ∷ cs)

unfoldable pub starts_array : List ℕ → Bool
unfolding trim_left
starts_array raw = elim (trim_left raw) [ [] ↦ false | c ∷ cs ↦ c == b'[' ]

-- `endsWithNewline`: an absent file counts as terminated.
abbrev pub is_terminated : Option (List ℕ) → Bool
is_terminated none = true
is_terminated (some raw) = ends_with_newline raw

abbrev pub bytes_of : Option (List ℕ) → List ℕ
bytes_of none = []
bytes_of (some raw) = raw

module _ {S : Type 0} (json : Codec S) where
  abbrev pub add_sample : Option S → List S → List S
  add_sample none rest = rest
  add_sample (some s) rest = s ∷ rest

  -- The loop over the lines: blank and undecodable ones are left out.
  unfoldable pub decode_lines : List (List ℕ) → List S
  decode_lines [] = []
  decode_lines (l ∷ ls) =
      let rest = decode_lines ls in if is_blank l then rest else add_sample (json.decode l) rest

  unfoldable pub decode_legacy : List ℕ → List S
  unfolding split_lines decode_lines after_newline
  decode_legacy trimmed = elim (json.decode_array trimmed) [
    | some (legacy, rest) ↦ legacy ++ decode_lines (split_lines rest)
    | none ↦ decode_lines (split_lines (after_newline trimmed))
  ]

  unfoldable pub decode_spool : List ℕ → List S
  unfolding starts_array decode_legacy
  decode_spool raw =
      if starts_array raw then decode_legacy (trim_left raw) else decode_lines (split_lines raw)

  -- The samples of the file; an absent one holds none.
  unfoldable pub contents : Option (List ℕ) → List S
  unfolding decode_spool
  contents none = []
  contents (some raw) = decode_spool raw

  unfoldable pub encode_lines : List S → Option (List ℕ)
  encode_lines [] = some []
  encode_lines (s ∷ ss) = elim (json.encode s) [
    | none ↦ none
    | some line ↦ elim (encode_lines ss) [ none ↦ none | some rest ↦ some (line ++ newline ∷ rest) ]
  ]
