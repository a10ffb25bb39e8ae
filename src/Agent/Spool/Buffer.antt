-- ===== src/Agent/Spool/Buffer.antt =====
-- internal/agent/spool.go: the spool against its specification, a list of samples of which the
-- oldest are dropped once it has drifted past its capacity.
use mathlib.Core.List.{append_assoc}
use sys_sentient.Agent.Spool.{write_locked, known_count, SpoolError, append_line, Spool, Faults}
use sys_sentient.Agent.SpoolFile.{
  is_blank, is_terminated, bytes_of, ends_with_newline, contents, Codec, newline, starts_array,
  decode_lines, decode_spool, encode_lines, split_lines,
}
use sys_sentient.Agent.Spool.Format.{
  decode_lines_break, decode_lines_behind, CodecLaws, split_lines-append,
}
use sys_sentient.Prelude.{
  zero, suc, length, drop, All, is_some, sym, none, ◌∙◌, Bool-cases, true, Option, Option-cases,
  nat_key, string_key, ℕ, ◌≡◌, refl, ap, subst, inl, inr, false, some, List, [], ◌∷◌, ◌++◌, arith,
}

-- Every operation succeeds.
abbrev pub no_faults : Faults
no_faults = record {
  read = false;
  open_file = false;
  tail = false;
  terminate = false;
  write = false;
  written = 0;
  close = false;
  reread = false;
  remove = false;
  write_tmp = false;
  rename = false;
}

starts_array-append :
    (raw more : List ℕ)
    → starts_array raw ≡ false
    → starts_array more ≡ false
    → starts_array (raw ++ more) ≡ false
unfolding starts_array
starts_array-append [] more h k = k
starts_array-append (c ∷ cs) more h k = ground (arith, starts_array-append cs more)

starts_array-newline : (more : List ℕ) → starts_array (newline ∷ more) ≡ starts_array more
unfolding starts_array
starts_array-newline more = refl

module _ {S : Type 0} (json : Codec S) where
  -- A sample written to a file of lines stands behind all that the file held, also where the last
  -- line was cut off.
  pub record IsAppended (sp : Spool) (s : S) (r : Spool × Option SpoolError) : Type 0 where
    pub fine : r.1 ≡ none
    pub holds : contents json (r.0).file ≡ contents json sp.file ++ s ∷ []
    pub plain : starts_array (bytes_of (r.0).file) ≡ false
    pub same_capacity : (r.0).capacity ≡ sp.capacity

  -- What was decoded can be encoded again.
  abbrev pub Encodable : S → Type 0
  Encodable s = is_some (json.encode s) ≡ true

  -- The spool between two calls: a file of lines, and a count that is what the file holds or is not
  -- known yet.
  pub record IsSpool (sp : Spool) : Type 0 where
    pub lines : starts_array (bytes_of sp.file) ≡ false
    pub counted : known_count json no_faults sp ≡ some (length (contents json sp.file))

  -- A spool that holds certain samples after a call that succeeded.
  pub record Holds (sp : Spool) (ss : List S) (r : Spool × Option SpoolError) : Type 0 where
    pub fine : r.1 ≡ none
    pub holds : contents json (r.0).file ≡ ss
    pub spool : IsSpool r.0
    pub same_capacity : (r.0).capacity ≡ sp.capacity

module _ {S : Type 0} (json : Codec S) (laws : CodecLaws json) where
  -- One encoded sample and its newline read as that sample.
  decode_line :
      (s : S) (line : List ℕ)
      → json.encode s ≡ some line
      → decode_lines json (split_lines (line ++ newline ∷ [])) ≡ s ∷ []
  unfolding decode_lines split_lines
  decode_line s line e =
      rw (split_lines-append line [] (laws.one_line s line e))
        (rw (laws.visible s line e, laws.decodes s line e) refl)

  lines_of :
      (raw : List ℕ)
      → starts_array raw ≡ false
      → decode_spool json raw ≡ decode_lines json (split_lines raw)
  unfolding decode_spool
  lines_of raw h = rw h

  -- What is read back is what was written: the samples, in order.
  encode_lines_back :
      (ss : List S) (raw : List ℕ)
      → encode_lines json ss ≡ some raw
      → (decode_lines json (split_lines raw) ≡ ss) × (starts_array raw ≡ false)
  unfolding encode_lines decode_lines split_lines starts_array
  encode_lines_back [] raw e =
      let none_left : [] ≡ raw = ground arith in
      subst (λ r. (decode_lines json (split_lines r) ≡ []) × (starts_array r ≡ false)) none_left
        (refl, refl)
  encode_lines_back (s ∷ ss) raw e = elim (Option-cases (json.encode s)) [
    | inl q ↦ absurd (ground arith)
    | inr (line, q) ↦ elim (Option-cases (encode_lines json ss)) [
      | inl r ↦ absurd (ground arith)
      | inr (rest, r) ↦
          let whole : line ++ newline ∷ rest ≡ raw = ground arith in
          let (back, plain) = encode_lines_back ss rest r in
          subst (λ r. (decode_lines json (split_lines r) ≡ s ∷ ss) × (starts_array r ≡ false)) whole
            (
              rw (split_lines-append line rest (laws.one_line s line q))
                  (rw (laws.visible s line q, laws.decodes s line q) (ap (◌∷◌ s) back)),
              laws.no_array s line (newline ∷ rest) q,
            )
    ]
  ]

  pub contents_lines :
      (o : Option (List ℕ))
      → starts_array (bytes_of o) ≡ false
      → contents json o ≡ decode_lines json (split_lines (bytes_of o))
  unfolding contents decode_lines split_lines
  contents_lines none h = refl
  contents_lines (some raw) h = lines_of raw h

  starts_array-line :
      (s : S) (line : List ℕ)
      → json.encode s ≡ some line
      → starts_array (line ++ newline ∷ []) ≡ false
  starts_array-line s line e = laws.no_array s line (newline ∷ []) e

  -- The bytes behind which a line is written, and what is read once it is.
  line_behind :
      (raw line : List ℕ) (s : S)
      → json.encode s ≡ some line
      → starts_array raw ≡ false
      → ends_with_newline raw ≡ true
      → (decode_lines json (split_lines (raw ++ (line ++ newline ∷ [])))
          ≡ decode_lines json (split_lines raw) ++ s ∷ [])
        × (starts_array (raw ++ (line ++ newline ∷ [])) ≡ false)
  line_behind raw line s e plain ended = (
    decode_lines_behind json raw (line ++ newline ∷ []) ended
        ∙ ap (λ xs. decode_lines json (split_lines raw) ++ xs) (decode_line s line e),
    starts_array-append raw (line ++ newline ∷ []) plain (starts_array-line s line e),
  )

  line_behind_break :
      (raw line : List ℕ) (s : S)
      → json.encode s ≡ some line
      → starts_array raw ≡ false
      → (decode_lines json (split_lines ((raw ++ newline ∷ []) ++ (line ++ newline ∷ [])))
          ≡ decode_lines json (split_lines raw) ++ s ∷ [])
        × (starts_array ((raw ++ newline ∷ []) ++ (line ++ newline ∷ [])) ≡ false)
  line_behind_break raw line s e plain =
      let tail = line ++ newline ∷ [] in
      rw (append_assoc raw (newline ∷ []) tail) (
        decode_lines_break json raw tail
            ∙ ap (λ xs. decode_lines json (split_lines raw) ++ xs) (decode_line s line e),
        starts_array-append raw (newline ∷ tail) plain
            (starts_array-newline tail ∙ starts_array-line s line e),
      )

  appended :
      (sp : Spool) (s : S) (raw : List ℕ)
      → starts_array (bytes_of sp.file) ≡ false
      → (decode_lines json (split_lines raw)
          ≡ decode_lines json (split_lines (bytes_of sp.file)) ++ s ∷ [])
        × (starts_array raw ≡ false)
      → IsAppended json sp s (record sp { file = some raw }, none)
  appended sp s raw plain (read, plain') = record {
    fine = refl;
    holds =
        contents_lines (some raw) plain'
        ∙ read
        ∙ ap (λ xs. xs ++ s ∷ []) (sym (contents_lines sp.file plain));
    plain = plain';
    same_capacity = refl;
  }

  terminated_bytes :
      (o : Option (List ℕ)) → is_terminated o ≡ true → ends_with_newline (bytes_of o) ≡ true
  unfolding ends_with_newline
  terminated_bytes none h = refl
  terminated_bytes (some raw) h = h

  pub append_line_ok :
      (sp : Spool) (line : List ℕ) (s : S)
      → json.encode s ≡ some line
      → starts_array (bytes_of sp.file) ≡ false
      → IsAppended json sp s (append_line no_faults sp line)
  unfolding append_line
  append_line_ok sp line s e plain =
      let raw = bytes_of sp.file in
      elim (Bool-cases (is_terminated sp.file)) [
        | inl t ↦ rw t (
            appended sp s (raw ++ (line ++ newline ∷ [])) plain
              (line_behind raw line s e plain (terminated_bytes sp.file t)))
        | inr t ↦ rw t (
            appended sp s ((raw ++ newline ∷ []) ++ (line ++ newline ∷ [])) plain
              (line_behind_break raw line s e plain))
      ]

  pub lines-Encodable : (ls : List (List ℕ)) → All (Encodable json) (decode_lines json ls)
  unfolding decode_lines
  lines-Encodable [] = tt
  lines-Encodable (l ∷ ls) = elim (Bool-cases (is_blank l)) [
    | inl b ↦ rw b (lines-Encodable ls)
    | inr b ↦ elim (Option-cases (json.decode l)) [
      | inl q ↦ rw (b, q) (lines-Encodable ls)
      | inr (s, q) ↦ rw (b, q) (laws.encodable l s q, lines-Encodable ls)
    ]
  ]

  pub drop-Encodable :
      (n : ℕ) (ss : List S) → All (Encodable json) ss → All (Encodable json) (drop n ss)
  drop-Encodable zero ss h = h
  drop-Encodable (suc n) [] h = tt
  drop-Encodable (suc n) (s ∷ ss) h = drop-Encodable n ss h.1

  encode_lines_total :
      (ss : List S) → All (Encodable json) ss → (raw : List ℕ) × (encode_lines json ss ≡ some raw)
  unfolding encode_lines
  encode_lines_total [] h = ([], refl)
  encode_lines_total (s ∷ ss) h = elim (Option-cases (json.encode s)) [
    | inl q ↦ absurd (ground (arith, h.0))
    | inr (line, q) ↦
        let (rest, r) = encode_lines_total ss h.1 in
        (line ++ newline ∷ rest, rw (q, encode_lines) (rw r refl))
  ]

  pub write_locked_ok :
      (sp : Spool) (ss : List S)
      → All (Encodable json) ss
      → Holds json sp ss (write_locked json no_faults sp ss)
  unfolding write_locked known_count contents starts_array
  write_locked_ok sp [] h = record {
    fine = refl;
    holds = refl;
    spool = record { lines = refl; counted = refl };
    same_capacity = refl;
  }
  write_locked_ok sp (s ∷ ss) h =
      let (raw, q) = encode_lines_total (s ∷ ss) h in
      let (back, plain) = encode_lines_back (s ∷ ss) raw q in
      let read : decode_spool json raw ≡ s ∷ ss = lines_of raw plain ∙ back in
      rw (q, write_locked)
        (record {
          fine = refl;
          holds = read;
          spool = record { lines = plain; counted = ap (λ xs. some (length xs)) (sym read) };
          same_capacity = refl;
        })
