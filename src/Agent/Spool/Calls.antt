-- ===== src/Agent/Spool/Calls.antt =====
-- internal/agent/spool.go: Append, Peek and Commit as operations on a bounded list of samples.
use sys_sentient.Agent.Spool.Format.{CodecLaws}
use mathlib.Core.Path.{ap₂}
use sys_sentient.Agent.Spool.{
  append_line, compaction_slack, Spool, append, commit, peek, compact, append_counted, append_known,
  known_count, write_locked,
}
use sys_sentient.Agent.SpoolFile.{bytes_of, starts_array, split_lines, Codec, contents}
use sys_sentient.Agent.Spool.Buffer.{
  no_faults, IsSpool, Holds, append_line_ok, write_locked_ok, lines-Encodable, drop-Encodable,
  contents_lines, Encodable,
}
use sys_sentient.Prelude.{
  ltb, leb, if◌then◌else◌, leb→le, Bool-cases, length, take, drop, All, length-append, length-drop,
  take_all, drop_all, pos, nat_key, string_key, ℕ, zero, suc, ◌+◌, ◌-◌, ◌≤◌, ◌≡◌, refl, sym, ap,
  subst, ◌∙◌, inl, inr, true, false, none, some, List, [], ◌∷◌, ◌++◌, arith,
}

-- The specification of the compaction: past the slack only the newest samples stay.
abbrev pub trimmed {ℓ} : {A : Type ℓ} → ℕ → List A → List A
trimmed capacity xs =
    if leb (length xs) (capacity + compaction_slack capacity)
    then xs
    else drop (length xs - capacity) xs

pub length-trimmed-le {ℓ} :
    {A : Type ℓ} (capacity : ℕ) (xs : List A)
    → length (trimmed capacity xs) ≤ capacity + compaction_slack capacity
length-trimmed-le capacity xs = ground (arith, length-drop (length xs - capacity) xs)

module _ {S : Type 0} (json : Codec S) (laws : CodecLaws json) where
  contents-Encodable : (sp : Spool) → IsSpool json sp → All (Encodable json) (contents json sp.file)
  contents-Encodable sp v =
      rw (contents_lines json laws sp.file v.lines)
        (lines-Encodable json laws (split_lines (bytes_of sp.file)))

  compact_few :
      (sp : Spool) (n : ℕ)
      → leb n (sp.capacity + compaction_slack sp.capacity) ≡ true
      → compact json no_faults sp n ≡ (sp, none)
  unfolding compact
  compact_few sp n few = ground arith

  compact_many :
      (sp : Spool) (n : ℕ)
      → n ≡ length (contents json sp.file)
      → leb n (sp.capacity + compaction_slack sp.capacity) ≡ false
      → compact json no_faults sp n
        ≡ write_locked json no_faults sp
            (drop (length (contents json sp.file) - sp.capacity) (contents json sp.file))
  unfolding compact
  compact_many sp n e many = ground arith

  compact_ok :
      (sp : Spool) (n : ℕ)
      → starts_array (bytes_of sp.file) ≡ false
      → sp.count ≡ some n
      → n ≡ length (contents json sp.file)
      → Holds json sp (trimmed sp.capacity (contents json sp.file)) (compact json no_faults sp n)
  unfolding known_count
  compact_ok sp n plain c e =
      let ss = contents json sp.file in
      elim (Bool-cases (leb n (sp.capacity + compaction_slack sp.capacity))) [
        | inl few ↦
            let all_of : trimmed sp.capacity ss ≡ ss = ground arith in
            rw (all_of, compact_few sp n few)
              (record {
                fine = refl;
                holds = refl;
                spool = record { lines = plain; counted = rw (c, known_count) (ap some e) };
                same_capacity = refl;
              })
        | inr many ↦
            let newest : trimmed sp.capacity ss ≡ drop (length ss - sp.capacity) ss =
              ground arith in
            rw (newest, compact_many sp n e many)
              (write_locked_ok json laws sp (drop (length ss - sp.capacity) ss) (
                drop-Encodable json laws (length ss - sp.capacity) ss (
                  rw (contents_lines json laws sp.file plain)
                    (lines-Encodable json laws (split_lines (bytes_of sp.file))))))
      ]

  length-add : (xs : List S) (s : S) → length xs + 1 ≡ length (xs ++ s ∷ [])
  length-add xs s = omega (arith, length-append xs (s ∷ []))

  append_counted_ok :
      (sp : Spool) (n : ℕ) (line : List ℕ)
      → (append_line no_faults sp line).1 ≡ none
      → append_counted json no_faults sp n line
        ≡ compact json no_faults
            (record ((append_line no_faults sp line).0) { count = some (n + 1) })
            (n + 1)
  unfolding append_counted
  append_counted_ok sp n line e = rw (e, append_counted) refl

  append_known_ok :
      (sp : Spool) (n : ℕ) (s : S) (line : List ℕ)
      → json.encode s ≡ some line
      → append_known json no_faults sp n s
        ≡ append_counted json no_faults (record sp { count = some n }) n line
  unfolding append_known
  append_known_ok sp n s line e = rw (e, append_known) refl

  append_counts :
      (sp : Spool) (n : ℕ) (s : S)
      → known_count json no_faults sp ≡ some n
      → append json no_faults sp s ≡ append_known json no_faults sp n s
  unfolding append
  append_counts sp n s e = rw (e, append) refl

  pub append_ok :
      (sp : Spool) (s : S) (line : List ℕ)
      → json.encode s ≡ some line
      → IsSpool json sp
      → Holds json sp
          (trimmed sp.capacity (contents json sp.file ++ s ∷ []))
          (append json no_faults sp s)
  append_ok sp s line e v =
      let n = length (contents json sp.file) in
      let sp1 = record sp { count = some n } in
      let a = append_line_ok json laws sp1 line s e v.lines in
      let sp2 = record ((append_line no_faults sp1 line).0) { count = some (n + 1) } in
      let c =
        compact_ok sp2 (n + 1) a.plain refl
          (length-add (contents json sp.file) s ∙ ap length (sym a.holds)) in
      rw
        (
          append_counts sp n s v.counted,
          append_known_ok sp n s line e,
          append_counted_ok sp1 n line a.fine,
        )
        (record {
          fine = c.fine;
          holds = c.holds ∙ ap₂ trimmed a.same_capacity a.holds;
          spool = c.spool;
          same_capacity = c.same_capacity ∙ a.same_capacity;
        })

  -- Adding a sample that can be encoded to a spool of lines, with no fault: the spool then holds all
  -- it held and the sample behind it, or, once that is past the capacity and its slack, the newest
  -- `capacity` of them; so it never holds more than the capacity and the slack.
  pub append_lem :
      (sp : Spool) (s : S) (line : List ℕ)
      → json.encode s ≡ some line
      → IsSpool json sp
      → Holds json sp
          (trimmed sp.capacity (contents json sp.file ++ s ∷ []))
          (append json no_faults sp s)
        × (length (contents json ((append json no_faults sp s).0).file)
            ≤ sp.capacity + compaction_slack sp.capacity)
  append_lem sp s line e v =
      let told = append_ok sp s line e v in
      (told, rw (told.holds) (length-trimmed-le sp.capacity (contents json sp.file ++ s ∷ [])))

  commit_drops :
      (sp : Spool) (n : ℕ)
      → commit json no_faults sp (pos (suc n))
        ≡ write_locked json no_faults sp (drop (suc n) (contents json sp.file))
  unfolding commit
  commit_drops sp n =
      let ss = contents json sp.file in
      elim (Bool-cases (leb (length ss) (suc n))) [
        | inl all_of ↦ rw (drop_all (suc n) ss (leb→le (length ss) (suc n) all_of)) (ground arith)
        | inr some_of ↦ ground arith
      ]

  pub peek_takes :
      (sp : Spool) (n : ℕ)
      → peek json no_faults sp (pos (suc n)) ≡ some (take (suc n) (contents json sp.file))
  unfolding peek
  peek_takes sp n =
      let ss = contents json sp.file in
      elim (Bool-cases (ltb (suc n) (length ss))) [
        | inl some_of ↦ ground arith
        | inr all_of ↦
            let whole : take (suc n) ss ≡ ss = take_all (suc n) ss (ground arith) in
            rw whole (ground arith)
      ]

  pub commit-Holds :
      (sp : Spool) (n : ℕ)
      → IsSpool json sp
      → Holds json sp (drop n (contents json sp.file)) (commit json no_faults sp (pos n))
  unfolding commit
  commit-Holds sp zero v = record { fine = refl; holds = refl; spool = v; same_capacity = refl }
  commit-Holds sp (suc n) v =
      let ss = contents json sp.file in
      subst (Holds json sp (drop (suc n) ss)) (sym (commit_drops sp n)) (
        write_locked_ok json laws sp (drop (suc n) ss)
          (drop-Encodable json laws (suc n) ss (contents-Encodable sp v)))

  -- Without a fault, a peek for `n` samples, at least one, returns the oldest `n`, or all if there
  -- are fewer; and a commit of `n` leaves exactly the samples behind those, in order, in a spool of
  -- the same capacity that is again a spool of lines with the right count.
  pub commit_lem :
      (sp : Spool) (n : ℕ)
      → IsSpool json sp
      → (peek json no_faults sp (pos (suc n)) ≡ some (take (suc n) (contents json sp.file)))
        × Holds json sp
            (drop (suc n) (contents json sp.file))
            (commit json no_faults sp (pos (suc n)))
  commit_lem sp n v = (peek_takes sp n, commit-Holds sp (suc n) v)
