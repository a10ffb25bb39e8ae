-- ===== src/Collector/ProcStat.antt =====
-- internal/collector/proctimes_linux.go: the reading of /proc/<pid>/stat. A file is its bytes, cut
-- at the 512 of the reader's buffer; `none` is a file that cannot be opened or read. The clock tick
-- and the size of a page come from the system.
pub mod Tokens
pub mod Name
use sys_sentient.Collector.{Arithmetic}
use sys_sentient.Prelude.{
  ltb, leb, if◌then◌else◌, length, take, drop, ◌==◌, nat_key, string_key, ℕ, ◌+◌, ◌-◌, ◌*◌, ◌%◌,
  ◌^◌, ◌||◌, Option, none, some, List, [], ◌∷◌, ◌++◌, arith,
}

abbrev pub buffer_size : ℕ
buffer_size = 512

abbrev pub utime_field : ℕ
utime_field = 12

abbrev pub stime_field : ℕ
stime_field = 13

abbrev pub rss_field : ℕ
rss_field = 22

-- The bytes ')', ' ' and '0' to '9'.
abbrev pub close_paren : ℕ
close_paren = 41

abbrev pub space : ℕ
space = 32

abbrev pub digit_0 : ℕ
digit_0 = 48

abbrev pub digit_9 : ℕ
digit_9 = 57

-- What the loop over the fields has read, and the number of the field that it is at.
pub record Fields (F : Type 0) : Type 0 where
  pub field : ℕ
  pub utime : F
  pub stime : F
  pub rss_pages : F

-- CPU time in seconds, and resident memory in bytes.
pub record Stat (F : Type 0) : Type 0 where
  pub cpu_seconds : F
  pub memory : ℕ

-- What stands behind the last ')'.
unfoldable pub after_name : List ℕ → Option (List ℕ)
after_name [] = none
after_name (c ∷ line) = elim (after_name line) [
  | some rest ↦ some rest
  | none ↦ if c == close_paren then some line else none
]

module _ {F : Type 0} (a : Arithmetic F) where
  abbrev pub parse_from : F → List ℕ → F
  parse_from n [] = n
  parse_from n (c ∷ digits) =
      if ltb c digit_0 || ltb digit_9 c
      then n
      else parse_from
          (a.add (a.float.mul n (a.float.from_uint 10)) (a.float.from_uint (c - digit_0))) digits

  unfoldable pub parse_uint : List ℕ → F
  parse_uint digits = parse_from (a.float.from_uint 0) digits

  -- A token has ended; an empty one, between two spaces, is none.
  abbrev pub end_token : List ℕ → Fields F → Fields F
  unfolding parse_uint
  end_token [] s = s
  end_token (c ∷ cs) s =
      let next = record s { field = s.field + 1 } in
      if s.field == utime_field
      then record next { utime = parse_uint (c ∷ cs) }
      else if s.field == stime_field
      then record next { stime = parse_uint (c ∷ cs) }
      else if s.field == rss_field
      then record next { rss_pages = parse_uint (c ∷ cs) }
      else next

  -- The loop over the fields: `token` is `line[start:i]`, and the end of the line ends a token too.
  unfoldable pub scan : List ℕ → List ℕ → Fields F → Fields F
  scan [] token s = end_token token s
  scan (c ∷ line) token s =
      let s' = end_token token s in
      let rest = scan line [] s' in
      if c == space
      then if ltb rss_field s'.field then s' else rest
      else scan line (token ++ c ∷ []) s

  abbrev pub unread : Fields F
  unread = record {
    field = 1;
    utime = a.float.from_uint 0;
    stime = a.float.from_uint 0;
    rss_pages = a.float.from_uint 0;
  }

  abbrev pub stat_of : F → ℕ → Fields F → Option (Stat F)
  stat_of user_hz page_size s =
      if leb s.field stime_field
      then none
      else some (record {
        cpu_seconds = a.float.div (a.add s.utime s.stime) user_hz;
        memory = a.to_uint s.rss_pages * page_size % 2 ^ 64;
      })

  abbrev pub parse_fields : F → ℕ → Option (List ℕ) → Option (Stat F)
  unfolding scan
  parse_fields user_hz page_size none = none
  parse_fields user_hz page_size (some rest) =
      if leb (length rest) 1 then none else stat_of user_hz page_size (scan (drop 1 rest) [] unread)

  unfoldable pub proc_stat : F → ℕ → Option (List ℕ) → Option (Stat F)
  unfolding after_name
  proc_stat user_hz page_size none = none
  proc_stat user_hz page_size (some bytes) =
      parse_fields user_hz page_size (after_name (take buffer_size bytes))
