-- ===== src/Collector/ProcStat/Name.antt =====
-- internal/collector/proctimes_linux.go: a line of /proc/<pid>/stat, whatever the executable is
-- called.
use sys_sentient.Collector.{Arithmetic}
use sys_sentient.Collector.ProcStat.{
  buffer_size, parse_uint, unread, stat_of, parse_fields, proc_stat,
}
use sys_sentient.Prelude.{
  leb, length, All, take_all, nat_key, string_key, second, ℕ, suc, ◌*◌, ◌%◌, ◌^◌, ◌≤◌, ◌≡◌, refl,
  ap, ◌∙◌, ◌≢◌, inl, inr, false, some, List, [], ◌∷◌, ◌++◌, arith,
}
use sys_sentient.Collector.ProcStat.Tokens.{
  IsToken, spaced, stat_line, spaced-All, after_name-append, read_all, scan-spaced, read_all-skip,
  read_utime, read_stime, read_rss,
}

-- A line as the kernel writes it: what stands before the name, the name, and the fields, of which
-- the twelfth, the thirteenth and the twenty-second are read.
pub record StatLine : Type 0 where
  pub before : List ℕ
  pub name : List ℕ
  pub state : List ℕ
  pub early : List (List ℕ)
  pub utime : List ℕ
  pub stime : List ℕ
  pub between : List (List ℕ)
  pub rss : List ℕ
  pub late : List (List ℕ)

abbrev pub fields_behind : StatLine → List (List ℕ)
fields_behind l = l.between ++ (l.rss ∷ l.late)

abbrev pub fields_read : StatLine → List (List ℕ)
fields_read l = l.utime ∷ (l.stime ∷ fields_behind l)

abbrev pub tokens_of : StatLine → List (List ℕ)
tokens_of l = (l.state ∷ l.early) ++ fields_read l

abbrev pub line_of : StatLine → List ℕ
line_of l = stat_line l.before l.name (tokens_of l)

-- The fields hold neither spaces nor parentheses, the name is any bytes, and the line fits the
-- buffer.
pub record IsStatLine (l : StatLine) : Type 0 where
  pub tokens : All IsToken (tokens_of l)
  pub ten_early : length l.early ≡ 10
  pub eight_between : length l.between ≡ 8
  pub fits : length (line_of l) ≤ buffer_size

is_long : (t line : List ℕ) → t ≢ [] → leb (suc (length (t ++ line))) 1 ≡ false
is_long [] line h = absurd (h refl)
is_long (c ∷ t) line h = ground arith

All-split : (xs ys : List (List ℕ)) → All IsToken (xs ++ ys) → All IsToken xs × All IsToken ys
All-split [] ys h = (tt, h)
All-split (x ∷ xs) ys h = let rest = All-split xs ys h.1 in ((h.0, rest.0), rest.1)

module _ {F : Type 0} (a : Arithmetic F) (user_hz : F) (page_size : ℕ) where
  read_line :
      (l : StatLine)
      → IsStatLine l
      → read_all a (tokens_of l) (unread a) ≡ record {
        field = 23;
        utime = parse_uint a l.utime;
        stime = parse_uint a l.stime;
        rss_pages = parse_uint a l.rss;
      }
  read_line l p =
      let (first, (u, (v, rest))) = All-split (l.state ∷ l.early) (fields_read l) p.tokens in
      let (second, (r, late)) = All-split l.between (l.rss ∷ l.late) rest in
      read_all-skip a (l.state ∷ l.early) (fields_read l) (unread a) first
        (inl (omega (arith, p.ten_early)))
      ∙ read_utime a l.utime (l.stime ∷ fields_behind l) _ u.0 (omega (arith, p.ten_early))
      ∙ read_stime a l.stime (fields_behind l) _ v.0 refl
      ∙ read_all-skip a l.between (l.rss ∷ l.late) _ second
          (inr (omega arith, omega (arith, p.eight_between)))
      ∙ read_rss a l.rss l.late _ r.0 (omega (arith, p.eight_between))

  -- The times and the memory of a process are read from their own fields whatever its executable is
  -- called, with spaces and parentheses in its name too: the twelfth and the thirteenth field
  -- behind the name make the CPU time, and the twenty-second the memory.
  pub proc_stat_named :
      (l : StatLine)
      → IsStatLine l
      → proc_stat a user_hz page_size (some (line_of l))
        ≡ some (record {
          cpu_seconds = a.float.div (a.add (parse_uint a l.utime) (parse_uint a l.stime)) user_hz;
          memory = a.to_uint (parse_uint a l.rss) * page_size % 2 ^ 64;
        })
  unfolding proc_stat parse_fields
  proc_stat_named l p = rw (take_all buffer_size (line_of l) p.fits) (
      rw
        (after_name-append (l.before ++ l.name) (spaced (tokens_of l))
          (spaced-All (tokens_of l) p.tokens))
        (rw (is_long l.state (spaced (l.early ++ fields_read l)) p.tokens.0.0) (
          ap (stat_of a user_hz page_size) (
            scan-spaced a l.state (l.early ++ fields_read l) (unread a) p.tokens.0.1 p.tokens.1
            ∙ read_line l p))))
