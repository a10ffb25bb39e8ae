-- ===== src/Collector/Processes/Top.antt =====
-- internal/collector/collector.go: the scan of the processes, and the choice of those that are
-- shown.
use sys_sentient.Models.{Process}
use sys_sentient.Collector.{Arithmetic}
use sys_sentient.Collector.ProcStat.{Stat, proc_stat}
use sys_sentient.Prelude.{
  ltb, if◌then◌else◌, is_some, length, take, ℤ, pos, pos_part, ltb_ℤ, ◌==◌, nat_key, string_key,
  lookup, insert, retain, Time, ℕ, ◌*◌, ◌/◌, String, Bool, Option, none, some, List, [], ◌∷◌, ◌++◌,
}
use sys_sentient.Collector.Processes.{
  Orders, NameOps, Candidate, ProcessTable, Collector, Scanned, normalize_process_state,
  compact_process_name, core_count, num, two_decimals, busier, process_cpu_percent,
}

abbrev pub keep_some : {A : Type 0} → Option A → List A → List A
keep_some none rest = rest
keep_some (some x) rest = x ∷ rest

module _ {F H : Type 0} where
  -- The handle kept from the last poll, or a new one.
  abbrev pub process_of : List (ℕ × H) → ProcessTable F H → ℕ → Option H
  process_of cache table pid = elim (lookup pid cache) [
    | some p ↦ some p
    | none ↦ table.new_process pid
  ]

  abbrev pub unscanned : Collector F H → Scanned F H
  unscanned c = record { cache = []; baselines = c.last_proc_cpu; candidates = [] }

  abbrev pub by_memory : Candidate F H → Candidate F H → Bool
  by_memory x y = ltb y.memory x.memory

  abbrev pub uses_memory : Candidate F H → Bool
  uses_memory x = ltb 0 x.memory

  abbrev pub select_each :
      (Candidate F H → Bool)
      → List (Candidate F H)
      → List (ℕ × Candidate F H)
      → List (ℕ × Candidate F H)
  select_each test [] selected = selected
  select_each test (x ∷ xs) selected =
      select_each test xs (if test x then insert x.pid x selected else selected)

module _ {F H : Type 0} (a : Arithmetic F) where
  abbrev pub measured : ℕ → H → Option (Stat F) → Time → Scanned F H → Scanned F H
  measured pid p none now s = s
  measured pid p (some stat) now s =
      let (baselines, cpu) = process_cpu_percent a s.baselines pid stat.cpu_seconds now in
      record s {
        baselines = baselines;
        candidates =
            s.candidates ++ record { pid = pid; proc = p; cpu = cpu; memory = stat.memory } ∷ [];
      }

  abbrev pub scan_process : ProcessTable F H → Time → ℕ → Scanned F H → Option H → Scanned F H
  scan_process table now pid s none = s
  scan_process table now pid s (some p) =
      measured pid p (proc_stat a table.user_hz table.page_size (table.stat_bytes pid)) now
        (record s { cache = insert pid p s.cache })

  abbrev pub scan_pid : List (ℕ × H) → ProcessTable F H → Time → ℕ → Scanned F H → Scanned F H
  scan_pid cache table now pid s = scan_process table now pid s (process_of cache table pid)

  unfoldable pub scan_pids :
      List (ℕ × H) → ProcessTable F H → Time → List ℕ → Scanned F H → Scanned F H
  scan_pids cache table now [] s = s
  scan_pids cache table now (pid ∷ pids) s =
      scan_pids cache table now pids (scan_pid cache table now pid s)

  abbrev pub by_cpu : Candidate F H → Candidate F H → Bool
  by_cpu x y = a.less y.cpu x.cpu

  abbrev pub uses_cpu : Candidate F H → Bool
  uses_cpu x = a.float.lt (num a 0) x.cpu

module _ {F H : Type 0} (a : Arithmetic F) (orders : Orders) where
  -- The second sort is of the list that the first has sorted.
  unfoldable pub select_top : ℕ → List (Candidate F H) → List (ℕ × Candidate F H)
  select_top limit candidates =
      let ranked = orders.sort (by_cpu a) candidates in
      select_each uses_memory (take limit (orders.sort by_memory ranked))
        (select_each (uses_cpu a) (take limit ranked) [])

module _ {F H : Type 0} (a : Arithmetic F) (names : NameOps) where
  -- `none` where the process has ended since the scan.
  abbrev pub describe_named :
      ProcessTable F H → ℤ → Candidate F H → Option String → Option (Process F)
  describe_named table cores x none = none
  describe_named table cores x (some name) =
      if name == ""
      then none
      else some (record {
        pid = pos x.pid;
        name = compact_process_name names name;
        user = table.username x.proc;
        cpu =
            two_decimals a
              (if ltb_ℤ (pos 0) cores then a.float.div x.cpu (num a (pos_part cores)) else x.cpu);
        cpu_core = two_decimals a x.cpu;
        memory = x.memory / (1024 * 1024);
        memory_bytes = x.memory;
        state = normalize_process_state names.to_lower (table.status x.proc);
      })

  abbrev pub describe : ProcessTable F H → ℤ → Candidate F H → Option (Process F)
  describe table cores x = describe_named table cores x (table.name x.proc)

  abbrev pub describe_each : ProcessTable F H → ℤ → List (ℕ × Candidate F H) → List (Process F)
  describe_each table cores [] = []
  describe_each table cores (entry ∷ rest) =
      keep_some (describe table cores entry.1) (describe_each table cores rest)

module _ {F H : Type 0} where
  abbrev pub after_scan : ProcessTable F H → Scanned F H → Collector F H → Collector F H
  after_scan table s c = record c {
    proc_cache = s.cache;
    last_proc_cpu = retain (λ pid _. is_some (lookup pid s.cache)) s.baselines;
    cores = core_count table.cpu_count c.cores;
  }

module _ {F H : Type 0} (a : Arithmetic F) (names : NameOps) (orders : Orders) where
  abbrev pub top_of : ProcessTable F H → ℤ → ℕ → List (Candidate F H) → List (Process F)
  top_of table cores limit candidates =
      orders.sort (busier a)
        (describe_each a names table cores (orders.range (select_top a orders limit candidates)))

  abbrev pub listed_processes :
      Collector F H
      → ProcessTable F H
      → ℕ
      → Time
      → Option (List ℕ)
      → Collector F H × Option (List (Process F) × ℕ)
  listed_processes c table limit now none = (c, none)
  listed_processes c table limit now (some pids) =
      let s = scan_pids a c.proc_cache table now pids (unscanned c) in
      let c' = after_scan table s c in
      (c', some (top_of table c'.cores limit s.candidates, length pids))

  -- The processes and how many are running, `none` where they cannot be listed.
  unfoldable pub get_top_processes :
      Collector F H → ProcessTable F H → ℕ → Time → Collector F H × Option (List (Process F) × ℕ)
  get_top_processes c table limit now = listed_processes c table limit now table.pids
