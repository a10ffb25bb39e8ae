-- ===== src/Collector/Processes/Baselines.antt =====
-- internal/collector/collector.go: the CPU times that are kept from poll to poll.
use sys_sentient.Collector.{Arithmetic}
use sys_sentient.Collector.ProcStat.{Stat, proc_stat}
use sys_sentient.Collector.Processes.{
  Orders, NameOps, ProcessTable, Collector, Scanned, num, cpu_since, process_cpu_percent,
}
use sys_sentient.Collector.Processes.Top.{
  process_of, unscanned, measured, scan_process, scan_pid, scan_pids, after_scan, listed_processes,
  get_top_processes,
}
use sys_sentient.Prelude.{
  if◌then◌else◌, is_some, any, ◌==◌, nat_key, string_key, lookup, insert, lookup-insert,
  lookup-retain_key, Time, ℕ, ◌≡◌, refl, ap, ◌∙◌, false, Option, none, some, List, [], ◌∷◌, arith,
}

module _ {F H : Type 0} (a : Arithmetic F) (cache : List (ℕ × H)) (table : ProcessTable F H)
    (now : Time) (k : ℕ) where
  measured_cache :
      (pid : ℕ) (p : H) (stat : Option (Stat F)) (s : Scanned F H)
      → (measured a pid p stat now s).cache ≡ s.cache
  measured_cache pid p none s = refl
  measured_cache pid p (some stat) s = refl

  scan_process_other :
      (pid : ℕ) (s : Scanned F H) (found : Option H)
      → (pid == k) ≡ false
      → lookup k s.cache ≡ none
      → lookup k (scan_process a table now pid s found).cache ≡ none
  scan_process_other pid s none other h = h
  scan_process_other pid s (some p) other h =
      ap (lookup k) (
        measured_cache pid p (proc_stat a table.user_hz table.page_size (table.stat_bytes pid))
          (record s { cache = insert pid p s.cache }))
      ∙ rw (lookup-insert, other) h

  scan_pids_other :
      (pids : List ℕ) (s : Scanned F H)
      → any (λ pid. pid == k) pids ≡ false
      → lookup k s.cache ≡ none
      → lookup k (scan_pids a cache table now pids s).cache ≡ none
  unfolding scan_pids
  scan_pids_other [] s other h = h
  scan_pids_other (pid ∷ pids) s other h =
      scan_pids_other pids (scan_pid a cache table now pid s) (ground arith)
        (scan_process_other pid s (process_of cache table pid) (ground arith) h)

module _ {F H : Type 0} (a : Arithmetic F) (names : NameOps) (orders : Orders) where
  -- An id that a poll does not list has no baseline after it, so the next process that has the id
  -- is reported idle at first, whatever CPU time it has used: nothing of an earlier process of the
  -- same id is charged to it.
  pub get_top_processes_forgets :
      (c : Collector F H) (table : ProcessTable F H) (limit : ℕ) (now later : Time) (pids : List ℕ)
      (pid : ℕ) (total : F)
      → table.pids ≡ some pids
      → any (λ listed. listed == pid) pids ≡ false
      → (process_cpu_percent a
          (get_top_processes a names orders c table limit now).0.last_proc_cpu
          pid
          total
          later).1
        ≡ num a 0
  unfolding get_top_processes lookup
  get_top_processes_forgets c table limit now later pids pid total listed gone =
      let s = scan_pids a c.proc_cache table now pids (unscanned c) in
      let uncached : lookup pid s.cache ≡ none =
        scan_pids_other a c.proc_cache table now pid pids (unscanned c) gone refl in
      let forgotten : lookup pid (after_scan table s c).last_proc_cpu ≡ none =
        lookup-retain_key (λ j. is_some (lookup j s.cache)) pid s.baselines
        ∙ ap (λ o. if is_some o then lookup pid s.baselines else none) uncached in
      ap (λ polled. cpu_since a (lookup pid polled.0.last_proc_cpu) total later)
        (ap (listed_processes a names orders c table limit now) listed)
      ∙ ap (λ o. cpu_since a o total later) forgotten
