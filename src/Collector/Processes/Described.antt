-- ===== src/Collector/Processes/Described.antt =====
-- internal/collector/collector.go: the candidates of a scan, and their rows in the answer.
use mathlib.Core.List.{Memᴰ}
use sys_sentient.Models.{Process}
use sys_sentient.Collector.{Arithmetic}
use sys_sentient.Collector.ProcStat.{Stat, proc_stat}
use sys_sentient.Collector.Processes.{
  NameOps, Candidate, ProcessTable, Scanned, compact_process_name,
}
use sys_sentient.Collector.Processes.Top.{
  describe_named, keep_some, scan_process, process_of, measured, scan_pid, scan_pids, describe,
  describe_each,
}
use sys_sentient.Prelude.{
  length, All, All-append, ℤ, pos, ◌==◌, nat_key, string_key, insert, Time, ℕ, suc, ◌≤◌, String,
  ◌≡◌, refl, sym, ap, subst, ◌∙◌, false, Option, none, some, List, [], ◌∷◌, arith,
}

module _ {F H : Type 0} (cache : List (ℕ × H)) (table : ProcessTable F H) where
  -- A candidate's handle is the one that its id has in this poll.
  abbrev pub IsHandled : Candidate F H → Type 0
  IsHandled x = process_of cache table x.pid ≡ some x.proc

module _ {F H : Type 0} (a : Arithmetic F) (cache : List (ℕ × H)) (table : ProcessTable F H)
    (now : Time) where
  measured-IsHandled :
      (pid : ℕ) (p : H) (stat : Option (Stat F)) (s : Scanned F H)
      → process_of cache table pid ≡ some p
      → All (IsHandled cache table) s.candidates
      → All (IsHandled cache table) (measured a pid p stat now s).candidates
  measured-IsHandled pid p none s e h = h
  measured-IsHandled pid p (some stat) s e h =
      All-append (IsHandled cache table) s.candidates _ h (e, tt)

  scan_process-IsHandled :
      (pid : ℕ) (s : Scanned F H) (found : Option H)
      → process_of cache table pid ≡ found
      → All (IsHandled cache table) s.candidates
      → All (IsHandled cache table) (scan_process a table now pid s found).candidates
  scan_process-IsHandled pid s none e h = h
  scan_process-IsHandled pid s (some p) e h =
      measured-IsHandled pid p (proc_stat a table.user_hz table.page_size (table.stat_bytes pid))
        (record s { cache = insert pid p s.cache }) e h

  pub scan_pids-IsHandled :
      (pids : List ℕ) (s : Scanned F H)
      → All (IsHandled cache table) s.candidates
      → All (IsHandled cache table) (scan_pids a cache table now pids s).candidates
  unfolding scan_pids
  scan_pids-IsHandled [] s h = h
  scan_pids-IsHandled (pid ∷ pids) s h =
      scan_pids-IsHandled pids (scan_pid a cache table now pid s)
        (scan_process-IsHandled pid s (process_of cache table pid) refl h)

module _ {F : Type 0} where
  Mem-keep_some :
      (o : Option (Process F)) (p : Process F) (l : List (Process F))
      → Memᴰ p l
      → Memᴰ p (keep_some o l)
  Mem-keep_some none p l m = m
  Mem-keep_some (some q) p l m = Memᴰ.tail m

  length-keep_some-le :
      (o : Option (Process F)) (l : List (Process F)) → length (keep_some o l) ≤ suc (length l)
  length-keep_some-le none l = omega arith
  length-keep_some-le (some q) l = omega arith

module _ {F H : Type 0} (names : NameOps) where
  -- What stands for a candidate in the answer.
  abbrev pub StandsFor : String → Candidate F H → Process F → Type 0
  StandsFor name x p = (p.pid ≡ pos x.pid) × (p.name ≡ compact_process_name names name)

module _ {F H : Type 0} (a : Arithmetic F) (names : NameOps) where
  pub describe_each-Mem :
      (table : ProcessTable F H) (cores : ℤ) (k : ℕ) (x : Candidate F H) (p : Process F)
      (l : List (ℕ × Candidate F H))
      → Memᴰ (k, x) l
      → describe a names table cores x ≡ some p
      → Memᴰ p (describe_each a names table cores l)
  describe_each-Mem table cores k x p [] m e = elim m [ ]
  describe_each-Mem table cores k x p (y ∷ l) (Memᴰ.head same) e =
      let shown : describe a names table cores y.1 ≡ some p =
        ap (λ z. describe a names table cores z.1) (sym same) ∙ e in
      subst (λ o. Memᴰ p (keep_some o (describe_each a names table cores l))) (sym shown)
        (Memᴰ.head refl)
  describe_each-Mem table cores k x p (y ∷ l) (Memᴰ.tail m) e =
      Mem-keep_some (describe a names table cores y.1) p _
        (describe_each-Mem table cores k x p l m e)

  pub length-describe_each-le :
      (table : ProcessTable F H) (cores : ℤ) (l : List (ℕ × Candidate F H))
      → length (describe_each a names table cores l) ≤ length l
  length-describe_each-le table cores [] = omega arith
  length-describe_each-le table cores (y ∷ l) = omega (
    arith,
    length-keep_some-le (describe a names table cores y.1) (describe_each a names table cores l),
    length-describe_each-le table cores l,
  )

  pub described_named :
      (table : ProcessTable F H) (cores : ℤ) (x : Candidate F H) (name : String)
      → (name == "") ≡ false
      → (p : Process F) × (describe_named a names table cores x (some name) ≡ some p)
        × StandsFor names name x p
  described_named table cores x name f = rw f (_, refl, (refl, refl))
