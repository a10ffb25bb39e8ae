-- ===== src/Collector/Processes/Ranked.antt =====
-- internal/collector/collector.go: which processes getTopProcesses shows.
use mathlib.Core.Option.{some-injective}
use mathlib.Core.List.{Memᴰ}
use sys_sentient.Models.{Process}
use sys_sentient.Collector.{Arithmetic}
use sys_sentient.Collector.Order.{
  IsSortedBy, IsWeakOrder, IsOrders, rank, Mem-perm, All-perm, All-Mem, length-perm,
}
use sys_sentient.Collector.Processes.{
  core_count, Orders, NameOps, Candidate, ProcessTable, Collector, busier,
}
use sys_sentient.Collector.Processes.Top.{
  listed_processes, describe_named, process_of, unscanned, by_memory, uses_memory, select_each,
  scan_pids, by_cpu, uses_cpu, select_top, describe_each, top_of, get_top_processes,
}
use sys_sentient.Prelude.{
  length, take, All, length-take, ℤ, pos, ◌==◌, nat_key, string_key, Time, ℕ, ◌*◌, ◌≤◌, String, ◌≡◌,
  refl, sym, ap, subst, ◌∙◌, ◌⊎◌, true, false, Option, none, some, List, [], ◌∷◌, arith,
}
use sys_sentient.Collector.Processes.Selected.{
  select_top-Mem, take-All, length-select_each-le, lookup-Mem, select_each-All, busier-order,
}
use sys_sentient.Collector.Processes.Described.{
  IsHandled, StandsFor, scan_pids-IsHandled, describe_each-Mem, length-describe_each-le,
  described_named,
}

module _ {F H : Type 0} where
  abbrev pub shown : Collector F H × Option (List (Process F) × ℕ) → List (Process F)
  shown (c, none) = []
  shown (c, some (processes, count)) = processes

module _ {F H : Type 0} (a : Arithmetic F) where
  -- The candidates of a poll that lists `pids`.
  abbrev pub candidates_of : Collector F H → ProcessTable F H → Time → List ℕ → List (Candidate F H)
  candidates_of c table now pids =
      (scan_pids a c.proc_cache table now pids (unscanned c)).candidates

module _ {F H : Type 0} (a : Arithmetic F) (order : IsWeakOrder a.less) (names : NameOps)
    (orders : Orders) (laws : IsOrders orders) where
  -- A selected entry stands under its own id, with the handle of the id.
  abbrev IsEntry : List (ℕ × H) → ProcessTable F H → ℕ × Candidate F H → Type 0
  IsEntry cache table entry =
      (entry.1.pid ≡ entry.0) × (process_of cache table entry.1.pid ≡ some entry.1.proc)

  select_top-All :
      (cache : List (ℕ × H)) (table : ProcessTable F H) (limit : ℕ) (l : List (Candidate F H))
      → All (IsHandled cache table) l
      → All (IsEntry cache table) (select_top a orders limit l)
  unfolding select_top
  select_top-All cache table limit l h =
      let keyed = under_own l h in
      let ranked =
        All-perm (λ x. IsEntry cache table (x.pid, x)) (laws.permutes (by_cpu a) l) keyed in
      let by_size =
        All-perm (λ x. IsEntry cache table (x.pid, x))
          (laws.permutes by_memory (orders.sort (by_cpu a) l)) ranked in
      select_each-All (IsEntry cache table) uses_memory _ _ (take-All _ limit _ by_size)
        (select_each-All (IsEntry cache table) (uses_cpu a) _ [] (take-All _ limit _ ranked) tt)
    where
      under_own :
          (l : List (Candidate F H))
          → All (IsHandled cache table) l
          → All (λ x. IsEntry cache table (x.pid, x)) l
      under_own [] h = tt
      under_own (x ∷ l) h = ((refl, h.0), under_own l h.1)

  top_of-Mem :
      (table : ProcessTable F H) (cores : ℤ) (limit : ℕ) (name : String) (x : Candidate F H)
      (l : List (Candidate F H)) (cache : List (ℕ × H))
      → All (IsHandled cache table) l
      → Memᴰ x l
      → table.name x.proc ≡ some name
      → (name == "") ≡ false
      → ((rank (by_cpu a) x l ≤ limit) × (uses_cpu a x ≡ true))
        ⊎ ((rank by_memory x l ≤ limit) × (uses_memory x ≡ true))
      → (p : Process F) × Memᴰ p (top_of a names orders table cores limit l)
        × StandsFor names name x p
  unfolding select_top
  top_of-Mem table cores limit name x l cache handled m named filled top =
      let (y, entry) =
        lookup-Mem x.pid (select_top a orders limit l)
          (select_top-Mem a order orders laws limit x l m top) in
      let (own, handle) =
        All-Mem (IsEntry cache table) (select_top-All cache table limit l handled) entry in
      let same : some y.proc ≡ some x.proc =
        sym handle ∙ ap (process_of cache table) own ∙ All-Mem (IsHandled cache table) handled m in
      let (p, shown, (pid, text)) = described_named a names table cores y name filled in
      let found : table.name y.proc ≡ some name =
        ap table.name (some-injective y.proc x.proc same) ∙ named in
      (
        p,
        Mem-perm (laws.permutes (busier a) _) (
            describe_each-Mem a names table cores x.pid y p
              (orders.range (select_top a orders limit l)) (Mem-perm (laws.ranges _) entry)
              (ap (describe_named a names table cores y) found ∙ shown)),
        (pid ∙ ap pos own, text),
      )

  get_top_processes-listed :
      (c : Collector F H) (table : ProcessTable F H) (limit : ℕ) (now : Time) (pids : List ℕ)
      → table.pids ≡ some pids
      → get_top_processes a names orders c table limit now
        ≡ listed_processes a names orders c table limit now (some pids)
  unfolding get_top_processes
  get_top_processes-listed c table limit now pids e =
      ap (listed_processes a names orders c table limit now) e

  -- Where the processes can be listed, a candidate that the system can name is shown, under its id
  -- and its name, if it uses CPU and at most `limit` candidates, itself among them, use no less of
  -- it; and so it is if it holds memory and at most `limit` candidates hold no less of it, however
  -- idle it is.
  pub get_top_processes_ranked :
      (c : Collector F H) (table : ProcessTable F H) (limit : ℕ) (now : Time) (pids : List ℕ)
      (x : Candidate F H) (name : String)
      → table.pids ≡ some pids
      → Memᴰ x (candidates_of a c table now pids)
      → table.name x.proc ≡ some name
      → (name == "") ≡ false
      → ((rank (by_cpu a) x (candidates_of a c table now pids) ≤ limit) × (uses_cpu a x ≡ true))
        ⊎ ((rank by_memory x (candidates_of a c table now pids) ≤ limit) × (uses_memory x ≡ true))
      → (p : Process F) × Memᴰ p (shown (get_top_processes a names orders c table limit now))
        × StandsFor names name x p
  get_top_processes_ranked c table limit now pids x name listed m named filled top =
      let (p, among, stands) =
        top_of-Mem table (core_count table.cpu_count c.cores) limit name x
          (candidates_of a c table now pids) c.proc_cache
          (scan_pids-IsHandled a c.proc_cache table now pids (unscanned c) tt) m named filled top in
      (
        p,
        subst (Memᴰ p) (sym (ap shown (get_top_processes-listed c table limit now pids listed)))
            among,
        stands,
      )

  length-top_of-le :
      (table : ProcessTable F H) (cores : ℤ) (limit : ℕ) (l : List (Candidate F H))
      → length (top_of a names orders table cores limit l) ≤ 2 * limit
  unfolding select_top
  length-top_of-le table cores limit l =
      let ranked = orders.sort (by_cpu a) l in
      let first = take limit ranked in
      let second = take limit (orders.sort by_memory ranked) in
      let chosen = select_top a orders limit l in
      omega (
        arith,
        length-perm
            (laws.permutes (busier a) (describe_each a names table cores (orders.range chosen))),
        length-describe_each-le a names table cores (orders.range chosen),
        length-perm (laws.ranges chosen),
        length-select_each-le uses_memory second (select_each (uses_cpu a) first []),
        length-select_each-le (uses_cpu a) first [],
        length-take limit ranked,
        length-take limit (orders.sort by_memory ranked),
      )

  -- At most twice `limit` processes are shown, busiest first, and of equally busy ones the largest
  -- first, whatever the state of the collector and whatever the system answers.
  pub get_top_processes_bounded :
      (c : Collector F H) (table : ProcessTable F H) (limit : ℕ) (now : Time)
      → (length (shown (get_top_processes a names orders c table limit now)) ≤ 2 * limit)
        × IsSortedBy (busier a) (shown (get_top_processes a names orders c table limit now))
  unfolding get_top_processes
  get_top_processes_bounded c table limit now = by_listing table.pids
    where
      by_listing :
          (listed : Option (List ℕ))
          → (length (shown (listed_processes a names orders c table limit now listed)) ≤ 2 * limit)
            × IsSortedBy
                (busier a)
                (shown (listed_processes a names orders c table limit now listed))
      by_listing none = (omega arith, tt)
      by_listing (some pids) = (
        length-top_of-le table (core_count table.cpu_count c.cores) limit
            (candidates_of a c table now pids),
        laws.sorts (busier a) _ (busier-order a order),
      )
