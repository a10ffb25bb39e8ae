-- ===== src/Collector/Collect/Bounded.antt =====
-- internal/collector/collector.go and internal/config/config.go: the samples of a daemon with a
-- loaded configuration.
use sys_sentient.Auth.User.{TextOps}
use sys_sentient.Models.{Process, SystemState}
use sys_sentient.Config.File.{Config}
use sys_sentient.Config.File.Load.{Reading, loaded, load_config}
use sys_sentient.Config.File.Usable.{load_config-IsUsable}
use sys_sentient.Collector.{Arithmetic}
use sys_sentient.Collector.Order.{IsWeakOrder, IsOrders}
use sys_sentient.Collector.Processes.{
  Orders, NameOps, ProcessTable, Collector, new_collector_with_host_id,
}
use sys_sentient.Collector.Processes.Top.{keep_some, listed_processes, get_top_processes}
use sys_sentient.Collector.Processes.Ranked.{shown, get_top_processes_bounded}
use sys_sentient.Collector.Filesystems.Complete.{length-collect_filesystems-le}
use sys_sentient.Collector.Collect.{
  disk_ops_per_second, sum_uint64, disk_ops_per_second, collect_each, DiskCounter, VirtualMemory,
  Readings, listed_or_none, collect_sample, collect_net, collect_read, collect, with_counters,
}
use sys_sentient.Prelude.{
  if◌then◌else◌, length, All, ℤ, pos, pos_part, ltb_ℤ, leb_ℤ, nat_key, string_key, Time, ℕ, ◌≤◌,
  String, ◌≡◌, refl, true, Option, none, some, List, [], ◌∷◌, arith,
}

-- The parts of a sample that a host could make long.
abbrev pub IsSmall : {F : Type 0} → SystemState F → Type 0
IsSmall s = (length s.processes ≤ 400) × (length s.filesystems ≤ 24)

length-listed_or_none :
    {F H : Type 0} (summary : List (Process F) → String) (c : Collector F H)
    (listed : Option (List (Process F) × ℕ))
    → length (listed_or_none summary listed).1 ≡ length (shown (c, listed))
length-listed_or_none summary c none = refl
length-listed_or_none summary c (some listed) = refl

module _ {F H : Type 0} (a : Arithmetic F) (order : IsWeakOrder a.less) (names : NameOps)
    (orders : Orders) (laws : IsOrders orders) (summary : List (Process F) → String) where
  -- What a poll makes of a collector that shows at most 200 processes by CPU and 200 by memory.
  abbrev IsPolled : Collector F H × Option (SystemState F) → Type 0
  IsPolled (c, none) = c.top_processes ≤ 200
  IsPolled (c, some s) = (c.top_processes ≤ 200) × IsSmall s

  top_processes-kept :
      (c : Collector F H) (table : ProcessTable F H) (limit : ℕ) (now : Time)
      (listed : Option (List ℕ))
      → (listed_processes a names orders c table limit now listed).0.top_processes ≡ c.top_processes
  top_processes-kept c table limit now none = refl
  top_processes-kept c table limit now (some pids) = refl

  get_top_processes_keeps :
      (c : Collector F H) (table : ProcessTable F H) (limit : ℕ) (now : Time)
      → (get_top_processes a names orders c table limit now).0.top_processes ≡ c.top_processes
  unfolding get_top_processes
  get_top_processes_keeps c table limit now = top_processes-kept c table limit now table.pids

  collect_sample-IsPolled :
      (c : Collector F H) (r : Readings F H) (now : Time) (cpus : List F) (mem : VirtualMemory)
      (disks : List DiskCounter) (iops : F) (nets : List (ℕ × ℕ))
      → c.top_processes ≤ 200
      → IsPolled (collect_sample a names orders summary c r now cpus mem disks iops nets)
  collect_sample-IsPolled c r now cpus mem disks iops nets h =
      let polled = get_top_processes a names orders c r.processes c.top_processes now in
      let kept = get_top_processes_keeps c r.processes c.top_processes now in
      let (few, sorted) =
        get_top_processes_bounded a order names orders laws c r.processes c.top_processes now in
      (
        omega (arith, kept),
        (
          omega (arith, length-listed_or_none summary polled.0 polled.1, few),
          length-collect_filesystems-le a.float names.to_lower r.usage orders laws r.partitions,
        ),
      )

  collect-IsPolled :
      (c : Collector F H) (r : Readings F H) (now : Time)
      → c.top_processes ≤ 200
      → IsPolled (collect a names orders summary c r now)
  unfolding collect
  collect-IsPolled c r now h = by_readings r.cpu_percent r.virtual_memory r.disk_counters
    where
      by_net :
          (cpus : List F) (mem : VirtualMemory) (disks : List DiskCounter)
          (nets : Option (List (ℕ × ℕ)))
          → IsPolled (collect_net a names orders summary c r now cpus mem disks nets)
      by_net cpus mem disks none = h
      by_net cpus mem disks (some nets) =
          let iops =
            disk_ops_per_second a c now (sum_uint64 (λ d. d.read_count) disks)
              (sum_uint64 (λ d. d.write_count) disks) in
          collect_sample-IsPolled (with_counters a c now disks) r now cpus mem disks iops nets h

      by_readings :
          (cpus : Option (List F)) (mem : Option VirtualMemory) (disks : Option (List DiskCounter))
          → IsPolled (collect_read a names orders summary c r now cpus mem disks)
      by_readings none mem disks = h
      by_readings (some cpus) none disks = h
      by_readings (some cpus) (some mem) none = h
      by_readings (some cpus) (some mem) (some disks) = by_net cpus mem disks r.net_counters

  still_few :
      (out : Collector F H × Option (SystemState F)) → IsPolled out → out.0.top_processes ≤ 200
  still_few (c, none) h = h
  still_few (c, some s) h = h.0

  keep_some-IsSmall :
      (out : Collector F H × Option (SystemState F))
      → IsPolled out
      → (rest : List (SystemState F)) → All IsSmall rest
      → All IsSmall (keep_some out.1 rest)
  keep_some-IsSmall (c, none) h rest k = k
  keep_some-IsSmall (c, some s) h rest k = (h.1, k)

  collect_each-IsSmall :
      (c : Collector F H) (polls : List (Readings F H × Time))
      → c.top_processes ≤ 200
      → All IsSmall (collect_each a names orders summary c polls)
  collect_each-IsSmall c [] h = tt
  collect_each-IsSmall c ((r, now) ∷ polls) h =
      let (c', sample) = collect a names orders summary c r now in
      let polled = collect-IsPolled c r now h in
      keep_some-IsSmall (c', sample) polled _
        (collect_each-IsSmall c' polls (still_few (c', sample) polled))

  -- In a daemon with a configuration that LoadConfig returned, no sample of any series of polls
  -- names more than 400 processes or 24 filesystems, whatever the system answers: however many
  -- processes run and partitions are mounted.
  pub collect_each-bounded :
      (text : TextOps) (reading : Reading) (decoded : Option (Config F)) (cfg : Config F)
      (polls : List (Readings F H × Time))
      → load_config a.float text reading decoded ≡ loaded cfg
      → All IsSmall (
          collect_each a names orders summary
            (new_collector_with_host_id text.trim_space cfg.collector.top_processes
              cfg.collector.host_id)
            polls)
  collect_each-bounded text reading decoded cfg polls h =
      let usable = load_config-IsUsable a.float text reading decoded cfg h in
      collect_each-IsSmall _ polls (few cfg.collector.top_processes usable.processes_in_range.1)
    where
      few : (z : ℤ) → leb_ℤ z (pos 200) ≡ true → (if ltb_ℤ z (pos 1) then 10 else pos_part z) ≤ 200
      few z le = ground arith
