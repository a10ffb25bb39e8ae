-- ===== src/Collector/Collect.antt =====
-- internal/collector/collector.go: Collect. What the system answers one poll is `Readings`, `none`
-- for an error that Collect returns; `summary` is FormatTopProcesses. Sums of uint64 wrap.
pub mod Bounded
mod Tests
use sys_sentient.Models.{Process, SystemState}
use sys_sentient.Collector.{Arithmetic}
use sys_sentient.Collector.Processes.{Orders, NameOps, ProcessTable, Collector, num}
use sys_sentient.Collector.Processes.Top.{get_top_processes, keep_some}
use sys_sentient.Collector.Filesystems.{Partition, Usage, collect_filesystems}
use sys_sentient.Prelude.{
  ltb, if◌then◌else◌, pos, ◌==◌, nat_key, string_key, Time, since, is_zero, ℕ, ◌+◌, ◌-◌, ◌%◌, ◌^◌,
  String, Option, none, some, List, [], ◌∷◌, arith,
}

pub record DiskCounter : Type 0 where
  pub read_bytes : ℕ
  pub write_bytes : ℕ
  pub read_count : ℕ
  pub write_count : ℕ

pub record VirtualMemory : Type 0 where
  pub used : ℕ
  pub cached : ℕ
  pub buffers : ℕ
  pub total : ℕ

-- Sent and received bytes, used and total swap, and the three load averages are pairs and triples.
pub record Readings (F H : Type 0) : Type 0 where
  pub cpu_percent : Option (List F)
  pub cpu_per_core : List F
  pub virtual_memory : Option VirtualMemory
  pub swap : Option (ℕ × ℕ)
  pub disk_counters : Option (List DiskCounter)
  pub net_counters : Option (List (ℕ × ℕ))
  pub load_avg : Option (F × F × F)
  pub temperatures : List F
  pub uptime : Option ℕ
  pub host_id : String
  pub hostname : String
  pub processes : ProcessTable F H
  pub partitions : Option (List Partition)
  pub usage : String → Option (Usage F)

abbrev pub or_zero : {A : Type 0} → A → Option A → A
or_zero zeros none = zeros
or_zero zeros (some x) = x

abbrev pub first_or : {A : Type 0} → A → List A → A
first_or other [] = other
first_or other (x ∷ xs) = x

abbrev pub sum_uint64 : (DiskCounter → ℕ) → List DiskCounter → ℕ
sum_uint64 read [] = 0
sum_uint64 read (d ∷ ds) = (read d + sum_uint64 read ds) % 2 ^ 64

abbrev pub counter_delta : ℕ → ℕ → ℕ
counter_delta current previous = if ltb current previous then 0 else current - previous

abbrev pub listed_or_none :
    {F : Type 0}
    → (List (Process F) → String)
    → Option (List (Process F) × ℕ)
    → String × List (Process F) × ℕ
listed_or_none summary none = ("Error collecting processes", [], 0)
listed_or_none summary (some (processes, count)) = (summary processes, processes, count)

module _ {F H : Type 0} (a : Arithmetic F) where
  abbrev pub disk_ops_per_second : Collector F H → Time → ℕ → ℕ → F
  disk_ops_per_second c now read_ops write_ops =
      let dt = a.seconds (since now c.last_collect_time) in
      let ops =
        (counter_delta read_ops c.last_read_ops + counter_delta write_ops c.last_write_ops)
        % 2 ^ 64 in
      if is_zero c.last_collect_time
      then num a 0
      else if a.float.lt (num a 0) dt
      then a.float.div (a.float.from_uint ops) dt
      else num a 0

  abbrev pub with_counters : Collector F H → Time → List DiskCounter → Collector F H
  with_counters c now disks = record c {
    last_collect_time = now;
    last_read_ops = sum_uint64 (λ d. d.read_count) disks;
    last_write_ops = sum_uint64 (λ d. d.write_count) disks;
  }

module _ {F H : Type 0} (a : Arithmetic F) (names : NameOps) (orders : Orders)
    (summary : List (Process F) → String) where
  -- The rest of Collect, once the readings that it cannot do without are there.
  abbrev pub collect_sample :
      Collector F H
      → Readings F H
      → Time
      → List F
      → VirtualMemory
      → List DiskCounter
      → F
      → List (ℕ × ℕ)
      → Collector F H × Option (SystemState F)
  collect_sample c r now cpus mem disks iops nets =
      let (c', listed) = get_top_processes a names orders c r.processes c.top_processes now in
      let (text, processes, count) = listed_or_none summary listed in
      let (load1, load5, load15) = or_zero (num a 0, num a 0, num a 0) r.load_avg in
      let (sent, received) = first_or (0, 0) nets in
      let (swap_used, swap_total) = or_zero (0, 0) r.swap in
      (
        c',
        some (record {
          host_id = if c.host_id_override == "" then r.host_id else c.host_id_override;
          hostname = r.hostname;
          timestamp = now;
          cpu_usage = first_or (num a 0) cpus;
          cpu_per_core = r.cpu_per_core;
          memory_used = mem.used;
          memory_total = mem.total;
          swap_used = swap_used;
          swap_total = swap_total;
          memory_cached = mem.cached;
          memory_buffers = mem.buffers;
          disk_read_bytes = sum_uint64 (λ d. d.read_bytes) disks;
          disk_write_bytes = sum_uint64 (λ d. d.write_bytes) disks;
          disk_iops = iops;
          net_sent_bytes = sent;
          net_recv_bytes = received;
          load_avg_1 = load1;
          load_avg_5 = load5;
          load_avg_15 = load15;
          temperature = first_or (num a 0) r.temperatures;
          uptime_seconds = or_zero 0 r.uptime;
          top_processes = text;
          processes = processes;
          process_count = pos count;
          filesystems = collect_filesystems a.float names.to_lower r.usage orders r.partitions;
        }),
      )

  -- The counters of the disks are kept although the network's cannot be read.
  abbrev pub collect_net :
      Collector F H
      → Readings F H
      → Time
      → List F
      → VirtualMemory
      → List DiskCounter
      → Option (List (ℕ × ℕ))
      → Collector F H × Option (SystemState F)
  collect_net c r now cpus mem disks none = (with_counters a c now disks, none)
  collect_net c r now cpus mem disks (some nets) =
      collect_sample (with_counters a c now disks) r now cpus mem disks
        (disk_ops_per_second a c now (sum_uint64 (λ d. d.read_count) disks)
          (sum_uint64 (λ d. d.write_count) disks))
        nets

  abbrev pub collect_read :
      Collector F H
      → Readings F H
      → Time
      → Option (List F)
      → Option VirtualMemory
      → Option (List DiskCounter)
      → Collector F H × Option (SystemState F)
  collect_read c r now (some cpus) (some mem) (some disks) =
      collect_net c r now cpus mem disks r.net_counters
  collect_read c r now _ _ _ = (c, none)

  unfoldable pub collect :
      Collector F H → Readings F H → Time → Collector F H × Option (SystemState F)
  collect c r now = collect_read c r now r.cpu_percent r.virtual_memory r.disk_counters

  -- The samples of a series of polls, without what the daemon does with each.
  abbrev pub collect_each : Collector F H → List (Readings F H × Time) → List (SystemState F)
  collect_each c [] = []
  collect_each c ((r, now) ∷ polls) =
      let (c', sample) = collect c r now in keep_some sample (collect_each c' polls)
