-- ===== src/Collector/Processes.antt =====
-- internal/collector/collector.go: getTopProcesses. What gopsutil answers during one poll is a
-- parameter, `H` are its handles. A process id is a natural number. `Orders` stands for what Go
-- leaves open: how SortFunc places items that compare equal, and the order in which a map is ranged
-- over.
pub mod Top
pub mod Selected
pub mod Described
pub mod Ranked
pub mod Baselines
use Prim.Native.String.{len, ◌++◌ as ◌<>◌}
use sys_sentient.Models.{Process}
use sys_sentient.Collector.{Arithmetic}
use sys_sentient.Prelude.{
  ltb, if◌then◌else◌, ℤ, pos, pos_part, ltb_ℤ, ◌==◌, nat_key, string_key, lookup, insert, Time,
  since, ℕ, zero, ◌<◌, String, Bool, true, false, ◌||◌, Option, none, some, List, [], ◌∷◌, arith,
}

-- `less x y` is that the comparison of `x` with `y` is negative, so `x` goes first.
pub record Orders : Type 1 where
  pub sort : {A : Type 0} → (A → A → Bool) → List A → List A
  pub range : {A : Type 0} → List A → List A

-- The functions of package strings: Fields joined by single spaces, commas replaced, the first n
-- bytes, ToLower.
pub record NameOps : Type 0 where
  pub single_spaced : String → String
  pub without_commas : String → String
  pub first_bytes : ℕ → String → String
  pub to_lower : String → String

pub record ProcCpuSample (F : Type 0) : Type 0 where
  pub total_seconds : F
  pub at : Time

pub record Candidate (F H : Type 0) : Type 0 where
  pub pid : ℕ
  pub proc : H
  pub cpu : F
  pub memory : ℕ

-- What the system answers: the ids, `none` where they cannot be listed, a new handle, the bytes of
-- the stat file, and of a handle its name, `none` for an error, its user and its status; the number
-- of CPUs.
pub record ProcessTable (F H : Type 0) : Type 0 where
  pub pids : Option (List ℕ)
  pub new_process : ℕ → Option H
  pub stat_bytes : ℕ → Option (List ℕ)
  pub user_hz : F
  pub page_size : ℕ
  pub name : H → Option String
  pub username : H → String
  pub status : H → List String
  pub cpu_count : Option ℤ

-- topProcesses is positive after NewCollectorWithHostID.
pub record Collector (F H : Type 0) : Type 0 where
  pub top_processes : ℕ
  pub host_id_override : String
  pub proc_cache : List (ℕ × H)
  pub last_proc_cpu : List (ℕ × ProcCpuSample F)
  pub last_collect_time : Time
  pub last_read_ops : ℕ
  pub last_write_ops : ℕ
  pub cores : ℤ

-- What the loop over the ids has made.
pub record Scanned (F H : Type 0) : Type 0 where
  pub cache : List (ℕ × H)
  pub baselines : List (ℕ × ProcCpuSample F)
  pub candidates : List (Candidate F H)

abbrev pub default_top_processes : ℕ
default_top_processes = 10

-- `trim` is `strings.TrimSpace`.
abbrev pub new_collector_with_host_id :
    {F H : Type 0} → (String → String) → ℤ → String → Collector F H
new_collector_with_host_id trim top host_id = record {
  top_processes = if ltb_ℤ top (pos 1) then default_top_processes else pos_part top;
  host_id_override = trim host_id;
  proc_cache = [];
  last_proc_cpu = [];
  last_collect_time = 0;
  last_read_ops = 0;
  last_write_ops = 0;
  cores = pos 0;
}

abbrev pub normalize_process_state : (String → String) → List String → String
normalize_process_state to_lower [] = "Sleeping"
normalize_process_state to_lower (value ∷ status) =
    let s = to_lower value in
    if s == "running" || s == "run"
    then "Running"
    else if s == "zombie"
    then "Zombie"
    else if s == "stopped" || s == "stop"
    then "Stopped"
    else normalize_process_state to_lower status

abbrev pub compact_process_name : NameOps → String → String
compact_process_name names name =
    let short = names.without_commas (names.single_spaced name) in
    if ltb 80 (len short) then names.first_bytes 77 short <> "..." else short

abbrev pub core_count : Option ℤ → ℤ → ℤ
core_count counted (pos zero) = counted_or_one counted
  where
    counted_or_one : Option ℤ → ℤ
    counted_or_one none = pos 1
    counted_or_one (some n) = if ltb_ℤ (pos 0) n then n else pos 1
core_count counted cores = cores

module _ {F : Type 0} (a : Arithmetic F) where
  abbrev pub num : ℕ → F
  num = a.float.from_uint

  abbrev pub cpu_since : Option (ProcCpuSample F) → F → Time → F
  cpu_since none total now = num 0
  cpu_since (some previous) total now =
      let elapsed = a.seconds (since now previous.at) in
      let delta = a.sub total previous.total_seconds in
      if a.float.le elapsed (num 0)
      then num 0
      else if a.float.le delta (num 0)
      then num 0
      else a.float.mul (a.float.div delta elapsed) (num 100)

  -- `math.Round(x*100) / 100`.
  abbrev pub two_decimals : F → F
  two_decimals x = a.float.div (a.round (a.float.mul x (num 100))) (num 100)

  -- Busiest first, and of equally busy ones the largest.
  abbrev pub busier : Process F → Process F → Bool
  busier p q =
      if a.less q.cpu p.cpu
      then true
      else if a.less p.cpu q.cpu
      then false
      else ltb q.memory_bytes p.memory_bytes

  abbrev pub process_cpu_percent :
      List (ℕ × ProcCpuSample F) → ℕ → F → Time → List (ℕ × ProcCpuSample F) × F
  process_cpu_percent baselines pid total now = (
    insert pid (record { total_seconds = total; at = now }) baselines,
    cpu_since (lookup pid baselines) total now,
  )
