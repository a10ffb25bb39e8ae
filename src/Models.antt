-- ===== src/Models.antt =====
-- internal/models/metrics.go: the sample that a host reports.
-- float64 is a parameter: a type with the operations that the program applies to it.
use sys_sentient.Prelude.{
  ltb, leb, ℤ, pos, nat_key, string_key, Time, ℕ, ◌*◌, ◌/◌, String, Bool, List, [],
}

-- The operations of float64 that the code uses; no law is assumed of them.
pub record FloatOps (F : Type 0) : Type 0 where
  pub lt : F → F → Bool
  pub le : F → F → Bool
  pub from_uint : ℕ → F
  pub div : F → F → F
  pub mul : F → F → F

pub record Filesystem (F : Type 0) : Type 0 where
  pub mountpoint : String
  pub device : String
  pub fs_type : String
  pub total_bytes : ℕ
  pub used_bytes : ℕ
  pub free_bytes : ℕ
  pub used_percent : F
  pub inodes_used_percent : F

pub record Process (F : Type 0) : Type 0 where
  pub pid : ℤ
  pub name : String
  pub user : String
  pub cpu : F
  pub cpu_core : F
  pub memory : ℕ
  pub memory_bytes : ℕ
  pub state : String

pub record SystemState (F : Type 0) : Type 0 where
  pub host_id : String
  pub hostname : String
  pub timestamp : Time
  pub cpu_usage : F
  pub cpu_per_core : List F
  pub memory_used : ℕ
  pub memory_total : ℕ
  pub swap_used : ℕ
  pub swap_total : ℕ
  pub memory_cached : ℕ
  pub memory_buffers : ℕ
  pub disk_read_bytes : ℕ
  pub disk_write_bytes : ℕ
  pub disk_iops : F
  pub net_sent_bytes : ℕ
  pub net_recv_bytes : ℕ
  pub load_avg_1 : F
  pub load_avg_5 : F
  pub load_avg_15 : F
  pub temperature : F
  pub uptime_seconds : ℕ
  pub top_processes : String
  pub processes : List (Process F)
  pub process_count : ℤ
  pub filesystems : List (Filesystem F)

-- Whole numbers in the place of float64, for tests.
abbrev pub whole : FloatOps ℕ
whole = record { lt = ltb; le = leb; from_uint = λ n. n; div = λ a b. a / b; mul = λ a b. a * b }

-- A sample that reports nothing but its host, for tests.
abbrev pub blank_sample : String → SystemState ℕ
blank_sample host = record {
  host_id = host;
  hostname = host;
  timestamp = 0;
  cpu_usage = 0;
  cpu_per_core = [];
  memory_used = 0;
  memory_total = 0;
  swap_used = 0;
  swap_total = 0;
  memory_cached = 0;
  memory_buffers = 0;
  disk_read_bytes = 0;
  disk_write_bytes = 0;
  disk_iops = 0;
  net_sent_bytes = 0;
  net_recv_bytes = 0;
  load_avg_1 = 0;
  load_avg_5 = 0;
  load_avg_15 = 0;
  temperature = 0;
  uptime_seconds = 0;
  top_processes = "None";
  processes = [];
  process_count = pos 0;
  filesystems = [];
}
