-- ===== src/Collector/Tests.antt =====
-- internal/collector: the theorems at two processes and three partitions.
use sys_sentient.Collector.Filesystems.Complete.{collect_filesystems_complete}
use sys_sentient.Collector.Filesystems.Seen.{IsShown}
use sys_sentient.Collector.Processes.Baselines.{get_top_processes_forgets}
use sys_sentient.Collector.Processes.Ranked.{get_top_processes_ranked, candidates_of, shown}
use sys_sentient.Collector.Processes.Described.{StandsFor}
use sys_sentient.Collector.Filesystems.{
  max_filesystems, mount_each, collect_filesystems, Usage, Partition,
}
use mathlib.Core.List.{Memᴰ}
use sys_sentient.Models.{Process, whole}
use sys_sentient.Collector.{Arithmetic}
use sys_sentient.Collector.Insertion.{insertion_orders-IsOrders, insertion, place, insertion_orders}
use sys_sentient.Collector.Order.{rank, IsWeakOrder}
use sys_sentient.Collector.ProcStat.{close_paren, space, proc_stat, parse_uint, after_name, scan}
use sys_sentient.Collector.ProcStat.Name.{tokens_of, StatLine, IsStatLine, line_of, proc_stat_named}
use sys_sentient.Collector.ProcStat.Tokens.{IsPlain, IsToken}
use sys_sentient.Collector.Processes.{
  process_cpu_percent, NameOps, Candidate, ProcessTable, Collector, new_collector_with_host_id,
}
use sys_sentient.Collector.Processes.Top.{by_memory, select_top, scan_pids, get_top_processes}
use sys_sentient.Prelude.{
  inr, ◌⊎◌, ◌≤◌, ◌*◌, length, ltb, if◌then◌else◌, all, All, pos, pos_part, ◌==◌, nat_key,
  string_key, lookup, insert, retain, second, ℕ, zero, suc, ◌+◌, ◌-◌, ◌/◌, ◌≡◌, refl, Bool, true,
  false, not, ◌&&◌, some, List, [], ◌∷◌, arith,
}

abbrev pub naturals : Arithmetic ℕ
naturals = record {
  float = whole;
  add = λ a b. a + b;
  sub = λ a b. a - b;
  round = λ a. a;
  to_uint = λ a. a;
  seconds = λ d. pos_part d / second;
  less = ltb;
}

pub naturals-IsWeakOrder : IsWeakOrder ltb
naturals-IsWeakOrder = record {
  asym = λ x y h. ground arith;
  negative_trans = λ x y z h k. ground arith;
}

-- Fields that hold one digit.
abbrev digits : ℕ → ℕ → List (List ℕ)
digits zero c = []
digits (suc n) c = (c ∷ []) ∷ digits n c

-- "7 (a) b) S 0 ... 12 3 0 ... r", for a digit r.
abbrev line : ℕ → StatLine
line rss = record {
  before = 55 ∷ 32 ∷ 40 ∷ [];
  name = 97 ∷ 41 ∷ 32 ∷ 98 ∷ [];
  state = 83 ∷ [];
  early = digits 10 48;
  utime = 49 ∷ 50 ∷ [];
  stime = 51 ∷ [];
  between = digits 8 48;
  rss = rss ∷ [];
  late = digits 2 48;
}

abbrev plain : ℕ → Bool
plain c = not (c == space) && not (c == close_paren)

plain-All : (t : List ℕ) → all plain t ≡ true → All IsPlain t
plain-All [] h = tt
plain-All (c ∷ t) h = ((ground arith, ground arith), plain-All t (ground arith))

abbrev is_token : List ℕ → Bool
is_token [] = false
is_token (c ∷ t) = all plain (c ∷ t)

is_token-All : (ts : List (List ℕ)) → all is_token ts ≡ true → All IsToken ts
is_token-All [] h = tt
is_token-All ([] ∷ ts) h = cc
is_token-All ((c ∷ t) ∷ ts) h =
    ((λ e. cc, plain-All (c ∷ t) (ground arith)), is_token-All ts (ground arith))

line-IsStatLine : IsStatLine (line 53)
line-IsStatLine = record {
  tokens = is_token-All (tokens_of (line 53)) refl;
  ten_early = refl;
  eight_between = refl;
  fits = omega arith;
}

proc_stat_named_example :
    proc_stat naturals 1 4096 (some (line_of (line 53)))
    ≡ some (record { cpu_seconds = 15; memory = 20480 })
unfolding parse_uint
proc_stat_named_example = proc_stat_named naturals 1 4096 (line 53) line-IsStatLine

abbrev pub plain_names : NameOps
plain_names = record {
  single_spaced = λ s. s;
  without_commas = λ s. s;
  first_bytes = λ n s. s;
  to_lower = λ s. s;
}

-- Two processes, of which 8 holds more memory; a handle is its id.
abbrev pub two : ProcessTable ℕ ℕ
two = record {
  pids = some (7 ∷ 8 ∷ []);
  new_process = λ pid. some pid;
  stat_bytes = λ pid. some (line_of (line (41 + pid)));
  user_hz = 1;
  page_size = 4096;
  name = λ pid. if pid == 7 then some "sh" else some "db";
  username = λ pid. "root";
  status = λ pid. "sleep" ∷ [];
  cpu_count = some (pos 4);
}

abbrev fresh : Collector ℕ ℕ
fresh = new_collector_with_host_id (λ s. s) (pos 1) ""

abbrev database : Candidate ℕ ℕ
database = record { pid = 8; proc = 8; cpu = 0; memory = 4096 }

largest_shown :
    (get_top_processes naturals plain_names insertion_orders fresh two 1 second).1
    ≡ some (
      record {
        pid = pos 8;
        name = "db";
        user = "root";
        cpu = 0;
        cpu_core = 0;
        memory = 0;
        memory_bytes = 4096;
        state = "Sleeping";
      }
          ∷ [],
      2,
    )
unfolding get_top_processes scan_pids proc_stat after_name scan parse_uint select_top
    insertion_orders lookup insert retain place insertion
largest_shown = refl

database-Mem : Memᴰ database (candidates_of naturals fresh two second (7 ∷ 8 ∷ []))
unfolding scan_pids proc_stat after_name scan parse_uint lookup insert
database-Mem = Memᴰ.tail (Memᴰ.head refl)

database_first : rank by_memory database (candidates_of naturals fresh two second (7 ∷ 8 ∷ [])) ≤ 1
unfolding scan_pids proc_stat after_name scan parse_uint lookup insert
database_first = omega arith

get_top_processes_ranked_example :
    (p : Process ℕ) × Memᴰ p
      (shown (get_top_processes naturals plain_names insertion_orders fresh two 1 second))
    × StandsFor plain_names "db" database p
get_top_processes_ranked_example =
    get_top_processes_ranked naturals naturals-IsWeakOrder plain_names insertion_orders
      insertion_orders-IsOrders fresh two 1 second (7 ∷ 8 ∷ []) database "db" refl database-Mem refl
      refl (inr (database_first, refl))

-- The id 9 is not listed, and is then another process's.
get_top_processes_forgets_example :
    (process_cpu_percent naturals
      (get_top_processes naturals plain_names insertion_orders
        (record fresh { last_proc_cpu = (9, record { total_seconds = 5; at = 0 }) ∷ [] })
        two
        1
        second).0.last_proc_cpu
      9
      700
      (3 * second)).1
    ≡ 0
get_top_processes_forgets_example =
    get_top_processes_forgets naturals plain_names insertion_orders
      (record fresh { last_proc_cpu = (9, record { total_seconds = 5; at = 0 }) ∷ [] }) two 1 second
      (3 * second) (7 ∷ 8 ∷ []) 9 700 refl refl

abbrev root_disk : Partition
root_disk = record { mountpoint = "/"; device = "/dev/sda1"; fstype = "ext4" }

abbrev bind_mount : Partition
bind_mount = record { mountpoint = "/srv"; device = "/dev/sda1"; fstype = "ext4" }

abbrev pub partitions : List Partition
partitions =
    record { mountpoint = "/proc"; device = "proc"; fstype = "proc" } ∷ root_disk ∷ bind_mount ∷ []

abbrev pub half_full : Usage ℕ
half_full = record { total = 10; used = 5; free = 5; used_percent = 50; inodes_used_percent = 1 }

one_row :
    length
      (collect_filesystems whole (λ s. s) (λ m. some half_full) insertion_orders (some partitions))
    ≡ 1
unfolding collect_filesystems mount_each insertion_orders insertion place
one_row = refl

collect_filesystems_complete_example :
    let rows =
      collect_filesystems whole (λ s. s) (λ m. some half_full) insertion_orders (some partitions) in
    (length rows ≤ max_filesystems) × ((length rows ≡ max_filesystems) ⊎ IsShown rows bind_mount)
collect_filesystems_complete_example =
    collect_filesystems_complete whole (λ s. s) (λ m. some half_full) insertion_orders
      insertion_orders-IsOrders partitions bind_mount half_full
      (Memᴰ.tail (Memᴰ.tail (Memᴰ.head refl))) refl refl refl
