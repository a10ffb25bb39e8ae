-- ===== src/Collector/Collect/Tests.antt =====
-- internal/collector/collector.go: two polls of a daemon with the default configuration.
use sys_sentient.Auth.User.{TextOps}
use sys_sentient.Models.{SystemState, whole}
use sys_sentient.Config.File.{Config, default_config}
use sys_sentient.Config.File.Load.{
  not_found, loaded, load_config, validate_config, validate_agent, validate_storage,
  validate_limits,
}
use sys_sentient.Collector.Insertion.{insertion_orders, insertion_orders-IsOrders}
use sys_sentient.Collector.Processes.{Collector, new_collector_with_host_id}
use sys_sentient.Collector.Processes.Top.{get_top_processes}
use sys_sentient.Collector.Collect.{DiskCounter, Readings, collect, collect_each}
use sys_sentient.Collector.Collect.Bounded.{IsSmall, collect_each-bounded}
use sys_sentient.Collector.Tests.{
  naturals, naturals-IsWeakOrder, plain_names, two, partitions, half_full,
}
use sys_sentient.Prelude.{
  All, pos, ◌==◌, nat_key, string_key, second, ℕ, ◌*◌, ◌≡◌, refl, false, none, some, [], ◌∷◌, map,
}

abbrev lower_case : TextOps
lower_case = record {
  trim_space = λ s. s;
  to_lower = λ s. s;
  byte_length = λ s. 20;
  has_space = λ s. false;
  cut_at = λ s. none;
  has_at = λ s. false;
  rune_count = λ s. 20;
  equal_fold = λ a b. a == b;
}

abbrev defaults : Config ℕ
defaults = default_config 1

defaults_load : load_config whole lower_case not_found (some defaults) ≡ loaded defaults
unfolding load_config validate_config validate_agent validate_storage validate_limits
defaults_load = refl

abbrev disk : ℕ → DiskCounter
disk ops = record { read_bytes = 512; write_bytes = 0; read_count = ops; write_count = 0 }

abbrev readings : ℕ → Readings ℕ ℕ
readings ops = record {
  cpu_percent = some (12 ∷ []);
  cpu_per_core = 12 ∷ [];
  virtual_memory = some (record { used = 4; cached = 1; buffers = 1; total = 8 });
  swap = none;
  disk_counters = some (disk ops ∷ disk 5 ∷ []);
  net_counters = some ((100, 200) ∷ []);
  load_avg = none;
  temperatures = [];
  uptime = some 60;
  host_id = "h1";
  hostname = "web";
  processes = record two { pids = none };
  partitions = some partitions;
  usage = λ m. some half_full;
}

abbrev collector : Collector ℕ ℕ
collector = new_collector_with_host_id (λ s. s) (pos 10) ""

-- 1000 operations in 2 seconds, and then a counter that starts anew.
operations_per_second :
    map
      (λ (s : SystemState ℕ). s.disk_iops)
      (collect_each naturals plain_names insertion_orders
        (λ ps. "None")
        collector
        ((readings 100, second) ∷ (readings 1100, 3 * second) ∷ (readings 50, 5 * second) ∷ []))
    ≡ 0 ∷ 500 ∷ 0 ∷ []
unfolding collect get_top_processes
operations_per_second = refl

collect_each-bounded_example : All IsSmall (
    collect_each naturals plain_names insertion_orders
      (λ ps. "None")
      collector
      ((readings 100, second) ∷ (readings 1100, 3 * second) ∷ []))
collect_each-bounded_example =
    collect_each-bounded naturals naturals-IsWeakOrder plain_names insertion_orders
      insertion_orders-IsOrders (λ ps. "None") lower_case not_found (some defaults) defaults
      ((readings 100, second) ∷ (readings 1100, 3 * second) ∷ []) defaults_load
