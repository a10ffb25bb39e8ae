-- ===== src/Collector.antt =====
-- internal/collector: what a host's sample is made of.
-- The arithmetic of float64 is a parameter, and so is what the operating system answers.
pub mod ProcStat
pub mod Processes
pub mod Order
pub mod Filesystems
pub mod Collect
pub mod Insertion
mod Tests
use sys_sentient.Models.{FloatOps}
use sys_sentient.Prelude.{nat_key, string_key, Duration, ℕ, Bool, arith}

-- The operations of float64 and of its conversions that the collector uses: `less a b` is
-- `cmp.Compare(a, b) < 0`, `to_uint` is `uint64(a)`, and `seconds` is `d.Seconds()`.
pub record Arithmetic (F : Type 0) : Type 0 where
  pub float : FloatOps F
  pub add : F → F → F
  pub sub : F → F → F
  pub round : F → F
  pub to_uint : F → ℕ
  pub seconds : Duration → F
  pub less : F → F → Bool
