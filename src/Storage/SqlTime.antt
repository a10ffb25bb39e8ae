-- ===== src/Storage/SqlTime.antt =====
-- internal/storage/sqlite.go: `sqlTime`, the one form in which the database stores an instant. The
-- text has milliseconds, sorts as the instants do, and is read back as the instant cut to them.
use sys_sentient.Prelude.{nat_key, string_key, Time, ℕ, ◌*◌, ◌/◌, ◌≤◌, arith}

abbrev pub millisecond : ℕ
millisecond = 1_000_000

abbrev pub sql_time : Time → Time
sql_time t = t / millisecond * millisecond

pub sql_time_mono : (t u : Time) → t ≤ u → sql_time t ≤ sql_time u
sql_time_mono t u h = omega arith
