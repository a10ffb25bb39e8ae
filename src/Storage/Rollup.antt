-- ===== src/Storage/Rollup.antt =====
-- internal/storage/rollup.go: the tiers of metric history, raw samples, averages by the minute and by
-- five minutes. An instant of text is a number (see SqlTime), the zero Time is midnight UTC, so
-- `strftime` cuts it to a multiple of a minute. A row of metric_rollups stands under its UNIQUE key, and
-- INSERT OR REPLACE is an insertion. A group's row is written once for each member of the group, each
-- time the same. `up n` says whether the n-th statement succeeds. `AddDate` goes
-- by the calendar of the machine's time zone, which is a parameter.
pub mod Groups
pub mod Idempotent
pub mod Tally
use sys_sentient.Prelude.{
  ltb, if◌then◌else◌, nat_beq_iff, length, keep_if, all, Keyed, ◌==◌, nat_key, string_key, insert,
  retain, Time, before, minute, hour, ℕ, ◌+◌, ◌-◌, ◌*◌, ◌/◌, String, ◌≡◌, ◌↔◌, Bool, true, false,
  not, ◌&&◌, List, [], ◌∷◌, map, arith,
}
use sys_sentient.Models.{FloatOps, SystemState}
use sys_sentient.Storage.SqlTime.{sql_time}

pub record RetentionPolicy : Type 0 where
  pub raw_hours : ℕ
  pub minute_days : ℕ
  pub five_minute_days : ℕ

abbrev pub default_retention : RetentionPolicy
default_retention = record { raw_hours = 24; minute_days = 30; five_minute_days = 365 }

abbrev pub rollup_minute : String
rollup_minute = "1m"

abbrev pub rollup_five_minute : String
rollup_five_minute = "5m"

-- `UNIQUE(bucket, resolution, host_id)`.
pub record RollupKey : Type 0 where
  pub bucket : Time
  pub resolution : String
  pub host_id : String

abbrev pub rollup_key_beq : RollupKey → RollupKey → Bool
rollup_key_beq a b =
    a.bucket == b.bucket && (a.resolution == b.resolution && a.host_id == b.host_id)

pub rollup_key_beq_iff : (a b : RollupKey) → (rollup_key_beq a b ≡ true) ↔ (a ≡ b)
rollup_key_beq_iff a b = ground (
  arith,
  nat_beq_iff a.bucket b.bucket,
  string_key.same_iff a.resolution b.resolution,
  string_key.same_iff a.host_id b.host_id,
)

instance abbrev pub rollup_key : Keyed RollupKey
rollup_key = record { same = rollup_key_beq; same_iff = rollup_key_beq_iff }

pub record RollupRow (F : Type 0) : Type 0 where
  pub samples : ℕ
  pub cpu_avg : F
  pub cpu_max : F
  pub memory_used_avg : F
  pub memory_used_max : F
  pub memory_total : F
  pub swap_used_avg : F
  pub load_avg_1 : F
  pub load_max_1 : F
  pub disk_read_avg : F
  pub disk_write_avg : F
  pub disk_iops_avg : F
  pub net_sent_avg : F
  pub net_recv_avg : F
  pub temperature_avg : F
  pub temperature_max : F

-- What a read of a row gives. The columns memory_used_max and disk_iops_avg are not read.
pub record RollupPoint (F : Type 0) : Type 0 where
  pub bucket : Time
  pub resolution : String
  pub host_id : String
  pub samples : ℕ
  pub cpu_avg : F
  pub cpu_max : F
  pub memory_used : F
  pub memory_total : F
  pub swap_used : F
  pub load_avg_1 : F
  pub load_max_1 : F
  pub disk_read : F
  pub disk_write : F
  pub net_sent : F
  pub net_recv : F
  pub temperature : F
  pub temp_max : F

-- SQLite's aggregates over a group: `AVG(x)`, `MAX(x)` and `SUM(x * samples) / SUM(samples)`.
pub record Aggregates (F : Type 0) : Type 0 where
  pub avg : List F → F
  pub greatest : List F → F
  pub weighted : List (F × ℕ) → F

abbrev pub Rollups : Type 0 → Type 0
Rollups F = List (RollupKey × RollupRow F)

-- `t.AddDate(0, 0, -days)`, at the location of `t`.
pub record Calendar : Type 0 where
  pub days_ago : ℕ → Time → Time

-- The tables metrics and metric_rollups.
pub record History (F : Type 0) : Type 0 where
  pub metrics : List (SystemState F)
  pub rollups : Rollups F

-- The start of the minute, and of the five minutes, that an instant lies in.
abbrev pub minute_of : Time → Time
minute_of t = t / minute * minute

abbrev pub five_minutes_of : Time → Time
five_minutes_of t = t / (5 * minute) * (5 * minute)

-- `now.Add(-hours * time.Hour)` and `now.AddDate(0, 0, -days)`, as the database stores them.
abbrev pub raw_cutoff : RetentionPolicy → Time → Time
raw_cutoff p now = sql_time (now - p.raw_hours * hour)

abbrev pub days_before : ⦃calendar : Calendar⦄ → ℕ → Time → Time
days_before ⦃calendar⦄ days now = sql_time (calendar.days_ago days now)

abbrev pub five_minute_key : RollupKey → RollupKey
five_minute_key k = record {
  bucket = five_minutes_of k.bucket;
  resolution = rollup_five_minute;
  host_id = k.host_id;
}

module _ {F : Type 0} where
  abbrev pub minute_key : SystemState F → RollupKey
  minute_key s = record {
    bucket = minute_of s.timestamp;
    resolution = rollup_minute;
    host_id = s.host_id;
  }

  -- `SELECT ...` and `rows.Scan(...)`.
  unfoldable pub point_of : RollupKey × RollupRow F → RollupPoint F
  point_of (k, r) = record {
    bucket = k.bucket;
    resolution = k.resolution;
    host_id = k.host_id;
    samples = r.samples;
    cpu_avg = r.cpu_avg;
    cpu_max = r.cpu_max;
    memory_used = r.memory_used_avg;
    memory_total = r.memory_total;
    swap_used = r.swap_used_avg;
    load_avg_1 = r.load_avg_1;
    load_max_1 = r.load_max_1;
    disk_read = r.disk_read_avg;
    disk_write = r.disk_write_avg;
    net_sent = r.net_sent_avg;
    net_recv = r.net_recv_avg;
    temperature = r.temperature_avg;
    temp_max = r.temperature_max;
  }

  abbrev pub sum_samples : List (RollupKey × RollupRow F) → ℕ
  sum_samples [] = 0
  sum_samples ((k, r) ∷ rest) = r.samples + sum_samples rest

  abbrev pub is_ripe_minute : Time → RollupKey × RollupRow F → Bool
  is_ripe_minute cutoff e =
      e.0.resolution == rollup_minute && (before e.0.bucket cutoff && ltb 0 e.1.samples)

module _ {F : Type 0} (ops : FloatOps F) (agg : Aggregates F) where
  -- One group of samples, averaged.
  unfoldable pub minute_row : List (SystemState F) → RollupRow F
  minute_row group =
      let of = λ (x : SystemState F → ℕ). map (λ s. ops.from_uint (x s)) group in
      record {
        samples = length group;
        cpu_avg = agg.avg (map (λ s. s.cpu_usage) group);
        cpu_max = agg.greatest (map (λ s. s.cpu_usage) group);
        memory_used_avg = agg.avg (of (λ s. s.memory_used));
        memory_used_max = agg.greatest (of (λ s. s.memory_used));
        memory_total = agg.greatest (of (λ s. s.memory_total));
        swap_used_avg = agg.avg (of (λ s. s.swap_used));
        load_avg_1 = agg.avg (map (λ s. s.load_avg_1) group);
        load_max_1 = agg.greatest (map (λ s. s.load_avg_1) group);
        disk_read_avg = agg.avg (of (λ s. s.disk_read_bytes));
        disk_write_avg = agg.avg (of (λ s. s.disk_write_bytes));
        disk_iops_avg = agg.avg (map (λ s. s.disk_iops) group);
        net_sent_avg = agg.avg (of (λ s. s.net_sent_bytes));
        net_recv_avg = agg.avg (of (λ s. s.net_recv_bytes));
        temperature_avg = agg.avg (map (λ s. s.temperature) group);
        temperature_max = agg.greatest (map (λ s. s.temperature) group);
      }

  -- One group of minute rows, each weighted by its samples.
  unfoldable pub five_minute_row : List (RollupKey × RollupRow F) → RollupRow F
  five_minute_row group =
      let of = λ (x : RollupRow F → F). agg.weighted (map (λ e. (x e.1, e.1.samples)) group) in
      let most = λ (x : RollupRow F → F). agg.greatest (map (λ e. x e.1) group) in
      record {
        samples = sum_samples group;
        cpu_avg = of (λ r. r.cpu_avg);
        cpu_max = most (λ r. r.cpu_max);
        memory_used_avg = of (λ r. r.memory_used_avg);
        memory_used_max = most (λ r. r.memory_used_max);
        memory_total = most (λ r. r.memory_total);
        swap_used_avg = of (λ r. r.swap_used_avg);
        load_avg_1 = of (λ r. r.load_avg_1);
        load_max_1 = most (λ r. r.load_max_1);
        disk_read_avg = of (λ r. r.disk_read_avg);
        disk_write_avg = of (λ r. r.disk_write_avg);
        disk_iops_avg = of (λ r. r.disk_iops_avg);
        net_sent_avg = of (λ r. r.net_sent_avg);
        net_recv_avg = of (λ r. r.net_recv_avg);
        temperature_avg = of (λ r. r.temperature_avg);
        temperature_max = most (λ r. r.temperature_max);
      }

-- `INSERT OR REPLACE ... SELECT ... GROUP BY key` over the members `xs` of a table of groups.
unfoldable pub insert_groups {ℓ} :
    {A : Type ℓ} {F : Type 0}
    → (A → RollupKey)
    → (List A → RollupRow F)
    → List A
    → List A
    → Rollups F
    → Rollups F
insert_groups key row all [] t = t
insert_groups key row all (x ∷ xs) t =
    insert (key x) (row (keep_if (λ y. key y == key x) all)) (insert_groups key row all xs t)

module _ {F : Type 0} (ops : FloatOps F) (agg : Aggregates F) where
  unfoldable pub rollup_minutes : Time → History F → History F
  rollup_minutes cutoff db =
      let ripe = keep_if (λ s. before s.timestamp cutoff) db.metrics in
      record db { rollups = insert_groups (minute_key) (minute_row ops agg) ripe ripe db.rollups }

  unfoldable pub rollup_five_minutes : Time → History F → History F
  rollup_five_minutes cutoff db =
      let ripe = keep_if (is_ripe_minute cutoff) db.rollups in
      record db {
        rollups =
            insert_groups (λ e. five_minute_key e.0) (five_minute_row ops agg) ripe ripe db.rollups;
      }

module _ ⦃calendar : Calendar⦄ {F : Type 0} (ops : FloatOps F) (agg : Aggregates F) where
  -- Whether there was no error, and the tables after it.
  unfoldable pub rollup : (ℕ → Bool) → RetentionPolicy → Time → History F → History F × Bool
  unfolding rollup_minutes rollup_five_minutes
  rollup up policy now db =
      if not (up 0)
      then (db, false)
      else let db' = rollup_minutes ops agg (raw_cutoff policy now) db in
        if not (up 1)
        then (db', false)
        else (rollup_five_minutes ops agg (days_before policy.minute_days now) db', true)

module _ {F : Type 0} where
  unfoldable pub prune_raw : Time → History F → History F
  prune_raw cutoff db = record db {
    metrics = keep_if (λ s. not (before s.timestamp cutoff)) db.metrics;
  }

  unfoldable pub prune_buckets : String → Time → History F → History F
  prune_buckets resolution cutoff db = record db {
    rollups = retain (λ k _. not (k.resolution == resolution && before k.bucket cutoff)) db.rollups;
  }

module _ ⦃calendar : Calendar⦄ {F : Type 0} where
  unfoldable pub prune_tiers : (ℕ → Bool) → RetentionPolicy → Time → History F → History F × Bool
  unfolding prune_raw prune_buckets
  prune_tiers up policy now db =
      if not (up 0)
      then (db, false)
      else let db = prune_raw (raw_cutoff policy now) db in
        if not (up 1)
        then (db, false)
        else let db = prune_buckets rollup_minute (days_before policy.minute_days now) db in
          if not (up 2)
          then (db, false)
          else (prune_buckets rollup_five_minute (days_before policy.five_minute_days now) db, true)
