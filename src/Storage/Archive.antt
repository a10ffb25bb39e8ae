-- ===== src/Storage/Archive.antt =====
-- internal/storage/archive.go: rollup rows that are moved to files, and put back. A file is its rows:
-- JSON and gzip are not modelled. `disk n` says whether the n-th step on files succeeds, `up n` whether
-- the n-th statement does, and `name` is the file's name for a tier and a time.
pub mod Order
pub mod Moved
pub mod Kept
pub mod Overflow
use sys_sentient.Prelude.{
  leb, if◌then◌else◌, length, pos, ◌==◌, nat_key, string_key, lookup, insert, retain, Time, second,
  ℕ, ◌*◌, String, Bool, not, ◌&&◌, ◌||◌, Option, none, some, List, [], ◌∷◌, arith,
}
use sys_sentient.Models.{FloatOps}
use sys_sentient.Storage.SqlTime.{sql_time}
use sys_sentient.Storage.Rollup.{rollup_key, History, RollupKey, RollupRow, RollupPoint, Rollups}
use sys_sentient.Storage.TimeRange.{
  Range, rows, invalid_range, query_failed, get_rollups_range, max_range_rows,
}

-- `time.Unix(0, 0)`.
abbrev pub unix_epoch : Time
unix_epoch = 62_135_596_800 * second

pub record Archives (F : Type 0) : Type 0 where
  pub history : History F
  pub files : List (String × List (RollupPoint F))

-- How many rows were archived, or an error.
pub data Archived : Type 0 where
  archived : ℕ → Archived
  archive_failed : Archived

-- Everything up to a time.
abbrev pub up_to : Time → Range
up_to t = record { from = unix_epoch; to = t }

module _ {F : Type 0} where
  -- `DELETE FROM metric_rollups WHERE resolution = ? AND bucket <= ?`.
  unfoldable pub delete_archived : String → Time → History F → History F
  delete_archived resolution t db = record db {
    rollups =
        retain (λ k _. not (k.resolution == resolution && leb k.bucket (sql_time t))) db.rollups;
  }

  -- Write, rename and stat the file, and only then delete the rows.
  unfoldable pub write_and_delete :
      (ℕ → Bool)
      → (ℕ → Bool)
      → String
      → String
      → Time
      → List (RollupPoint F)
      → Archives F
      → Archives F × Archived
  unfolding delete_archived
  write_and_delete up disk file resolution t [] s = (s, archived 0)
  write_and_delete up disk file resolution t (p ∷ points) s =
      if not (disk 1 && disk 2)
      then (s, archive_failed)
      else let s = record s { files = insert file (p ∷ points) s.files } in
        if not (disk 3 && up 1) then (s, archive_failed) else (
          record s { history = delete_archived resolution t s.history },
          archived (length (p ∷ points)),
        )

  unfoldable pub archive_tier :
      (ℕ → Bool)
      → (ℕ → Bool)
      → (String → Time → String)
      → String
      → String
      → Time
      → Archives F
      → Archives F × Archived
  unfolding write_and_delete
  archive_tier up disk name resolution dir t s =
      if dir == "" || not (disk 0)
      then (s, archive_failed)
      else elim (get_rollups_range (up 0) s.history resolution "" (up_to t) (pos max_range_rows)) [
        | rows points ↦ write_and_delete up disk (name resolution t) resolution t points s
        | invalid_range ↦ (s, archive_failed)
        | query_failed ↦ (s, archive_failed)
      ]

module _ {F : Type 0} (ops : FloatOps F) where
  abbrev pub point_key : RollupPoint F → RollupKey
  point_key p = record {
    bucket = sql_time p.bucket;
    resolution = p.resolution;
    host_id = p.host_id;
  }

  -- The columns that a point lacks are NULL, which is read as 0 wherever it is read.
  unfoldable pub row_of_point : RollupPoint F → RollupRow F
  row_of_point p = record {
    samples = p.samples;
    cpu_avg = p.cpu_avg;
    cpu_max = p.cpu_max;
    memory_used_avg = p.memory_used;
    memory_used_max = ops.from_uint 0;
    memory_total = p.memory_total;
    swap_used_avg = p.swap_used;
    load_avg_1 = p.load_avg_1;
    load_max_1 = p.load_max_1;
    disk_read_avg = p.disk_read;
    disk_write_avg = p.disk_write;
    disk_iops_avg = ops.from_uint 0;
    net_sent_avg = p.net_sent;
    net_recv_avg = p.net_recv;
    temperature_avg = p.temperature;
    temperature_max = p.temp_max;
  }

  -- The loop over the rows of an archive.
  unfoldable pub restore_points : List (RollupPoint F) → Rollups F → Rollups F
  unfolding row_of_point
  restore_points [] t = t
  restore_points (p ∷ rest) t = restore_points rest (insert (point_key p) (row_of_point p) t)

  -- A restore that fails anywhere changes nothing; `up` says whether all of it succeeds.
  unfoldable pub restore_archive : Bool → String → Archives F → Archives F × Option ℕ
  unfolding restore_points
  restore_archive up path s = elim (lookup path s.files) [
    | none ↦ (s, none)
    | some points ↦ if not up then (s, none) else (
      record s {
        history = record (s.history) { rollups = restore_points points s.history.rollups };
      },
      some (length points),
    )
  ]
