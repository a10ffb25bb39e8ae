-- ===== src/Storage/TimeRange.antt =====
-- internal/storage/timerange.go: reading a window of history. An instant of text is a number (see
-- SqlTime). Rows of one instant are returned in the order in which they were inserted; SQLite may
-- return them in another. `up` says whether the query succeeds, `summary` is `FormatTopProcesses`.
pub mod Spread
pub mod Tiers
use sys_sentient.Prelude.{
  ltb, leb, if◌then◌else◌, length, take, keep_if, ℤ, pos, negsuc, sub_ℕ, leb_ℤ, ◌==◌, nat_key,
  string_key, Time, Duration, since, add_time, after, before, hour, ℕ, ◌+◌, ◌-◌, ◌*◌, ◌/◌, ◌%◌, max,
  String, Bool, not, ◌&&◌, ◌||◌, List, [], ◌∷◌, map, arith, sort_by,
}
use sys_sentient.Models.{Process, SystemState}
use sys_sentient.Storage.Samples.{restore_top_processes}
use sys_sentient.Storage.SqlTime.{sql_time}
use sys_sentient.Storage.Rollup.{
  History, RollupPoint, point_of, Rollups, rollup_minute, rollup_five_minute,
}

abbrev pub resolution_raw : String
resolution_raw = "raw"

abbrev pub resolution_auto : String
resolution_auto = "auto"

abbrev pub max_range_rows : ℕ
max_range_rows = 20_000

abbrev pub default_range_rows : ℕ
default_range_rows = 2000

-- Both ends are included.
pub record Range : Type 0 where
  pub from : Time
  pub to : Time

-- The rows, ErrInvalidRange, or the error of the query.
pub data Rows (A : Type 0) : Type 0 where
  rows : List A → Rows A
  invalid_range query_failed : Rows A

abbrev pub duration : Range → Duration
duration r = since r.to r.from

-- Whether the range is refused.
abbrev pub is_inverted : Range → Bool
is_inverted r = before r.to r.from

unfoldable pub clamp_limit : ℤ → ℕ
clamp_limit (negsuc n) = default_range_rows
clamp_limit (pos n) =
    if n == 0 then default_range_rows else if ltb max_range_rows n then max_range_rows else n

-- `now.Add(-rawRetention + time.Hour)`.
abbrev pub raw_horizon : ℕ → Time → Time
raw_horizon raw_retention now = add_time now (sub_ℕ hour raw_retention)

unfoldable pub resolve_resolution : Range → ℕ → Time → String
resolve_resolution r raw_retention now =
    if after r.from (raw_horizon raw_retention now) && leb_ℤ (duration r) (pos hour)
    then resolution_raw
    else if leb_ℤ (duration r) (pos (36 * hour))
    then rollup_minute
    else rollup_five_minute

-- `timestamp >= ? AND timestamp <= ?`.
abbrev pub lies_in : Range → Time → Bool
lies_in r t = leb (sql_time r.from) t && leb t (sql_time r.to)

-- `AND host_id = ?`, where a host is asked for.
abbrev pub is_of_host : String → String → Bool
is_of_host asked host = asked == "" || host == asked

-- `WHERE rn % stride = 0`, the row numbers counted from `rn`. What a `let` binds waits.
unfoldable pub every : {A : Type 0} → ℕ → ℕ → List A → List A
every stride rn [] = []
every stride rn (x ∷ xs) =
    let rest = every stride (rn + 1) xs in if rn % stride == 0 then x ∷ rest else rest

-- `MAX(1, (total + capped - 1) / capped)`.
abbrev pub stride : ℕ → ℕ → ℕ
stride total capped = max 1 ((total + capped - 1) / capped)

module _ {F : Type 0} where
  -- The samples of a window, oldest first.
  unfoldable pub window : History F → String → Range → List (SystemState F)
  window db host r =
      sort_by (λ s. s.timestamp)
        (keep_if (λ s. lies_in r s.timestamp && is_of_host host s.host_id) db.metrics)

  unfoldable pub query_range :
      (List (Process F) → String) → Bool → History F → String → Range → ℤ → Rows (SystemState F)
  unfolding window every restore_top_processes
  query_range summary up db host r limit =
      let capped = clamp_limit limit in
      let found = window db host r in
      if is_inverted r
      then invalid_range
      else if not up
      then query_failed
      else rows (
          map (restore_top_processes summary)
            (take capped (every (stride (length found) capped) 0 found)))

  -- The rows of a tier in a window, oldest first.
  unfoldable pub tier_window : History F → String → String → Range → Rollups F
  tier_window db resolution host r =
      sort_by (λ e. e.0.bucket)
        (keep_if
          (λ e.
            e.0.resolution == resolution && (lies_in r e.0.bucket && is_of_host host e.0.host_id))
          db.rollups)

  unfoldable pub get_rollups_range :
      Bool → History F → String → String → Range → ℤ → Rows (RollupPoint F)
  unfolding tier_window
  get_rollups_range up db resolution host r limit =
      if is_inverted r
      then invalid_range
      else if not up
      then query_failed
      else rows (map point_of (take (clamp_limit limit) (tier_window db resolution host r)))
