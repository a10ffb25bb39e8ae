-- ===== src/Storage/Tests.antt =====
-- internal/storage/rollup.go, timerange.go and archive.go: small histories, and the theorems at them.
use mathlib.Core.Option
use sys_sentient.Prelude.{
  ◌-◌, ◌<◌, leb, length, take, keep_if, pos, ◌==◌, nat_key, string_key, lookup, Time, second,
  minute, hour, ℕ, zero, suc, ◌+◌, ◌*◌, ◌/◌, ◌≤◌, String, ◌≡◌, refl, ap, ◌∙◌, Bool, true, ◌&&◌,
  some, List, [], ◌∷◌, map, arith, get_elem?, sort_by, length-sort_by,
}
use sys_sentient.Models.{Process, SystemState, whole, blank_sample}
use sys_sentient.Storage.Samples.{restore_top_processes}
use sys_sentient.Storage.SqlTime.{sql_time}
use sys_sentient.Storage.Rollup.{
  Calendar, RollupKey, RollupRow, Rollups, History, Aggregates, rollup, prune_tiers, rollup_minute,
  rollup_five_minute, default_retention, point_of, rollup_key,
}
use sys_sentient.Storage.Rollup.Idempotent.{rollup_again}
use sys_sentient.Storage.TimeRange.{
  is_of_host, lies_in, Range, rows, query_range, get_rollups_range, resolve_resolution, tier_window,
  window, clamp_limit, stride, max_range_rows,
}
use sys_sentient.Storage.TimeRange.Spread.{query_range_spread}
use sys_sentient.Storage.TimeRange.Tiers.{raw_tier_answers, old_window_unanswered}
use sys_sentient.Storage.Archive.{
  Archives, archived, archive_tier, restore_archive, up_to, unix_epoch,
}
use sys_sentient.Storage.Archive.Kept.{archive_restored}
use sys_sentient.Storage.Archive.Overflow.{archive_overflow_lost}

-- Days of 24 hours.
instance abbrev utc : Calendar
utc = record { days_ago = λ days t. t - days * (24 * hour) }

abbrev sum : List ℕ → ℕ
sum [] = 0
sum (x ∷ xs) = x + sum xs

abbrev no_summary : List (Process ℕ) → String
no_summary ps = ""

abbrev whole_aggregates : Aggregates ℕ
whole_aggregates = record {
  avg = λ xs. sum xs / length xs;
  greatest = sum;
  weighted = λ xs. length xs;
}

abbrev at : Time → SystemState ℕ
at t = record (blank_sample "web-1") { timestamp = t }

abbrev flat_row : RollupRow ℕ
flat_row = record {
  samples = 4;
  cpu_avg = 20;
  cpu_max = 30;
  memory_used_avg = 10;
  memory_used_max = 10;
  memory_total = 100;
  swap_used_avg = 0;
  load_avg_1 = 1;
  load_max_1 = 1;
  disk_read_avg = 0;
  disk_write_avg = 0;
  disk_iops_avg = 0;
  net_sent_avg = 0;
  net_recv_avg = 0;
  temperature_avg = 40;
  temperature_max = 41;
}

abbrev row_at : String → Time → RollupKey × RollupRow ℕ
row_at resolution t = (record { bucket = t; resolution = resolution; host_id = "web-1" }, flat_row)

abbrev day : ℕ
day = 24 * hour

-- Thirty days and a half after the start: a day of raw samples is kept, and thirty of minutes.
abbrev noon : Time
noon = 40 * day + 12 * hour

abbrev two_days : History ℕ
two_days = record {
  metrics =
      at (38 * day)
      ∷ at (38 * day + second)
      ∷ at (40 * day + 11 * hour)
      ∷ at (40 * day + 11 * hour + minute)
      ∷ [];
  rollups = row_at rollup_minute (20 * day) ∷ row_at rollup_five_minute (5 * day) ∷ [];
}

abbrev first_statement : ℕ → Bool
first_statement n = n == 0

rollup_again_example :
    rollup whole whole_aggregates
      (λ _. true)
      default_retention
      noon
      (rollup whole whole_aggregates first_statement default_retention noon two_days).0
    ≡ rollup whole whole_aggregates (λ _. true) default_retention noon two_days
rollup_again_example =
    rollup_again whole whole_aggregates first_statement default_retention noon two_days

abbrev last_hour : Range
last_hour = record { from = 40 * day + 11 * hour; to = 40 * day + 12 * hour }

query_range_spread_example :
    let found = window two_days "" last_hour in
    let n = stride (length found) (clamp_limit (pos 1)) in
    (answer : List (SystemState ℕ)) × (query_range no_summary true two_days "" last_hour (pos 1)
      ≡ rows answer)
    × (length answer ≤ clamp_limit (pos 1))
    × (0 < clamp_limit (pos 1))
    × (clamp_limit (pos 1) ≤ max_range_rows)
    × ((j : ℕ)
        → get_elem? answer j
          ≡ Option.map (restore_top_processes no_summary) (get_elem? found (j * n)))
query_range_spread_example =
    query_range_spread no_summary two_days "" last_hour (pos 1) (omega arith)

raw_tier_answers_example :
    query_range no_summary true
      (prune_tiers first_statement default_retention (noon + minute) two_days).0
      "web-1"
      last_hour
      (pos 100)
    ≡ query_range no_summary true two_days "web-1" last_hour (pos 100)
unfolding resolve_resolution
raw_tier_answers_example =
    raw_tier_answers no_summary default_retention two_days "web-1" last_hour noon (noon + minute)
      first_statement (pos 100) refl (omega arith) (omega arith)

abbrev fifth_day : Range
fifth_day = record { from = 5 * day; to = 5 * day + hour }

old_window_unanswered_example :
    let db' = (prune_tiers (λ _. true) default_retention noon two_days).0 in
    (resolve_resolution fifth_day (24 * hour) noon ≡ rollup_minute)
    × (get_rollups_range true db' rollup_minute "web-1" fifth_day (pos 100) ≡ rows [])
    × (tier_window db' rollup_five_minute "web-1" fifth_day
        ≡ tier_window two_days rollup_five_minute "web-1" fifth_day)
old_window_unanswered_example =
    old_window_unanswered default_retention two_days "web-1" fifth_day noon (pos 100) (omega arith)
      (omega arith) (omega arith) (omega arith) (omega arith)

abbrev archive_name : String → Time → String
archive_name resolution t = resolution

abbrev epoch_rows : Archives ℕ
epoch_rows = record {
  history = record {
    metrics = [];
    rollups =
        row_at rollup_minute (unix_epoch + minute) ∷ row_at rollup_minute (unix_epoch + day) ∷ [];
  };
  files = [];
}

abbrev epoch_key : RollupKey
epoch_key = record { bucket = unix_epoch + minute; resolution = rollup_minute; host_id = "web-1" }

archive_restored_example :
    let t = unix_epoch + hour in
    let s' =
      (archive_tier (λ _. true) (λ _. true) archive_name rollup_minute "/archive" t epoch_rows).0 in
    let s'' = (restore_archive whole true rollup_minute s').0 in
    Option.map (λ r. point_of (epoch_key, r)) (lookup epoch_key s''.history.rollups)
    ≡ Option.map (λ r. point_of (epoch_key, r)) (lookup epoch_key epoch_rows.history.rollups)
unfolding tier_window lookup sort_by
archive_restored_example =
    archive_restored whole rollup_minute (unix_epoch + hour) archive_name "/archive" epoch_rows
      epoch_key refl (omega arith) (refl, (refl, tt))
      ((refl, omega arith), ((refl, omega arith), tt)) (omega arith) (omega arith)

-- So many rows, a minute apart.
unfoldable many_rows : ℕ → Rollups ℕ
many_rows zero = []
many_rows (suc n) = row_at rollup_minute (unix_epoch + n * minute) ∷ many_rows n

abbrev month_later : Range
month_later = up_to (unix_epoch + 30 * day)

abbrev is_old_minute : RollupKey × RollupRow ℕ → Bool
is_old_minute e =
    e.0.resolution == rollup_minute && (lies_in month_later e.0.bucket && is_of_host "" e.0.host_id)

keep_if-many_rows : (n : ℕ) → n ≤ 43_200 → length (keep_if is_old_minute (many_rows n)) ≡ n
unfolding many_rows
keep_if-many_rows zero few = refl
keep_if-many_rows (suc n) few =
    let late : leb (sql_time unix_epoch) (unix_epoch + n * minute) ≡ true = (ground arith) in
    let early : leb (unix_epoch + n * minute) (sql_time (unix_epoch + 30 * day)) ≡ true =
      (ground arith) in
    rw (late, early) (ap suc (keep_if-many_rows n (omega arith)))

length-many_rows :
    (n : ℕ)
    → n ≤ 43_200
    → length
        (tier_window (record { metrics = []; rollups = many_rows n }) rollup_minute "" month_later)
      ≡ n
unfolding tier_window
length-many_rows n few =
    length-sort_by (λ e. e.0.bucket) (keep_if is_old_minute (many_rows n)) ∙ keep_if-many_rows n few

abbrev many : Archives ℕ
many = record { history = record { metrics = []; rollups = many_rows 20_001 }; files = [] }

archive_overflow_lost_example :
    let old = tier_window many.history rollup_minute "" month_later in
    let (s', result) =
      archive_tier
        (λ _. true)
        (λ _. true)
        archive_name
        rollup_minute
        "/archive"
        (unix_epoch + 30 * day)
        many in
    (result ≡ archived max_range_rows)
    × (lookup rollup_minute s'.files ≡ some (map point_of (take max_range_rows old)))
    × (tier_window s'.history rollup_minute "" (up_to (unix_epoch + 30 * day)) ≡ [])
archive_overflow_lost_example =
    archive_overflow_lost rollup_minute (unix_epoch + 30 * day) archive_name "/archive" many refl
      (omega arith) (omega (arith, length-many_rows 20_001 (omega arith)))
