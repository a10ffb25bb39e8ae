-- ===== src/Server/Metrics.antt =====
-- internal/server/metrics_range.go and handleMetrics of internal/server/server.go: the samples or averages
-- that the dashboard asks for. An empty parameter is a missing one. Go's parsing of timestamps and numbers
-- and `strings.Replace(raw, " ", "+", 1)` are parameters; an error's text is not modelled. A retention is
-- a positive number of hours, as the settings are validated.
pub mod Within
pub mod Truthful
use sys_sentient.Prelude.{
  ltb, if◌then◌else◌, length, ℤ, pos, negsuc, pos_part, ◌==◌, nat_key, string_key, Time, after,
  before, hour, ℕ, ◌-◌, ◌*◌, String, Bool, ◌&&◌, ◌||◌, Option, none, some, List, [], arith,
}
use sys_sentient.Models.{SystemState, Process}
use sys_sentient.Config.Runtime.{Runtime}
use sys_sentient.Storage.Samples.{is_empty, get_recent_for_host}
use sys_sentient.Storage.Rollup.{History, RollupPoint, rollup_minute, rollup_five_minute}
use sys_sentient.Storage.TimeRange.{
  Range, Rows, rows, invalid_range, query_failed, resolution_raw, resolution_auto,
  resolve_resolution, query_range, get_rollups_range,
}

abbrev pub default_metrics_limit : ℕ
default_metrics_limit = 50

abbrev pub max_metrics_limit : ℕ
max_metrics_limit = 5000

-- `?host=&from=&to=&resolution=&limit=`.
pub record MetricsParams : Type 0 where
  pub host : String
  pub from : String
  pub to : String
  pub resolution : String
  pub limit : String

-- What package time, strconv and strings make of a parameter.
pub record ParamOps : Type 0 where
  pub parse_time : String → Option Time
  pub space_to_plus : String → String
  pub atoi : String → Option ℤ

-- There is a range if the query is bounded.
pub record RangeQuery : Type 0 where
  pub host_id : String
  pub range : Option Range
  pub resolution : String
  pub limit : ℕ

unfoldable pub parse_timestamp : ParamOps → String → Option Time
parse_timestamp text raw = elim (text.parse_time raw) [
  | some t ↦ some t
  | none ↦ if text.space_to_plus raw == raw then none else text.parse_time (text.space_to_plus raw)
]

abbrev pub ordered_range : Time → Option Time → Option (Option Range)
ordered_range from none = none
ordered_range from (some to) =
    if before to from then none else some (some (record { from = from; to = to }))

-- The window of a query that has one, or none for an error.
unfoldable pub parse_window : ParamOps → MetricsParams → Time → Option (Option Range)
unfolding parse_timestamp
parse_window text params now =
    if params.from == "" && params.to == ""
    then some none
    else if params.from == ""
    then none
    else elim (parse_timestamp text params.from) [
      | none ↦ none
      | some from ↦
          ordered_range from (if params.to == "" then some now else parse_timestamp text params.to)
    ]

abbrev pub limit_in_bounds : Option ℤ → Option ℕ
limit_in_bounds none = none
limit_in_bounds (some (negsuc n)) = none
limit_in_bounds (some (pos n)) =
    if n == 0 then none else if ltb max_metrics_limit n then none else some n

abbrev pub parse_limit : ParamOps → String → Option ℕ
parse_limit text raw = if raw == "" then some 0 else limit_in_bounds (text.atoi raw)

abbrev pub auto_resolution : ℕ → Time → Option Range → String
auto_resolution raw_retention now none = resolution_raw
auto_resolution raw_retention now (some r) = resolve_resolution r raw_retention now

unfoldable pub parse_resolution : ℕ → Time → Option Range → String → Option String
parse_resolution raw_retention now range asked =
    if asked == "" || asked == resolution_auto
    then some (auto_resolution raw_retention now range)
    else if asked == resolution_raw || (asked == rollup_minute || asked == rollup_five_minute)
    then some asked
    else none

-- The query, or none for an error.
unfoldable pub parse_range_query : ParamOps → MetricsParams → ℕ → Time → Option RangeQuery
unfolding parse_window parse_resolution
parse_range_query text params raw_retention now = elim (parse_window text params now) [
  | none ↦ none
  | some range ↦ elim (parse_limit text params.limit) [
    | none ↦ none
    | some limit ↦ elim (parse_resolution raw_retention now range params.resolution) [
      | none ↦ none
      | some resolution ↦
          some (record {
            host_id = params.host;
            range = range;
            resolution = resolution;
            limit = limit;
          })
    ]
  ]
]

abbrev pub raw_retention_of : Option Runtime → ℕ
raw_retention_of none = 24 * hour
raw_retention_of (some runtime) = pos_part runtime.retention_hours * hour

pub data Metrics (F : Type 0) : Type 0 where
  samples : List (SystemState F) → Metrics F
  buckets : List (RollupPoint F) → Metrics F

pub record RangeResponse (F : Type 0) : Type 0 where
  pub resolution : String
  pub from : Time
  pub to : Time
  pub count : ℕ
  pub metrics : Metrics F

pub data MetricsAnswer (F : Type 0) : Type 0 where
  recent : List (SystemState F) → MetricsAnswer F
  ranged : RangeResponse F → MetricsAnswer F
  metrics_failure : ℕ → MetricsAnswer F

-- The part of a window that the raw tier can still answer.
abbrev pub covered_by_raw : ℕ → Time → Range → Option Range
covered_by_raw raw_retention now r =
    let raw_start = now - raw_retention in
    if after r.to raw_start
    then some (if before r.from raw_start then record r { from = raw_start } else r)
    else none

module _ {F : Type 0} where
  abbrev pub sampled_response : Range → List (SystemState F) → RangeResponse F
  sampled_response r found = record {
    resolution = resolution_raw;
    from = r.from;
    to = r.to;
    count = length found;
    metrics = samples found;
  }

  abbrev pub bucket_response : String → Range → List (RollupPoint F) → RangeResponse F
  bucket_response resolution r points = record {
    resolution = resolution;
    from = r.from;
    to = r.to;
    count = length points;
    metrics = buckets points;
  }

  -- What is answered where the tier has no row: samples, if there are any.
  unfoldable pub raw_instead :
      String → Range → Option Range → Rows (SystemState F) → RangeResponse F
  raw_instead resolution r none found = bucket_response resolution r []
  raw_instead resolution r (some covered) (rows found) =
      if is_empty found then bucket_response resolution r [] else sampled_response covered found
  raw_instead resolution r (some covered) invalid_range = bucket_response resolution r []
  raw_instead resolution r (some covered) query_failed = bucket_response resolution r []

  abbrev pub covered_rows : (Range → Rows (SystemState F)) → Option Range → Rows (SystemState F)
  covered_rows query none = rows []
  covered_rows query (some covered) = query covered

  -- The answer of a bounded query.
  unfoldable pub answer_range :
      (List (Process F) → String)
      → (ℕ → Bool)
      → History F
      → RangeQuery
      → Range
      → ℕ
      → Time
      → MetricsAnswer F
  unfolding raw_instead
  answer_range summary up db q r raw_retention now =
      if q.resolution == resolution_raw
      then elim (query_range summary (up 0) db q.host_id r (pos q.limit)) [
        | rows found ↦ ranged (sampled_response r found)
        | invalid_range ↦ metrics_failure 500
        | query_failed ↦ metrics_failure 500
      ]
      else elim (get_rollups_range (up 0) db q.resolution q.host_id r (pos q.limit)) [
        | rows points ↦
            let covered = covered_by_raw raw_retention now r in
            if is_empty points
            then ranged (
                raw_instead q.resolution r covered (
                  covered_rows (λ c. query_range summary (up 1) db q.host_id c (pos q.limit))
                    covered))
            else ranged (bucket_response q.resolution r points)
        | invalid_range ↦ metrics_failure 500
        | query_failed ↦ metrics_failure 500
      ]

  unfoldable pub answer_recent :
      (List (Process F) → String) → (ℕ → Bool) → History F → RangeQuery → MetricsAnswer F
  answer_recent summary up db q =
      let limit = if q.limit == 0 then default_metrics_limit else q.limit in
      elim (get_recent_for_host (up 0) summary db.metrics q.host_id (pos limit)) [
        | none ↦ metrics_failure 500
        | some found ↦ recent found
      ]

  unfoldable pub handle_metrics :
      ParamOps
      → (List (Process F) → String)
      → (ℕ → Bool)
      → Option Runtime
      → History F
      → MetricsParams
      → Time
      → MetricsAnswer F
  unfolding answer_range answer_recent
  handle_metrics text summary up runtime db params now =
      let raw_retention = raw_retention_of runtime in
      elim (parse_range_query text params raw_retention now) [
        | none ↦ metrics_failure 400
        | some q ↦ elim q.range [
          | none ↦ answer_recent summary up db q
          | some r ↦ answer_range summary up db q r raw_retention now
        ]
      ]
