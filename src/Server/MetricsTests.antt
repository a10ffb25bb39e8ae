-- ===== src/Server/MetricsTests.antt =====
-- internal/server/metrics_range.go and handleMetrics: a young install, and the theorem at it.
use sys_sentient.Prelude.{
  ◌-◌, if◌then◌else◌, ◌==◌, nat_key, string_key, Time, second, hour, ℕ, ◌+◌, ◌*◌, String, ◌≡◌, refl,
  true, none, some, List, [], ◌∷◌, sort_by,
}
use sys_sentient.Storage.TimeRange.{resolve_resolution, get_rollups_range, clamp_limit, query_range}
use sys_sentient.Server.Metrics.{parse_range_query}
use sys_sentient.Models.{SystemState, Process, blank_sample}
use sys_sentient.Storage.Rollup.{History}
use sys_sentient.Storage.TimeRange.{Range, resolution_raw}
use sys_sentient.Server.Metrics.{
  MetricsParams, ParamOps, RangeQuery, samples, RangeResponse, ranged, handle_metrics,
}
use sys_sentient.Server.Metrics.Truthful.{IsTruthful, handle_metrics-IsTruthful}

abbrev day : ℕ
day = 24 * hour

-- One timestamp is all that this reads.
abbrev one_time : ParamOps
one_time = record {
  parse_time = λ raw. if raw == "day 39 +0" then some (39 * day) else none;
  space_to_plus = λ raw. if raw == "day 39  0" then "day 39 +0" else raw;
  atoi = λ raw. none;
}

abbrev at : Time → SystemState ℕ
at t = record (blank_sample "web-1") { timestamp = t }

-- Nothing has been rolled up yet.
abbrev young : History ℕ
young = record { metrics = at (40 * day) ∷ at (40 * day + second) ∷ []; rollups = [] }

-- The plus sign has become a space.
abbrev since_day_39 : MetricsParams
since_day_39 = record { host = "web-1"; from = "day 39  0"; to = ""; resolution = ""; limit = "" }

abbrev stood_in : RangeResponse ℕ
stood_in = record {
  resolution = resolution_raw;
  from = 39 * day + 12 * hour;
  to = 40 * day + 12 * hour;
  count = 2;
  metrics = samples (at (40 * day) ∷ at (40 * day + second) ∷ []);
}

abbrev no_summary : List (Process ℕ) → String
no_summary ps = ""

young_answer :
    handle_metrics one_time no_summary (λ _. true) none young since_day_39 (40 * day + 12 * hour)
    ≡ ranged stood_in
unfolding handle_metrics parse_range_query resolve_resolution get_rollups_range clamp_limit sort_by
    query_range
young_answer = refl

handle_metrics-IsTruthful_example :
    (q : RangeQuery) × (r : Range) × (parse_range_query one_time since_day_39
        (24 * hour)
        (40 * day + 12 * hour)
      ≡ some q)
    × (q.range ≡ some r)
    × IsTruthful (40 * day + 12 * hour - 24 * hour) q.resolution q.host_id r stood_in
handle_metrics-IsTruthful_example =
    handle_metrics-IsTruthful one_time no_summary (λ _. true) none young since_day_39
      (40 * day + 12 * hour) stood_in young_answer
