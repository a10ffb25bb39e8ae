-- ===== src/Alerting/Rule.antt =====
-- internal/alerting/rule.go: rules, their validation, and the scalar that a rule reads.
-- A Go string type with named constants is a data type with a constructor for each constant and
-- one for any other text.
use sys_sentient.Models.{FloatOps, Filesystem, SystemState}
use sys_sentient.Prelude.{
  if◌then◌else◌, pos, ltb_ℤ, ◌==◌, nat_key, string_key, Time, Duration, minute, ℕ, ◌*◌, String,
  Bool, true, false, not, Option, none, some, List, [], ◌∷◌,
}

pub data Metric : Type 0 where
  cpu_usage memory_percent swap_percent disk_percent : Metric
  load_avg_1 load_avg_5 load_avg_15 temperature : Metric
  other_metric : String → Metric

pub data Comparator : Type 0 where
  greater_than greater_than_equal less_than less_than_equal : Comparator
  other_comparator : String → Comparator

pub data Severity : Type 0 where
  warning critical : Severity
  other_severity : String → Severity

pub data AlertState : Type 0 where
  pending firing resolved : AlertState

pub record Rule (F : Type 0) : Type 0 where
  pub id : String
  pub name : String
  pub metric : Metric
  pub op : Comparator
  pub threshold : F
  pub for : Duration
  pub severity : Severity
  pub enabled : Bool

pub record Alert (F : Type 0) : Type 0 where
  pub rule_id : String
  pub rule_name : String
  pub metric : Metric
  pub state : AlertState
  pub severity : Severity
  pub value : F
  pub threshold : F
  pub host_id : String
  pub hostname : String
  pub started_at : Time
  pub fired_at : Time
  pub resolved_at : Time
  pub acknowledged : Bool
  pub clear_since : Time

pub data RuleError : Type 0 where
  empty_id empty_name unsupported_metric unsupported_comparator : RuleError
  unsupported_severity negative_for : RuleError

-- The loop over `SupportedMetrics`.
abbrev pub known_metric : Metric → Bool
known_metric (other_metric s) = false
known_metric _ = true

abbrev pub known_comparator : Comparator → Bool
known_comparator (other_comparator s) = false
known_comparator _ = true

abbrev pub known_severity : Severity → Bool
known_severity (other_severity s) = false
known_severity _ = true

-- Whether a text is empty under strings.TrimSpace, a function of Go's library.
module _ {F : Type 0} (is_blank : String → Bool) where
  unfoldable pub validate : Rule F → Option RuleError
  validate r =
      if is_blank r.id
      then some empty_id
      else if is_blank r.name
      then some empty_name
      else if not (known_metric r.metric)
      then some unsupported_metric
      else if not (known_comparator r.op)
      then some unsupported_comparator
      else if not (known_severity r.severity)
      then some unsupported_severity
      else if ltb_ℤ r.for (pos 0)
      then some negative_for
      else none

module _ {F : Type 0} (ops : FloatOps F) where
  unfoldable pub compare_by : Comparator → F → F → Bool
  compare_by greater_than value threshold = ops.lt threshold value
  compare_by greater_than_equal value threshold = ops.le threshold value
  compare_by less_than value threshold = ops.lt value threshold
  compare_by less_than_equal value threshold = ops.le value threshold
  compare_by (other_comparator s) value threshold = false

  unfoldable pub matches : Rule F → F → Bool
  unfolding compare_by
  matches r value = compare_by r.op value r.threshold

  -- The closure `pct`: `none` stands for `available == false`.
  unfoldable pub pct : ℕ → ℕ → Option F
  pct used total =
      if total == 0
      then none
      else some (ops.mul (ops.div (ops.from_uint used) (ops.from_uint total)) (ops.from_uint 100))

  -- The loop over the filesystems, with `worst` and `found` as its variables.
  unfoldable pub worst_disk : List (Filesystem F) → F → Bool → F × Bool
  worst_disk [] worst found = (worst, found)
  worst_disk (fs ∷ rest) worst found =
      worst_disk rest
        (if fs.total_bytes == 0
          then worst
          else if ops.lt worst fs.used_percent
          then fs.used_percent
          else worst)
        (if fs.total_bytes == 0 then found else true)

  unfoldable pub disk_value : List (Filesystem F) → Option F
  unfolding worst_disk
  disk_value fss =
      let (worst, found) = worst_disk fss (ops.from_uint 0) false in
      if found then some worst else none

  unfoldable pub metric_value : SystemState F → Metric → Option F
  unfolding pct disk_value
  metric_value s cpu_usage = some s.cpu_usage
  metric_value s memory_percent = pct s.memory_used s.memory_total
  metric_value s swap_percent = pct s.swap_used s.swap_total
  metric_value s disk_percent = disk_value s.filesystems
  metric_value s load_avg_1 = some s.load_avg_1
  metric_value s load_avg_5 = some s.load_avg_5
  metric_value s load_avg_15 = some s.load_avg_15
  metric_value s temperature =
      if ops.lt (ops.from_uint 0) s.temperature then some s.temperature else none
  metric_value s (other_metric m) = none

  -- A default rule: enabled, `>` its threshold.
  abbrev default_rule : String → String → Metric → ℕ → ℕ → Severity → Rule F
  default_rule id name metric threshold for severity = record {
    id = id;
    name = name;
    metric = metric;
    op = greater_than;
    threshold = ops.from_uint threshold;
    for = pos for;
    severity = severity;
    enabled = true;
  }

  unfoldable pub default_rules : List (Rule F)
  default_rules =
      default_rule "cpu-high" "CPU sustained high" cpu_usage 90 (5 * minute) warning
      ∷ default_rule "memory-high" "Memory nearly exhausted" memory_percent 90 (2 * minute) critical
      ∷ default_rule "swap-high" "Swap heavily used" swap_percent 75 (5 * minute) warning
      ∷ default_rule "disk-full" "Filesystem nearly full" disk_percent 90 minute critical
      ∷ default_rule "load-high" "Load average high" load_avg_5 8 (5 * minute) warning
      ∷ default_rule "temp-high" "CPU temperature high" temperature 90 (2 * minute) warning
      ∷ []
