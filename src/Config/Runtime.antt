-- ===== src/Config/Runtime.antt =====
-- internal/config/runtime.go: the settings that change without a restart. The lock is held by every
-- method, so a method is one step. A callback is its notice, in the order in which they run.
pub mod Live
use sys_sentient.Prelude.{
  if◌then◌else◌, ℤ, pos, negsuc, ltb_ℤ, sub_ℕ, ◌==◌, string_key, Duration, second, ◌+◌, ◌*◌, ◌/◌,
  String, Bool, true, false, not, ◌&&◌, ◌||◌, Option, none, some, List, [], ◌∷◌, ◌++◌, nat_key,
}

pub record Runtime : Type 0 where
  pub poll_interval : Duration
  pub retention_hours : ℤ
  pub minute_days : ℤ
  pub five_minute_days : ℤ
  pub log_level : String
  pub on_poll_change : Bool  -- whether the callback is registered
  pub on_log_level_change : Bool

pub record RuntimeValues : Type 0 where
  pub poll_interval_seconds : ℤ
  pub metrics_retention_hours : ℤ
  pub minute_rollup_days : ℤ
  pub five_minute_rollup_days : ℤ
  pub log_level : String

pub record RuntimeUpdate : Type 0 where
  pub poll_interval_seconds : Option ℤ
  pub metrics_retention_hours : Option ℤ
  pub minute_rollup_days : Option ℤ
  pub five_minute_rollup_days : Option ℤ
  pub log_level : Option String

pub data RuntimeError : Type 0 where
  poll_out_of_range retention_too_short minute_too_short five_minute_too_short : RuntimeError
  unknown_level : RuntimeError

pub data Notice : Type 0 where
  poll_changed : Duration → Notice
  level_changed : String → Notice

pub data Applied : Type 0 where
  applied : RuntimeValues → Applied
  refused : RuntimeError → Applied

-- `int(d / time.Second)`, cut towards zero.
abbrev pub in_seconds : Duration → ℤ
in_seconds (pos n) = pos (n / second)
in_seconds (negsuc n) = sub_ℕ 0 ((n + 1) / second)

-- `time.Duration(n) * time.Second`.
abbrev pub of_seconds : ℤ → Duration
of_seconds (pos n) = pos (n * second)
of_seconds (negsuc n) = sub_ℕ 0 ((n + 1) * second)

abbrev pub same_ℤ : ℤ → ℤ → Bool
same_ℤ (pos m) (pos n) = m == n
same_ℤ (negsuc m) (negsuc n) = m == n
same_ℤ _ _ = false

unfoldable pub new_runtime : ℤ → ℤ → ℤ → ℤ → String → Runtime
new_runtime poll hours minute_days five_minute_days level = record {
  poll_interval = of_seconds poll;
  retention_hours = hours;
  minute_days = minute_days;
  five_minute_days = five_minute_days;
  log_level = level;
  on_poll_change = false;
  on_log_level_change = false;
}

unfoldable pub on_poll_interval_change : Runtime → Runtime
on_poll_interval_change r = record r { on_poll_change = true }

unfoldable pub on_log_level_changes : Runtime → Runtime
on_log_level_changes r = record r { on_log_level_change = true }

abbrev pub values : Runtime → RuntimeValues
values r = record {
  poll_interval_seconds = in_seconds r.poll_interval;
  metrics_retention_hours = r.retention_hours;
  minute_rollup_days = r.minute_days;
  five_minute_rollup_days = r.five_minute_days;
  log_level = r.log_level;
}

abbrev pub or_else : {A : Type 0} → Option A → A → A
or_else none old = old
or_else (some new) old = new

-- The values that an update asks for: a field that is absent keeps its value.
abbrev pub merged : RuntimeValues → RuntimeUpdate → RuntimeValues
merged v u = record {
  poll_interval_seconds = or_else u.poll_interval_seconds v.poll_interval_seconds;
  metrics_retention_hours = or_else u.metrics_retention_hours v.metrics_retention_hours;
  minute_rollup_days = or_else u.minute_rollup_days v.minute_rollup_days;
  five_minute_rollup_days = or_else u.five_minute_rollup_days v.five_minute_rollup_days;
  log_level = or_else u.log_level v.log_level;
}

abbrev pub known_level : String → Bool
known_level level = level == "debug" || (level == "info" || (level == "warn" || level == "error"))

unfoldable pub validate_runtime : RuntimeValues → Option RuntimeError
validate_runtime v =
    if ltb_ℤ v.poll_interval_seconds (pos 1) || ltb_ℤ (pos 3600) v.poll_interval_seconds
    then some poll_out_of_range
    else if ltb_ℤ v.metrics_retention_hours (pos 1)
    then some retention_too_short
    else if ltb_ℤ v.minute_rollup_days (pos 1)
    then some minute_too_short
    else if ltb_ℤ v.five_minute_rollup_days v.minute_rollup_days
    then some five_minute_too_short
    else if known_level v.log_level
    then none
    else some unknown_level

-- The settings after an update that is valid.
abbrev pub set_values : Runtime → RuntimeValues → Runtime
set_values r next = record r {
  poll_interval = of_seconds next.poll_interval_seconds;
  retention_hours = next.metrics_retention_hours;
  minute_days = next.minute_rollup_days;
  five_minute_days = next.five_minute_rollup_days;
  log_level = next.log_level;
}

abbrev pub poll_notice : Runtime → RuntimeValues → List Notice
poll_notice r next =
    if not (same_ℤ next.poll_interval_seconds (in_seconds r.poll_interval)) && r.on_poll_change
    then poll_changed (of_seconds next.poll_interval_seconds) ∷ []
    else []

abbrev pub level_notice : Runtime → RuntimeValues → List Notice
level_notice r next =
    if not (next.log_level == r.log_level) && r.on_log_level_change
    then level_changed next.log_level ∷ []
    else []

-- The settings, the notices, and the answer.
unfoldable pub apply_update : Runtime → RuntimeUpdate → Runtime × List Notice × Applied
unfolding validate_runtime
apply_update r u =
    let next = merged (values r) u in
    elim (validate_runtime next) [
      | some e ↦ (r, [], refused e)
      | none ↦ (set_values r next, poll_notice r next ++ level_notice r next, applied next)
    ]
