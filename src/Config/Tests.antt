-- ===== src/Config/Tests.antt =====
-- internal/config/runtime.go: the theorems at the default settings.
use sys_sentient.Config.Runtime.{Runtime, RuntimeUpdate, validate_runtime}
use sys_sentient.Config.Runtime.Live.{IsRuntime, run_updates, run_updates_heard, hears}
use sys_sentient.Prelude.{
  pos, nat_key, string_key, second, ◌*◌, ◌≡◌, refl, true, none, some, [], ◌∷◌,
}

abbrev settings : Runtime
settings = record {
  poll_interval = pos (2 * second);
  retention_hours = pos 24;
  minute_days = pos 30;
  five_minute_days = pos 365;
  log_level = "info";
  on_poll_change = true;
  on_log_level_change = true;
}

settings-IsRuntime : IsRuntime settings
unfolding validate_runtime
settings-IsRuntime = record { whole = refl; accepted = refl }

abbrev slower : RuntimeUpdate
slower = record {
  poll_interval_seconds = some (pos 30);
  metrics_retention_hours = none;
  minute_rollup_days = none;
  five_minute_rollup_days = none;
  log_level = some "debug";
}

-- Each value is allowed alone, and the two contradict each other.
abbrev contradictory : RuntimeUpdate
contradictory = record slower { minute_rollup_days = some (pos 400) }

run_updates_heard_example :
    (hears (pos (2 * second), "info") (run_updates settings (slower ∷ contradictory ∷ [])).1 ≡ (
      (run_updates settings (slower ∷ contradictory ∷ [])).0.poll_interval,
      (run_updates settings (slower ∷ contradictory ∷ [])).0.log_level,
    ))
    × IsRuntime (run_updates settings (slower ∷ contradictory ∷ [])).0
run_updates_heard_example =
    run_updates_heard settings (slower ∷ contradictory ∷ []) refl refl settings-IsRuntime
