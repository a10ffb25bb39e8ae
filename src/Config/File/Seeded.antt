-- ===== src/Config/File/Seeded.antt =====
-- internal/config: the Runtime that is made from a configuration.
use sys_sentient.Auth.User.{TextOps}
use sys_sentient.Models.{FloatOps}
use sys_sentient.Config.Runtime.{
  RuntimeError, Runtime, RuntimeValues, RuntimeUpdate, applied, refused, unknown_level, known_level,
  values, merged, validate_runtime, apply_update, new_runtime,
}
use sys_sentient.Config.Runtime.Live.{apply_applied, apply_refused}
use sys_sentient.Config.File.{Config}
use sys_sentient.Config.File.Load.{loaded, Reading, load_config, runtime_of}
use sys_sentient.Prelude.{
  if◌then◌else◌, Bool-cases, ℤ, pos, nat_key, string_key, ◌≡◌, refl, ap, ◌∙◌, inl, inr, Option,
  none, some, arith,
}
use sys_sentient.Config.File.Usable.{IsBetween, IsUsable, load_config-IsUsable}

-- A change of the poll interval and of nothing else.
abbrev pub poll_update : ℤ → RuntimeUpdate
poll_update seconds = record {
  poll_interval_seconds = some seconds;
  metrics_retention_hours = none;
  minute_rollup_days = none;
  five_minute_rollup_days = none;
  log_level = none;
}

module _ {F : Type 0} where
  abbrev pub seeded_values : (cfg : Config F) (seconds : ℤ) → RuntimeValues
  seeded_values cfg seconds = record {
    poll_interval_seconds = seconds;
    metrics_retention_hours = cfg.database.metrics_retention_hours;
    minute_rollup_days = cfg.database.minute_rollup_days;
    five_minute_rollup_days = cfg.database.five_minute_rollup_days;
    log_level = cfg.logging.level;
  }

module _ {F : Type 0} (float : FloatOps F) (text : TextOps) where
  seeded_valid :
      (cfg : Config F) (seconds : ℤ)
      → IsUsable text float cfg
      → IsBetween (pos 1) (pos 3600) seconds
      → validate_runtime (seeded_values cfg seconds)
        ≡ (if known_level cfg.logging.level then none else some unknown_level)
  unfolding validate_runtime
  seeded_valid cfg seconds u h = ground (arith, u.raw_kept, u.minutes_kept, u.tiers_nest)

  answer-apply_update :
      (r : Runtime) (u : RuntimeUpdate) (e : Option RuntimeError)
      → validate_runtime (merged (values r) u) ≡ e
      → (apply_update r u).2
        ≡ elim e [ none ↦ applied (merged (values r) u) | some why ↦ refused why ]
  answer-apply_update r u none h = ap (λ done. done.2) (apply_applied r u h)
  answer-apply_update r u (some why) h = ap (λ done. done.2) (apply_refused r u why h)

  -- In the Runtime that is made from a configuration that LoadConfig returned, a change of the poll
  -- interval to a value within its bounds, and of nothing else, is applied exactly if the
  -- configuration names its log level in lower case. In any other case of letters, which LoadConfig
  -- accepts, it is refused for the log level.
  pub apply_update-runtime_of :
      (reading : Reading) (decoded : Option (Config F)) (cfg : Config F) (seconds : ℤ)
      → load_config float text reading decoded ≡ loaded cfg
      → IsBetween (pos 1) (pos 3600) seconds
      → (apply_update (runtime_of cfg) (poll_update seconds)).2 ≡ (
          if known_level cfg.logging.level
          then applied (seeded_values cfg seconds)
          else refused unknown_level)
  unfolding new_runtime
  apply_update-runtime_of reading decoded cfg seconds h b =
      let valid =
        seeded_valid cfg seconds (load_config-IsUsable float text reading decoded cfg h) b in
      answer-apply_update (runtime_of cfg) (poll_update seconds) _ valid
      ∙ elim (Bool-cases (known_level cfg.logging.level)) [
        | inl lower ↦ rw lower refl
        | inr other ↦ rw other refl
      ]
