-- ===== src/Config/File/Load.antt =====
-- internal/config/config.go: Validate and LoadConfig. What viper reads, a file, the environment and
-- the defaults together, is a parameter. TrimSpace and ToLower are those of `TextOps`.
use sys_sentient.Auth.User.{TextOps}
use sys_sentient.Config.File.{Config, AgentConfig, mode_all_in_one, mode_server, mode_agent}
use sys_sentient.Config.Runtime.{Runtime, known_level, new_runtime}
use sys_sentient.Models.{FloatOps}
use text.Mathlib.Text.{starts_with}
use sys_sentient.Prelude.{
  if◌then◌else◌, pos, ltb_ℤ, ◌==◌, nat_key, string_key, String, Bool, not, ◌&&◌, ◌||◌, Option, none,
  some, List, [], ◌∷◌,
}

pub data ConfigError : Type 0 where
  invalid_port poll_too_short poll_too_long invalid_mode agent_without_url agent_url_scheme :
      ConfigError
  agent_without_key batch_too_small invalid_log_level invalid_log_format : ConfigError
  too_few_processes too_many_processes no_database_path raw_hours_too_few minute_days_too_few :
      ConfigError
  tiers_crossed insight_hours_too_few negative_cost idle_too_short session_too_short : ConfigError
  login_rate_too_low : ConfigError

-- What comes of reading the file: it was read, there is none, or it cannot be read.
pub data Reading : Type 0 where
  was_read not_found unreadable : Reading

pub data Loaded (F : Type 0) : Type 0 where
  loaded : Config F → Loaded F
  read_failed decode_failed : Loaded F
  rejected : ConfigError → Loaded F

-- The settings that a Runtime starts from.
abbrev pub runtime_of : {F : Type 0} → Config F → Runtime
runtime_of cfg =
    new_runtime cfg.collector.poll_interval_seconds cfg.database.metrics_retention_hours
      cfg.database.minute_rollup_days cfg.database.five_minute_rollup_days cfg.logging.level

module _ {F : Type 0} (float : FloatOps F) (text : TextOps) where
  abbrev pub known_mode : String → Bool
  known_mode mode = mode == mode_all_in_one || mode == mode_server || mode == mode_agent

  abbrev pub known_format : String → Bool
  known_format format = format == "text" || format == "json"

  -- The checks that are made of an agent only.
  unfoldable pub validate_agent : AgentConfig → Option ConfigError
  validate_agent agent =
      if text.trim_space agent.server_url == ""
      then some agent_without_url
      else if not (starts_with agent.server_url "http://")
          && not (starts_with agent.server_url "https://")
      then some agent_url_scheme
      else if text.trim_space agent.key == ""
      then some agent_without_key
      else if ltb_ℤ agent.batch_size (pos 1)
      then some batch_too_small
      else none

  -- The checks of the logger's, the collector's and the database's settings.
  unfoldable pub validate_storage : Config F → Option ConfigError
  validate_storage cfg =
      if not (known_level (text.to_lower cfg.logging.level))
      then some invalid_log_level
      else if not (known_format (text.to_lower cfg.logging.format))
      then some invalid_log_format
      else if ltb_ℤ cfg.collector.top_processes (pos 1)
      then some too_few_processes
      else if ltb_ℤ (pos 200) cfg.collector.top_processes
      then some too_many_processes
      else if cfg.database.path == ""
      then some no_database_path
      else if ltb_ℤ cfg.database.metrics_retention_hours (pos 1)
      then some raw_hours_too_few
      else if ltb_ℤ cfg.database.minute_rollup_days (pos 1)
      then some minute_days_too_few
      else if ltb_ℤ cfg.database.five_minute_rollup_days cfg.database.minute_rollup_days
      then some tiers_crossed
      else if ltb_ℤ cfg.database.insights_retention_hours (pos 1)
      then some insight_hours_too_few
      else none

  -- The checks of the budget and of the sessions.
  unfoldable pub validate_limits : Config F → Option ConfigError
  validate_limits cfg =
      if float.lt cfg.gemini.max_daily_cost (float.from_uint 0)
      then some negative_cost
      else if ltb_ℤ cfg.auth.session_idle_hours (pos 1)
      then some idle_too_short
      else if ltb_ℤ cfg.auth.session_max_days (pos 1)
      then some session_too_short
      else if ltb_ℤ cfg.auth.login_rate_per_minute (pos 1)
      then some login_rate_too_low
      else none

  -- `first`, and where it finds nothing, `next`.
  abbrev pub or_next : Option ConfigError → Option ConfigError → Option ConfigError
  or_next (some e) next = some e
  or_next none next = next

  unfoldable pub validate_config : Config F → Option ConfigError
  unfolding validate_agent validate_storage validate_limits
  validate_config cfg =
      if ltb_ℤ cfg.server.port (pos 1) || ltb_ℤ (pos 65535) cfg.server.port
      then some invalid_port
      else if ltb_ℤ cfg.collector.poll_interval_seconds (pos 1)
      then some poll_too_short
      else if ltb_ℤ (pos 3600) cfg.collector.poll_interval_seconds
      then some poll_too_long
      else if not (known_mode cfg.mode)
      then some invalid_mode
      else or_next (if cfg.mode == mode_agent then validate_agent cfg.agent else none)
          (or_next (validate_storage cfg) (validate_limits cfg))

  abbrev pub normalize_string_list : List String → List String
  normalize_string_list [] = []
  normalize_string_list (value ∷ values) =
      if text.trim_space value == ""
      then normalize_string_list values
      else text.trim_space value ∷ normalize_string_list values

  abbrev pub with_origins : Config F → Config F
  with_origins cfg = record cfg {
    server = record (cfg.server) {
      allowed_origins = normalize_string_list cfg.server.allowed_origins;
    };
  }

  abbrev pub checked : Config F → Option ConfigError → Loaded F
  checked cfg none = loaded cfg
  checked cfg (some e) = rejected e

  -- `reading` is what ReadInConfig answers, and `decoded` is what Unmarshal makes of it.
  unfoldable pub load_config : Reading → Option (Config F) → Loaded F
  unfolding validate_config
  load_config unreadable decoded = read_failed
  load_config _ none = decode_failed
  load_config _ (some cfg) = checked (with_origins cfg) (validate_config (with_origins cfg))
