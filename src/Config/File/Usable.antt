-- ===== src/Config/File/Usable.antt =====
-- internal/config/config.go: what a configuration that LoadConfig returns is good for.
use sys_sentient.Auth.User.{TextOps}
use sys_sentient.Models.{FloatOps}
use sys_sentient.Config.Runtime.{known_level}
use sys_sentient.Config.File.{Config, AgentConfig, mode_agent}
use sys_sentient.Config.File.Load.{
  invalid_mode, poll_too_long, poll_too_short, invalid_port, or_next, ConfigError, loaded, Reading,
  was_read, not_found, unreadable, checked, with_origins, normalize_string_list, known_mode,
  validate_agent, validate_storage, validate_limits, validate_config, load_config,
}
use text.Mathlib.Text.{starts_with}
use sys_sentient.Prelude.{
  if◌then◌else◌, Bool-cases, All, ℤ, pos, ltb_ℤ, leb_ℤ, ◌==◌, nat_key, string_key, String, ◌≡◌,
  refl, subst, ◌≢◌, ◌⊎◌, inl, inr, true, false, not, ◌||◌, Option, none, some, List, [], ◌∷◌, arith,
}

abbrev pub IsBetween : ℤ → ℤ → ℤ → Type 0
IsBetween low high z = (leb_ℤ low z ≡ true) × (leb_ℤ z high ≡ true)

abbrev pub IsPositive : ℤ → Type 0
IsPositive z = leb_ℤ (pos 1) z ≡ true

-- What an agent needs to push.
pub record CanPush (text : TextOps) (agent : AgentConfig) : Type 0 where
  pub has_url : text.trim_space agent.server_url ≢ ""
  pub over_http :
      (starts_with agent.server_url "http://" || starts_with agent.server_url "https://") ≡ true
  pub has_key : text.trim_space agent.key ≢ ""
  pub sends : IsPositive agent.batch_size

-- What the parts of the program that are built from a configuration rely on.
pub record IsUsable (text : TextOps) {F : Type 0} (float : FloatOps F) (cfg : Config F)
    : Type 0 where
  pub port_exists : IsBetween (pos 1) (pos 65535) cfg.server.port
  pub no_blank_origin : All (λ origin. origin ≢ "") cfg.server.allowed_origins
  pub poll_in_range : IsBetween (pos 1) (pos 3600) cfg.collector.poll_interval_seconds
  pub mode_exists : known_mode float text cfg.mode ≡ true
  pub agent_can_push : (cfg.mode ≢ mode_agent) ⊎ CanPush text cfg.agent
  pub level_exists : known_level (text.to_lower cfg.logging.level) ≡ true
  pub processes_in_range : IsBetween (pos 1) (pos 200) cfg.collector.top_processes
  pub stored_somewhere : cfg.database.path ≢ ""
  pub raw_kept : IsPositive cfg.database.metrics_retention_hours
  pub minutes_kept : IsPositive cfg.database.minute_rollup_days
  pub tiers_nest : leb_ℤ cfg.database.minute_rollup_days cfg.database.five_minute_rollup_days ≡ true
  pub insights_kept : IsPositive cfg.database.insights_retention_hours
  pub cost_not_negative : float.lt cfg.gemini.max_daily_cost (float.from_uint 0) ≡ false
  pub idle_ends : IsPositive cfg.auth.session_idle_hours
  pub session_ends : IsPositive cfg.auth.session_max_days
  pub logins_possible : IsPositive cfg.auth.login_rate_per_minute

differs : (s t : String) → (s == t) ≡ false → s ≢ t
differs s t h e = let same = (string_key.same_iff s t).1 e in cc

module _ {F : Type 0} (float : FloatOps F) (text : TextOps) where
  normalize-All : (l : List String) → All (λ o. o ≢ "") (normalize_string_list float text l)
  normalize-All [] = tt
  normalize-All (value ∷ l) = elim (Bool-cases (text.trim_space value == "")) [
    | inl blank ↦ rw blank (normalize-All l)
    | inr filled ↦ rw filled (differs (text.trim_space value) "" filled, normalize-All l)
  ]

  checked_loaded :
      (cfg cfg' : Config F) (e : Option ConfigError)
      → checked float text cfg e ≡ loaded cfg'
      → (e ≡ none) × (cfg ≡ cfg')
  checked_loaded cfg cfg' none h = (refl, cc)
  checked_loaded cfg cfg' (some e) h = cc

  accepted :
      (read cfg : Config F)
      → (validate_config float text (with_origins float text read) ≡ none)
        × (with_origins float text read ≡ cfg)
      → (validate_config float text cfg ≡ none) × All (λ o. o ≢ "") cfg.server.allowed_origins
  accepted read cfg (valid, same) =
      subst
        (λ c. (validate_config float text c ≡ none) × All (λ o. o ≢ "") c.server.allowed_origins)
        same (valid, normalize-All read.server.allowed_origins)

  load_config_checked :
      (reading : Reading) (decoded : Option (Config F)) (cfg : Config F)
      → load_config float text reading decoded ≡ loaded cfg
      → (validate_config float text cfg ≡ none) × All (λ o. o ≢ "") cfg.server.allowed_origins
  unfolding load_config
  load_config_checked unreadable decoded cfg h = cc
  load_config_checked was_read none cfg h = cc
  load_config_checked not_found none cfg h = cc
  load_config_checked was_read (some read) cfg h =
      accepted read cfg (checked_loaded (with_origins float text read) cfg _ h)
  load_config_checked not_found (some read) cfg h =
      accepted read cfg (checked_loaded (with_origins float text read) cfg _ h)

  storage_passed :
      (cfg : Config F)
      → validate_storage float text cfg ≡ none
      → (known_level (text.to_lower cfg.logging.level) ≡ true)
        × IsBetween (pos 1) (pos 200) cfg.collector.top_processes
        × (cfg.database.path ≢ "")
        × IsPositive cfg.database.metrics_retention_hours
        × IsPositive cfg.database.minute_rollup_days
        × (leb_ℤ cfg.database.minute_rollup_days cfg.database.five_minute_rollup_days ≡ true)
        × IsPositive cfg.database.insights_retention_hours
  unfolding validate_storage
  storage_passed cfg h = (
    ground arith,
    (ground arith, ground arith),
    differs cfg.database.path "" (ground arith),
    ground arith,
    ground arith,
    ground arith,
    ground arith,
  )

  limits_passed :
      (cfg : Config F)
      → validate_limits float text cfg ≡ none
      → (float.lt cfg.gemini.max_daily_cost (float.from_uint 0) ≡ false)
        × IsPositive cfg.auth.session_idle_hours
        × IsPositive cfg.auth.session_max_days
        × IsPositive cfg.auth.login_rate_per_minute
  unfolding validate_limits
  limits_passed cfg h = (ground arith, ground arith, ground arith, ground arith)

  agent_passed : (agent : AgentConfig) → validate_agent float text agent ≡ none → CanPush text agent
  unfolding validate_agent
  agent_passed agent h = record {
    has_url = differs (text.trim_space agent.server_url) "" (ground arith);
    over_http = ground arith;
    has_key = differs (text.trim_space agent.key) "" (ground arith);
    sends = ground arith;
  }

  or_next_passed :
      (e next : Option ConfigError) → or_next float text e next ≡ none → (e ≡ none) × (next ≡ none)
  or_next_passed none next h = (refl, h)
  or_next_passed (some e) next h = cc

  mode_passed :
      (cfg : Config F)
      → (if cfg.mode == mode_agent then validate_agent float text cfg.agent else none) ≡ none
      → (cfg.mode ≢ mode_agent) ⊎ CanPush text cfg.agent
  mode_passed cfg h = elim (Bool-cases (cfg.mode == mode_agent)) [
    | inl is_agent ↦ inr (agent_passed cfg.agent (rw is_agent at h))
    | inr other ↦ inl (differs cfg.mode mode_agent other)
  ]

  front_passed :
      (cfg : Config F) (rest : Option ConfigError)
      → (if ltb_ℤ cfg.server.port (pos 1) || ltb_ℤ (pos 65535) cfg.server.port
          then some invalid_port
          else if ltb_ℤ cfg.collector.poll_interval_seconds (pos 1)
          then some poll_too_short
          else if ltb_ℤ (pos 3600) cfg.collector.poll_interval_seconds
          then some poll_too_long
          else if not (known_mode float text cfg.mode)
          then some invalid_mode
          else rest)
        ≡ none
      → IsBetween (pos 1) (pos 65535) cfg.server.port
        × IsBetween (pos 1) (pos 3600) cfg.collector.poll_interval_seconds
        × (known_mode float text cfg.mode ≡ true)
        × (rest ≡ none)
  front_passed cfg rest h =
      ((ground arith, ground arith), (ground arith, ground arith), ground arith, ground arith)

  -- A configuration that LoadConfig returns, whatever it was read from, is one that the program can
  -- run with: the port exists, no allowed origin is blank, the poll interval is 1 to 3600 seconds,
  -- the mode is one of the three and an agent has a server to push to, each tier is kept and the
  -- five minute tier for no less time than the minute tier, and the other settings are within their
  -- bounds.
  pub load_config-IsUsable :
      (reading : Reading) (decoded : Option (Config F)) (cfg : Config F)
      → load_config float text reading decoded ≡ loaded cfg
      → IsUsable text float cfg
  unfolding validate_config
  load_config-IsUsable reading decoded cfg h =
      let (valid, origins) = load_config_checked reading decoded cfg h in
      let (port, poll, mode, ran) = front_passed cfg _ valid in
      let (agent, rest) = or_next_passed _ _ ran in
      let (storage, limits) = or_next_passed _ _ rest in
      let (level, processes, path, raw, minutes, nest, insights) = storage_passed cfg storage in
      let (cost, idle, session, login) = limits_passed cfg limits in
      record {
        port_exists = port;
        no_blank_origin = origins;
        poll_in_range = poll;
        mode_exists = mode;
        agent_can_push = mode_passed cfg agent;
        level_exists = level;
        processes_in_range = processes;
        stored_somewhere = path;
        raw_kept = raw;
        minutes_kept = minutes;
        tiers_nest = nest;
        insights_kept = insights;
        cost_not_negative = cost;
        idle_ends = idle;
        session_ends = session;
        logins_possible = login;
      }
