-- ===== src/Config/File/Tests.antt =====
-- internal/config/config.go: the defaults, an agent's file, and a file that shouts, loaded.
use sys_sentient.Auth.User.{TextOps}
use sys_sentient.Models.{whole}
use sys_sentient.Config.Runtime.{apply_update, refused, unknown_level}
use sys_sentient.Config.File.{Config, default_config, mode_agent}
use sys_sentient.Config.File.Load.{
  load_config, loaded, rejected, was_read, not_found, runtime_of, agent_without_key, tiers_crossed,
  validate_config, validate_agent, validate_storage, validate_limits,
}
use sys_sentient.Config.File.Seeded.{poll_update, apply_update-runtime_of}
use sys_sentient.Prelude.{
  if◌then◌else◌, pos, ◌==◌, nat_key, string_key, ℕ, ◌≡◌, refl, false, none, some,
}

abbrev ascii : TextOps
ascii = record {
  trim_space = λ s. if s == "  " then "" else s;
  to_lower = λ s. if s == "INFO" then "info" else s;
  byte_length = λ s. 20;
  has_space = λ s. false;
  cut_at = λ s. none;
  has_at = λ s. false;
  rune_count = λ s. 20;
  equal_fold = λ a b. a == b;
}

abbrev defaults : Config ℕ
defaults = default_config 1

abbrev agent_file : Config ℕ
agent_file = record defaults {
  mode = mode_agent;
  agent = record (defaults.agent) { server_url = "https://monitor.example.org"; key = "k" };
}

abbrev shouting : Config ℕ
shouting = record defaults { logging = record (defaults.logging) { level = "INFO" } }

defaults_load : load_config whole ascii not_found (some defaults) ≡ loaded defaults
unfolding load_config validate_config validate_agent validate_storage validate_limits
defaults_load = refl

agent_loads : load_config whole ascii was_read (some agent_file) ≡ loaded agent_file
unfolding load_config validate_config validate_agent validate_storage validate_limits
agent_loads = refl

shouting_loads : load_config whole ascii was_read (some shouting) ≡ loaded shouting
unfolding load_config validate_config validate_agent validate_storage validate_limits
shouting_loads = refl

agent_without_key_rejected :
    load_config whole ascii was_read
      (some (record agent_file { agent = record (agent_file.agent) { key = "  " } }))
    ≡ rejected agent_without_key
unfolding load_config validate_config validate_agent validate_storage validate_limits
agent_without_key_rejected = refl

crossed_tiers_rejected :
    load_config whole ascii was_read (
      some (record defaults {
        database = record (defaults.database) { minute_rollup_days = pos 400 };
      }))
    ≡ rejected tiers_crossed
unfolding load_config validate_config validate_agent validate_storage validate_limits
crossed_tiers_rejected = refl

apply_update-runtime_of_example :
    (apply_update (runtime_of shouting) (poll_update (pos 30))).2 ≡ refused unknown_level
apply_update-runtime_of_example =
    apply_update-runtime_of whole ascii was_read (some shouting) shouting (pos 30) shouting_loads
      (refl, refl)
