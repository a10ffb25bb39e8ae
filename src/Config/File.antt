-- ===== src/Config/File.antt =====
-- internal/config/config.go: the configuration and its defaults.
pub mod Load
pub mod Usable
pub mod Seeded
mod Tests
use sys_sentient.Prelude.{
  ℤ, pos, nat_key, string_key, ◌-◌, ◌*◌, ◌/◌, String, Bool, true, false, List, [], ◌∷◌, arith,
}

pub record ServerConfig : Type 0 where
  pub port : ℤ
  pub api_key : String
  pub agent_key : String
  pub public_url : String
  pub allowed_origins : List String
  pub insecure : Bool

pub record AuthConfig : Type 0 where
  pub session_idle_hours : ℤ
  pub session_max_days : ℤ
  pub login_rate_per_minute : ℤ

pub record DatabaseConfig : Type 0 where
  pub path : String
  pub metrics_retention_hours : ℤ
  pub minute_rollup_days : ℤ
  pub five_minute_rollup_days : ℤ
  pub insights_retention_hours : ℤ
  pub archive_path : String

pub record GeminiConfig (F : Type 0) : Type 0 where
  pub api_key : String
  pub model_name : String
  pub max_daily_cost : F

pub record PrivacyConfig : Type 0 where
  pub mask_ips : Bool
  pub mask_emails : Bool
  pub mask_usernames : Bool

pub record AgentConfig : Type 0 where
  pub server_url : String
  pub key : String
  pub spool_path : String
  pub batch_size : ℤ
  pub ca_cert_path : String
  pub insecure_skip_verify : Bool

pub record LoggingConfig : Type 0 where
  pub level : String
  pub format : String

pub record AlertingConfig : Type 0 where
  pub enabled : Bool
  pub webhook_url : String
  pub slack_webhook_url : String

pub record CollectorConfig : Type 0 where
  pub poll_interval_seconds : ℤ
  pub host_id : String
  pub top_processes : ℤ

pub record Config (F : Type 0) : Type 0 where
  pub server : ServerConfig
  pub database : DatabaseConfig
  pub gemini : GeminiConfig F
  pub privacy : PrivacyConfig
  pub collector : CollectorConfig
  pub alerting : AlertingConfig
  pub logging : LoggingConfig
  pub mode : String
  pub agent : AgentConfig
  pub auth : AuthConfig

-- The constants of type Mode.
abbrev pub mode_all_in_one : String
mode_all_in_one = "all-in-one"

abbrev pub mode_server : String
mode_server = "server"

abbrev pub mode_agent : String
mode_agent = "agent"

-- The defaults that LoadConfig registers; one US dollar is a parameter.
abbrev pub default_config : {F : Type 0} → F → Config F
default_config dollar = record {
  server = record {
    port = pos 8080;
    api_key = "";
    agent_key = "";
    public_url = "";
    allowed_origins =
        "http://localhost:8080" ∷ "http://localhost:3000" ∷ "http://localhost:5173" ∷ [];
    insecure = false;
  };
  database = record {
    path = "sys-sentient.db";
    metrics_retention_hours = pos 24;
    minute_rollup_days = pos 30;
    five_minute_rollup_days = pos 365;
    insights_retention_hours = pos (7 * 24);
    archive_path = "";
  };
  gemini = record { api_key = ""; model_name = "gemini-2.5-flash-lite"; max_daily_cost = dollar };
  privacy = record { mask_ips = true; mask_emails = true; mask_usernames = true };
  collector = record { poll_interval_seconds = pos 2; host_id = ""; top_processes = pos 10 };
  alerting = record { enabled = true; webhook_url = ""; slack_webhook_url = "" };
  logging = record { level = "info"; format = "text" };
  mode = mode_all_in_one;
  agent = record {
    server_url = "";
    key = "";
    spool_path = "sys-sentient-spool.db";
    batch_size = pos 60;
    ca_cert_path = "";
    insecure_skip_verify = false;
  };
  auth = record {
    session_idle_hours = pos 24;
    session_max_days = pos 30;
    login_rate_per_minute = pos 5;
  };
}
