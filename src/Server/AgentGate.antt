-- ===== src/Server/AgentGate.antt =====
-- internal/server/agent_handlers.go: authenticateAgent, the gate before the ingest of samples.
pub mod Revoked
use sys_sentient.Storage.Accounts.{not_found}
use sys_sentient.Storage.Fleet.{Fleet, Agent, KeyAnswer, known, revoked, unknown, agent_by_key}
use sys_sentient.Auth.Password.{Crypto}
use sys_sentient.Server.Sessions.{Request, api_key_from, valid_api_key}
use sys_sentient.Prelude.{
  if◌then◌else◌, ◌==◌, nat_key, string_key, ℕ, String, Bool, Option, none, some,
}

-- The handler runs, for an enrolled agent or for the shared key, or a status is written.
pub data AgentVerdict : Type 0 where
  passes : Option Agent → AgentVerdict
  refuses : ℕ → AgentVerdict

module _ (crypto : Crypto) where
  -- `shared` is the key of `agentAuth`, empty if there is none.
  unfoldable pub admit_agent : String → String → KeyAnswer → AgentVerdict
  admit_agent shared key (known a) = passes (some a)
  admit_agent shared key (revoked a) = refuses 403
  admit_agent shared key (unknown not_found) =
      if valid_api_key crypto shared key then passes none else refuses 401
  admit_agent shared key (unknown e) = refuses 500

  unfoldable pub authenticate_agent : Bool → Bool → String → Fleet → Request → AgentVerdict
  unfolding admit_agent
  authenticate_agent up insecure shared db r =
      if insecure
      then passes none
      else if api_key_from r == ""
      then refuses 401
      else admit_agent shared (api_key_from r) (agent_by_key up db (crypto.sha256 (api_key_from r)))
