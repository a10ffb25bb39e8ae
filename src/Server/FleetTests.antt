-- ===== src/Server/FleetTests.antt =====
-- internal/server/agent_handlers.go and internal/storage/agents.go: one invitation and one agent, and
-- the theorems at them.
use sys_sentient.Storage.Fleet.{
  Fleet, JoinToken, Agent, new_agent, redeem_join_token, exchange, revoke_agent, agent_by_key,
}
use sys_sentient.Storage.Fleet.History.{touches, prunes, revokes, calls, withdrawn}
use sys_sentient.Storage.Fleet.Invitation.{is_enrolled, redeem_join_token_once}
use sys_sentient.Auth.Password.{Crypto}
use sys_sentient.Server.Sessions.{Request, api_key_from, valid_api_key}
use sys_sentient.Server.AgentGate.{refuses, authenticate_agent}
use sys_sentient.Server.AgentGate.Revoked.{authenticate_agent_revoked, authenticate_agent_passes}
use sys_sentient.Prelude.{
  is_some, ◌==◌, nat_key, string_key, lookup, minute, hour, ℕ, ◌+◌, ◌*◌, ◌≡◌, refl, ◌⊎◌, Bool, true,
  false, none, some, [], ◌∷◌,
}

abbrev plain_hash : Crypto
plain_hash = record {
  derive = λ salt password. password;
  check = λ encoded password. some (encoded == password);
  sha256 = λ s. s;
}

abbrev invitation : JoinToken
invitation = record {
  id = "i1";
  label = "rack 2";
  created_at = hour;
  expires_at = 2 * hour;
  created_by = "ops@example.org";
  redeemed_at = none;
  redeemed_by = "";
}

abbrev web_agent : Agent
web_agent = new_agent "a1" "web-1" "web-1" "rack 1" "1.2" hour

abbrev fleet : Fleet
fleet = record { join_tokens = ("invite", invitation) ∷ []; agents = ("agent-key", web_agent) ∷ [] }

abbrev every_statement : ℕ → Bool
every_statement n = true

redeem_join_token_once_example :
    is_enrolled
      (redeem_join_token every_statement
        (calls
          (redeem_join_token every_statement fleet "invite" "a2" "key-2" "db-1" "db-1" "1.2"
            (hour + minute)).0
          (prunes true (3 * hour) ∷ []))
        "invite"
        "a3"
        "key-3"
        "db-2"
        "db-2"
        "1.2"
        (hour + 2 * minute)).1
    ≡ false
unfolding redeem_join_token exchange lookup
redeem_join_token_once_example =
    redeem_join_token_once every_statement every_statement fleet (prunes true (3 * hour) ∷ [])
      "invite" "a2" "key-2" "db-1" "db-1" "1.2" "a3" "key-3" "db-2" "db-2" "1.2" (hour + minute)
      (hour + 2 * minute) (new_agent "a2" "db-1" "db-1" "rack 2" "1.2" (hour + minute)) refl

abbrev ingest : Request
ingest = record {
  method = "POST";
  x_api_key = "agent-key";
  bearer = "";
  cookie = none;
  fetch_site = "";
}

-- The key of the revoked agent is the shared key as well.
authenticate_agent_revoked_example :
    authenticate_agent plain_hash true false "agent-key"
      (calls
        (revoke_agent true fleet "a1" (2 * hour)).0
        (touches true "a1" "web-1" "1.3" (3 * hour) ∷ revokes true "a1" (4 * hour) ∷ []))
      ingest
    ≡ refuses 403
unfolding lookup revoke_agent
authenticate_agent_revoked_example =
    authenticate_agent_revoked plain_hash "agent-key" fleet
      (touches true "a1" "web-1" "1.3" (3 * hour) ∷ revokes true "a1" (4 * hour) ∷ []) web_agent
      (2 * hour) ingest refl refl refl

authenticate_agent_passes_example :
    ((api_key_from ingest == "") ≡ false)
    × (withdrawn (some web_agent) ≡ false)
    × (((some web_agent ≡ lookup "agent-key" fleet.agents) × (is_some (some web_agent) ≡ true))
        ⊎ ((some web_agent ≡ none) × (valid_api_key plain_hash "shared" "agent-key" ≡ true)))
unfolding authenticate_agent agent_by_key lookup
authenticate_agent_passes_example =
    authenticate_agent_passes plain_hash true "shared" fleet ingest (some web_agent) refl
