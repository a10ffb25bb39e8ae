-- ===== src/Server/JoinTests.antt =====
-- internal/server/agent_handlers.go: an invitation that is issued and used, and the theorems at it.
use sys_sentient.Prelude.{
  pos, ◌==◌, nat_key, string_key, lookup, minute, hour, ◌+◌, ◌*◌, ◌≤◌, String, ◌≡◌, refl, true,
  false, none, some, [], arith,
}
use sys_sentient.Storage.Fleet.{Fleet, new_agent, create_join_token}
use sys_sentient.Storage.SqlTime.{sql_time}
use sys_sentient.Auth.Password.{Crypto}
use sys_sentient.Server.Sessions.{Request}
use sys_sentient.Server.AgentGate.{passes, authenticate_agent}
use sys_sentient.Server.AgentHandlers.{
  CreateTokenRequest, JoinRequest, agent_joined, body, handle_create_join_token, handle_agent_join,
  join_token_ttl, issue_join_token,
}
use sys_sentient.Server.AgentHandlers.Enrolment.{
  expiry, stored_expiry, handle_create_join_token_bounded, join_then_authenticate,
}

abbrev plain_hash : Crypto
plain_hash = record {
  derive = λ salt password. password;
  check = λ encoded password. some (encoded == password);
  sha256 = λ s. s;
}

abbrev no_agents : Fleet
no_agents = record { join_tokens = []; agents = [] }

abbrev untrimmed : String → String
untrimmed s = s

-- So many seconds are, in 64 bits of nanoseconds, less than half a second.
abbrev overflowing : CreateTokenRequest
overflowing = record { label = "rack 1"; ttl_seconds = pos 18_446_744_074 }

overflowing_accepted :
    expiry
      (handle_create_join_token plain_hash untrimmed true no_agents
        (body overflowing)
        (some "invite")
        (some "i1")
        hour
        "ops"
        "https://example.org").1
    ≡ some (hour + 290_448_384)
unfolding handle_create_join_token join_token_ttl issue_join_token create_join_token lookup
overflowing_accepted = refl

handle_create_join_token_bounded_example :
    (hour + 290_448_384 ≤ hour + 24 * hour)
    × (stored_expiry "invite"
          (handle_create_join_token plain_hash untrimmed true no_agents
            (body overflowing)
            (some "invite")
            (some "i1")
            hour
            "ops"
            "https://example.org").0
        ≡ some (sql_time (hour + 290_448_384)))
    × (sql_time (hour + 290_448_384) ≤ hour + 24 * hour)
handle_create_join_token_bounded_example =
    handle_create_join_token_bounded plain_hash untrimmed true no_agents (body overflowing) "invite"
      (some "i1") hour "ops" "https://example.org" (hour + 290_448_384) overflowing_accepted

abbrev short_lived : CreateTokenRequest
short_lived = record { label = "rack 1"; ttl_seconds = pos 600 }

abbrev joining : JoinRequest
joining = record { token = "invite"; host_id = "web-1"; hostname = "web-1"; version = "1.2" }

abbrev push : Request
push = record {
  method = "POST";
  x_api_key = "agent-key";
  bearer = "";
  cookie = none;
  fetch_site = "";
}

join_then_authenticate_example :
    let issued =
      handle_create_join_token plain_hash untrimmed true no_agents
        (body short_lived)
        (some "invite")
        (some "i1")
        hour
        "ops"
        "https://example.org" in
    let joined =
      handle_agent_join plain_hash untrimmed
        (λ _. true)
        issued.0
        (body joining)
        (some "agent-key")
        (some "a1")
        (hour + minute) in
    (joined.1 ≡ agent_joined "a1" "agent-key" "rack 1")
    × (authenticate_agent plain_hash true false "shared" joined.0 push
        ≡ passes (
            some (record (new_agent "a1" "web-1" "web-1" "rack 1" "1.2" (hour + minute)) {
              created_at = sql_time (hour + minute);
            })))
unfolding handle_create_join_token lookup join_token_ttl issue_join_token create_join_token
join_then_authenticate_example =
    join_then_authenticate plain_hash untrimmed no_agents short_lived joining "invite" "i1"
      "agent-key" "a1" hour (hour + minute) (hour + 10 * minute) "ops" "https://example.org"
      "shared" push refl (omega arith) refl refl refl refl refl refl refl
