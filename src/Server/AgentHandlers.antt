-- ===== src/Server/AgentHandlers.antt =====
-- internal/server/agent_handlers.go: invitations, enrolment and revocation. There is a store; `up n` says
-- whether the n-th statement of a handler succeeds, `trim` is `strings.TrimSpace`, and a random token or
-- id is none where none can be generated. A time.Duration is a signed 64-bit number of nanoseconds, so
-- the product of the time to live and a second wraps.
pub mod Enrolment
use mathlib.Core.List.{reverse}
use sys_sentient.Prelude.{
  ltb, if◌then◌else◌, is_some, keep_if, ℤ, pos, negsuc, ltb_ℤ, ◌==◌, nat_key, string_key, Time,
  add_time, second, hour, ℕ, zero, ◌-◌, ◌*◌, ◌/◌, ◌%◌, ◌^◌, ◌<◌, String, Bool, not, ◌&&◌, ◌||◌,
  Option, none, some, List, [], ◌∷◌, arith, sort_by,
}
use sys_sentient.Storage.SqlTime.{sql_time}
use sys_sentient.Storage.Accounts.{DbError, db_failed, not_found, duplicate_email}
use sys_sentient.Storage.Fleet.{
  Fleet, Agent, JoinToken, Redeemed, enrolled, not_enrolled, token_not_found, redeem_failed,
  create_join_token, redeem_join_token, revoke_agent,
}
use sys_sentient.Auth.Password.{Crypto}
use Prim.Native.String.{len, ◌++◌ as ◌<>◌}

abbrev pub default_join_token_ttl : ℤ
default_join_token_ttl = pos hour

abbrev pub max_join_token_ttl : ℤ
max_join_token_ttl = pos (24 * hour)

pub record CreateTokenRequest : Type 0 where
  pub label : String
  pub ttl_seconds : ℤ

pub record JoinRequest : Type 0 where
  pub token : String
  pub host_id : String
  pub hostname : String
  pub version : String

-- 201 with what is created, 204, 200 with a list, or an error with its status.
pub data FleetResponse : Type 0 where
  token_created : (token id label : String) → Time → (command unix windows : String) → FleetResponse
  agent_joined : (agent_id agent_key label : String) → FleetResponse
  agent_gone : FleetResponse
  agents_listed : List Agent → FleetResponse
  tokens_listed : List JoinToken → FleetResponse
  fleet_failure : ℕ → FleetResponse

-- A body that is empty, that cannot be decoded, or that holds a request.
pub data Body (A : Type 0) : Type 0 where
  no_body bad_body : Body A
  body : A → Body A

-- A number of nanoseconds in 64 bits.
abbrev pub wrap_64 : ℕ → ℤ
wrap_64 n = let r = n % 2 ^ 64 in if ltb r (2 ^ 63) then pos r else negsuc (2 ^ 64 - r - 1)

unfoldable pub join_token_ttl : ℤ → ℤ
join_token_ttl (pos zero) = default_join_token_ttl
join_token_ttl (pos n) = wrap_64 (n * second)
join_token_ttl (negsuc n) = default_join_token_ttl

unfoldable pub join_command : String → String → String
join_command url token =
    "sys-sentient agent join --server " <> url <> " --token " <> token <> " --install-service"

unfoldable pub bootstrap_unix : String → String → String
bootstrap_unix url token =
    "curl -fsSL " <> url <> "/install.sh | sh -s -- --server " <> url <> " --token " <> token

unfoldable pub bootstrap_windows : String → String → String
bootstrap_windows url token =
    "iwr -useb " <> url <> "/install.ps1 | iex; " <> "Install-SysSentient -Server " <> url
    <> " -Token " <> token

module _ (crypto : Crypto) (trim : String → String) where
  -- From the generated token on.
  unfoldable pub issue_join_token :
      Bool
      → Fleet
      → String
      → ℤ
      → Option String
      → Option String
      → Time
      → String
      → String
      → Fleet × FleetResponse
  issue_join_token up db label ttl none id now by url = (db, fleet_failure 500)
  issue_join_token up db label ttl (some token) none now by url = (db, fleet_failure 500)
  issue_join_token up db label ttl (some token) (some id) now by url =
      let expires_at = add_time now ttl in
      let (db', refusal) =
        create_join_token up db id (crypto.sha256 token) label by now expires_at in
      if is_some refusal then (db', fleet_failure 500) else (
        db',
        token_created token id label expires_at (join_command url token) (bootstrap_unix url token)
            (bootstrap_windows url token),
      )

  -- `by` is the address of the user, and `url` that of the server.
  unfoldable pub handle_create_join_token :
      Bool
      → Fleet
      → Body CreateTokenRequest
      → Option String
      → Option String
      → Time
      → String
      → String
      → Fleet × FleetResponse
  handle_create_join_token up db bad_body token id now by url = (db, fleet_failure 400)
  handle_create_join_token up db no_body token id now by url =
      issue_join_token up db (trim "") default_join_token_ttl token id now by url
  handle_create_join_token up db (body req) token id now by url =
      let ttl = join_token_ttl req.ttl_seconds in
      if ltb 64 (len (trim req.label)) || ltb_ℤ max_join_token_ttl ttl
      then (db, fleet_failure 400)
      else issue_join_token up db (trim req.label) ttl token id now by url

  unfoldable pub answer_join : String → Fleet × Redeemed → Fleet × FleetResponse
  answer_join key (db, enrolled a) = (db, agent_joined a.id key a.label)
  answer_join key (db, not_enrolled token_not_found) = (db, fleet_failure 401)
  answer_join key (db, not_enrolled redeem_failed) = (db, fleet_failure 500)

  unfoldable pub redeem_request :
      (ℕ → Bool)
      → Fleet
      → JoinRequest
      → Option String
      → Option String
      → Time
      → Fleet × FleetResponse
  unfolding answer_join
  redeem_request up db req none id now = (db, fleet_failure 500)
  redeem_request up db req (some key) none now = (db, fleet_failure 500)
  redeem_request up db req (some key) (some id) now = answer_join key (
      redeem_join_token up db (crypto.sha256 req.token) id (crypto.sha256 key) req.host_id
        req.hostname req.version now)

  unfoldable pub handle_agent_join :
      (ℕ → Bool)
      → Fleet
      → Body JoinRequest
      → Option String
      → Option String
      → Time
      → Fleet × FleetResponse
  unfolding redeem_request
  handle_agent_join up db no_body key id now = (db, fleet_failure 400)
  handle_agent_join up db bad_body key id now = (db, fleet_failure 400)
  handle_agent_join up db (body req) key id now =
      if req.token == "" || req.host_id == ""
      then (db, fleet_failure 400)
      else redeem_request up db req key id now

abbrev pub agent_rows : List (String × Agent) → List Agent
agent_rows [] = []
agent_rows ((k, a) ∷ rest) = a ∷ agent_rows rest

abbrev pub token_rows : List (String × JoinToken) → List JoinToken
token_rows [] = []
token_rows ((k, t) ∷ rest) = t ∷ token_rows rest

-- Newest first.
unfoldable pub list_agents : Bool → Fleet → Option (List Agent)
list_agents up db =
    if up then some (reverse (sort_by (λ a. a.created_at) (agent_rows db.agents))) else none

unfoldable pub list_join_tokens : Bool → Fleet → Time → Option (List JoinToken)
list_join_tokens up db now =
    if not up
    then none
    else some (
        reverse (
          sort_by (λ t. t.created_at)
            (keep_if (λ t. not (is_some t.redeemed_at) && ltb (sql_time now) t.expires_at)
              (token_rows db.join_tokens))))

unfoldable pub handle_list_agents : Bool → Fleet → FleetResponse
unfolding list_agents
handle_list_agents up db = elim (list_agents up db) [
  | none ↦ fleet_failure 500
  | some agents ↦ agents_listed agents
]

unfoldable pub handle_list_join_tokens : Bool → Fleet → Time → FleetResponse
unfolding list_join_tokens
handle_list_join_tokens up db now = elim (list_join_tokens up db now) [
  | none ↦ fleet_failure 500
  | some tokens ↦ tokens_listed tokens
]

abbrev pub answer_revoke : Fleet × Option DbError → Fleet × FleetResponse
answer_revoke (db, none) = (db, agent_gone)
answer_revoke (db, some not_found) = (db, fleet_failure 404)
answer_revoke (db, some db_failed) = (db, fleet_failure 500)
answer_revoke (db, some duplicate_email) = (db, fleet_failure 500)

unfoldable pub handle_revoke_agent : Bool → Fleet → String → Time → Fleet × FleetResponse
handle_revoke_agent up db id now =
    if id == "" then (db, fleet_failure 400) else answer_revoke (revoke_agent up db id now)
