-- ===== src/Storage/Fleet.antt =====
-- internal/storage/agents.go: invitations to enrol, and the credentials of enrolled machines.
-- The tables are association lists by their unique hashes, rows that an UPDATE names by their id are
-- found by it, and `up n` says whether the n-th statement of a call succeeds. A transaction that is not
-- committed changes nothing.
pub mod History
pub mod Invitation
pub mod Revocation
use sys_sentient.Storage.SqlTime.{sql_time}
use sys_sentient.Storage.Accounts.{DbError, db_failed, not_found}
use sys_sentient.Prelude.{
  ltb, if◌then◌else◌, is_some, ◌==◌, nat_key, string_key, lookup, insert, retain, Time, after, ℕ,
  String, Bool, false, not, ◌&&◌, ◌||◌, Option, none, some, List, [], ◌∷◌,
}

pub record JoinToken : Type 0 where
  pub id : String
  pub label : String
  pub created_at : Time
  pub expires_at : Time
  pub created_by : String
  pub redeemed_at : Option Time
  pub redeemed_by : String

pub record Agent : Type 0 where
  pub id : String
  pub host_id : String
  pub hostname : String
  pub label : String
  pub created_at : Time
  pub last_seen_at : Option Time
  pub agent_version : String
  pub revoked_at : Option Time

pub record Fleet : Type 0 where
  pub join_tokens : List (String × JoinToken)
  pub agents : List (String × Agent)

pub data RedeemError : Type 0 where
  token_not_found redeem_failed : RedeemError

pub data Redeemed : Type 0 where
  enrolled : Agent → Redeemed
  not_enrolled : RedeemError → Redeemed

-- What an AgentByKey answers: a credential that holds, one that is revoked, or an error.
pub data KeyAnswer : Type 0 where
  known : Agent → KeyAnswer
  revoked : Agent → KeyAnswer
  unknown : DbError → KeyAnswer

-- Whether some row of a table passes a test.
abbrev pub any_row : {V : Type 0} → (V → Bool) → List (String × V) → Bool
any_row p [] = false
any_row p ((k, v) ∷ m) = p v || any_row p m

-- `UPDATE ... SET ... WHERE`: the rows that pass the test are changed.
unfoldable pub update_rows :
    {V : Type 0} → (V → Bool) → (V → V) → List (String × V) → List (String × V)
update_rows p f [] = []
update_rows p f ((k, v) ∷ m) = (k, if p v then f v else v) ∷ update_rows p f m

unfoldable pub create_join_token :
    Bool → Fleet → String → String → String → String → Time → Time → Fleet × Option DbError
create_join_token up db id hash label created_by now expires_at =
    if not up || (is_some (lookup hash db.join_tokens) || any_row (λ t. t.id == id) db.join_tokens)
    then (db, some db_failed)
    else (
      record db {
        join_tokens =
            insert hash
              (record {
                id = id;
                label = label;
                created_at = sql_time now;
                expires_at = sql_time expires_at;
                created_by = created_by;
                redeemed_at = none;
                redeemed_by = "";
              })
              db.join_tokens;
      },
      none,
    )

-- The agent that a redemption enrols.
abbrev pub new_agent : String → String → String → String → String → Time → Agent
new_agent id host_id hostname label version now = record {
  id = id;
  host_id = host_id;
  hostname = hostname;
  label = label;
  created_at = now;
  last_seen_at = none;
  agent_version = version;
  revoked_at = none;
}

-- From the UPDATE to the Commit: both tables change, or neither.
unfoldable pub exchange : (ℕ → Bool) → Fleet → JoinToken → String → Agent → Time → Fleet × Redeemed
unfolding update_rows
exchange up db t key_hash a now =
    if not (up 2 && (up 3 && up 4))
    then (db, not_enrolled redeem_failed)
    else if is_some (lookup key_hash db.agents) || any_row (λ b. b.id == a.id) db.agents
    then (db, not_enrolled redeem_failed)
    else (
      record {
        join_tokens =
            update_rows (λ u. u.id == t.id)
              (λ u. record u { redeemed_at = some (sql_time now); redeemed_by = a.host_id })
              db.join_tokens;
        agents = insert key_hash (record a { created_at = sql_time now }) db.agents;
      },
      enrolled a,
    )

abbrev pub is_spent : JoinToken → Time → Bool
is_spent t now = is_some t.redeemed_at || after now t.expires_at

unfoldable pub redeem_join_token :
    (ℕ → Bool)
    → Fleet
    → String
    → String
    → String
    → String
    → String
    → String
    → Time
    → Fleet × Redeemed
unfolding exchange
redeem_join_token up db token_hash agent_id key_hash host_id hostname version now =
    if not (up 0 && up 1)
    then (db, not_enrolled redeem_failed)
    else elim (lookup token_hash db.join_tokens) [
      | none ↦ (db, not_enrolled token_not_found)
      | some t ↦
          if is_spent t now
          then (db, not_enrolled token_not_found)
          else exchange up db t key_hash (new_agent agent_id host_id hostname t.label version now)
              now
    ]

-- `agent, err`: the row, and whether it is revoked.
abbrev pub key_answer : Option Agent → KeyAnswer
key_answer none = unknown not_found
key_answer (some a) = if is_some a.revoked_at then revoked a else known a

unfoldable pub agent_by_key : Bool → Fleet → String → KeyAnswer
agent_by_key up db key_hash =
    if up then key_answer (lookup key_hash db.agents) else unknown db_failed

unfoldable pub touch_agent : Bool → Fleet → String → String → String → Time → Fleet × Option DbError
unfolding update_rows
touch_agent up db id hostname version now = if not up then (db, some db_failed) else (
  record db {
    agents =
        update_rows (λ a. a.id == id)
          (λ a. record a {
            last_seen_at = some (sql_time now);
            hostname = hostname;
            agent_version = version;
          })
          db.agents;
  },
  none,
)

abbrev pub is_active : String → Agent → Bool
is_active id a = a.id == id && not (is_some a.revoked_at)

unfoldable pub revoke_agent : Bool → Fleet → String → Time → Fleet × Option DbError
unfolding update_rows
revoke_agent up db id now =
    if not up
    then (db, some db_failed)
    else if not (any_row (is_active id) db.agents)
    then (db, some not_found)
    else (
      record db {
        agents =
            update_rows (is_active id) (λ a. record a { revoked_at = some (sql_time now) })
              db.agents;
      },
      none,
    )

unfoldable pub prune_expired_join_tokens : Bool → Fleet → Time → Fleet × Option DbError
prune_expired_join_tokens up db now = if not up then (db, some db_failed) else (
  record db {
    join_tokens =
        retain (λ k t. is_some t.redeemed_at || not (ltb t.expires_at (sql_time now)))
          db.join_tokens;
  },
  none,
)
