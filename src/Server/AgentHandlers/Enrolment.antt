-- ===== src/Server/AgentHandlers/Enrolment.antt =====
-- internal/server/agent_handlers.go: from an invitation to a credential that the ingest accepts.
use mathlib.Core.Option
use sys_sentient.Prelude.{
  lookup-insert_self, ltb, Bool-cases, is_some, ℤ, pos, ltb_ℤ, ◌==◌, nat_key, string_key, lookup,
  insert, Time, add_time, hour, ◌+◌, ◌*◌, ◌≤◌, String, ◌≡◌, refl, inl, inr, Bool, true, false, ◌||◌,
  Option, none, some, arith,
}
use sys_sentient.Storage.SqlTime.{sql_time}
use sys_sentient.Storage.Fleet.{
  enrolled, Fleet, Agent, JoinToken, new_agent, any_row, create_join_token, redeem_join_token,
  is_spent, agent_by_key, update_rows,
}
use Prim.Native.String.{len}
use sys_sentient.Auth.Password.{Crypto}
use sys_sentient.Server.Sessions.{Request, api_key_from}
use sys_sentient.Server.AgentGate.{passes, authenticate_agent}
use sys_sentient.Server.AgentHandlers.{
  CreateTokenRequest, JoinRequest, FleetResponse, token_created, agent_joined, Body, body, no_body,
  bad_body, join_token_ttl, max_join_token_ttl, handle_create_join_token, issue_join_token,
  handle_agent_join,
}

-- What a created token's response says of its expiry.
abbrev pub expiry : FleetResponse → Option Time
expiry (token_created token id label at c u w) = some at
expiry _ = none

-- When the invitation in the row of this hash expires.
abbrev pub stored_expiry : String → Fleet → Option Time
stored_expiry hash db = Option.map (λ t. t.expires_at) (lookup hash db.join_tokens)

module _ (crypto : Crypto) (trim : String → String) where
  issue_expiry :
      (up : Bool) (db : Fleet) (label : String) (ttl : ℤ) (token id : Option String) (now : Time)
      (by url : String) (at : Time)
      → expiry (issue_join_token crypto trim up db label ttl token id now by url).1 ≡ some at
      → at ≡ add_time now ttl
  unfolding issue_join_token create_join_token
  issue_expiry up db label ttl none id now by url at h = cc
  issue_expiry up db label ttl (some token) none now by url at h = cc
  issue_expiry up db label ttl (some token) (some id) now by url at h = ground arith

  issue_row :
      (up : Bool) (db : Fleet) (label : String) (ttl : ℤ) (token : String) (id : Option String)
      (now : Time) (by url : String) (at : Time)
      → let (db', response) =
          issue_join_token crypto trim up db label ttl (some token) id now by url in
        expiry response ≡ some at → stored_expiry (crypto.sha256 token) db' ≡ some (sql_time at)
  unfolding issue_join_token create_join_token
  issue_row up db label ttl token none now by url at h = cc
  issue_row up db label ttl token (some id) now by url at h =
      let row : JoinToken = record {
        id = id;
        label = label;
        created_at = sql_time now;
        expires_at = sql_time (add_time now ttl);
        created_by = by;
        redeemed_at = none;
        redeemed_by = "";
      } in
      ground (arith, lookup-insert_self (crypto.sha256 token) row db.join_tokens)

  -- Whatever time to live a request asks for, a number of seconds that overflows included: an
  -- invitation that is issued expires no later than 24 hours after it is issued, both in the answer and
  -- in the row that is stored under the hash of its token, which holds the answer's expiry to the
  -- millisecond.
  pub handle_create_join_token_bounded :
      (up : Bool) (db : Fleet) (req : Body CreateTokenRequest) (token : String) (id : Option String)
      (now : Time) (by url : String) (at : Time)
      → let (db', response) =
          handle_create_join_token crypto trim up db req (some token) id now by url in
        expiry response ≡ some at
        → (at ≤ now + 24 * hour)
          × (stored_expiry (crypto.sha256 token) db' ≡ some (sql_time at))
          × (sql_time at ≤ now + 24 * hour)
  unfolding handle_create_join_token
  handle_create_join_token_bounded up db bad_body token id now by url at h = cc
  handle_create_join_token_bounded up db no_body token id now by url at h =
      let same = issue_expiry up db (trim "") (pos hour) (some token) id now by url at h in
      (
        omega (arith, same),
        issue_row up db (trim "") (pos hour) token id now by url at h,
        omega (arith, same),
      )
  handle_create_join_token_bounded up db (body req) token id now by url at h =
      let ttl = join_token_ttl req.ttl_seconds in
      elim (Bool-cases (ltb 64 (len (trim req.label)) || ltb_ℤ max_join_token_ttl ttl)) [
        | inl refused ↦ let gone : none ≡ some at = (rw refused at h) in cc
        | inr taken ↦
            let issued = (rw taken at h) in
            let same =
              issue_expiry up db (trim req.label) ttl (some token) id now by url at issued in
            let soon : at ≤ now + 24 * hour = ground arith in
            rw taken (
              soon,
              issue_row up db (trim req.label) ttl token id now by url at issued,
              omega (arith, soon),
            )
      ]

  issue_stores :
      (db : Fleet) (label : String) (ttl : ℤ) (token id : String) (now : Time) (by url : String)
      (at : Time)
      → expiry (issue_join_token crypto trim true db label ttl (some token) (some id) now by url).1
        ≡ some at
      → (issue_join_token crypto trim true db label ttl (some token) (some id) now by url).0
        ≡ record db {
          join_tokens =
              insert
                (crypto.sha256 token)
                (record {
                  id = id;
                  label = label;
                  created_at = sql_time now;
                  expires_at = sql_time at;
                  created_by = by;
                  redeemed_at = none;
                  redeemed_by = "";
                })
                db.join_tokens;
        }
  unfolding issue_join_token create_join_token
  issue_stores db label ttl token id now by url at h = ground arith

redeem_lem :
    (db : Fleet) (hash id key host name version : String) (t : JoinToken) (now : Time)
    → lookup hash db.join_tokens ≡ some t
    → is_spent t now ≡ false
    → lookup key db.agents ≡ none
    → any_row (λ b. b.id == id) db.agents ≡ false
    → redeem_join_token (λ _. true) db hash id key host name version now ≡ (
      record {
        join_tokens =
            update_rows
              (λ u. u.id == t.id)
              (λ u. record u { redeemed_at = some (sql_time now); redeemed_by = host })
              db.join_tokens;
        agents =
            insert key
              (record (new_agent id host name t.label version now) { created_at = sql_time now })
              db.agents;
      },
      enrolled (new_agent id host name t.label version now),
    )
unfolding redeem_join_token
redeem_lem db hash id key host name version t now found fresh new_key new_id =
    rw (found, fresh, new_key, new_id)

module _ (crypto : Crypto) (trim : String → String) where
  handle_agent_join_lem :
      (db : Fleet) (req : JoinRequest) (t : JoinToken) (key id : String) (now : Time)
      → (req.token == "") ≡ false
      → (req.host_id == "") ≡ false
      → lookup (crypto.sha256 req.token) db.join_tokens ≡ some t
      → is_spent t now ≡ false
      → lookup (crypto.sha256 key) db.agents ≡ none
      → any_row (λ b. b.id == id) db.agents ≡ false
      → let (db', response) =
          handle_agent_join crypto trim (λ _. true) db (body req) (some key) (some id) now in
        (response ≡ agent_joined id key t.label)
        × (lookup (crypto.sha256 key) db'.agents
            ≡ some (record (new_agent id req.host_id req.hostname t.label req.version now) {
              created_at = sql_time now;
            }))
  unfolding handle_agent_join
  handle_agent_join_lem db req t key id now there host found fresh new_key new_id =
      rw
        (
          there,
          host,
          redeem_lem db (crypto.sha256 req.token) id (crypto.sha256 key) req.host_id req.hostname
              req.version t now found fresh new_key new_id,
        )
        (refl, lookup-insert_self (crypto.sha256 key) _ db.agents)

  authenticate_agent_known :
      (shared : String) (db : Fleet) (r : Request) (a : Agent)
      → (api_key_from r == "") ≡ false
      → lookup (crypto.sha256 (api_key_from r)) db.agents ≡ some a
      → is_some a.revoked_at ≡ false
      → authenticate_agent crypto true false shared db r ≡ passes (some a)
  unfolding authenticate_agent agent_by_key
  authenticate_agent_known shared db r a visible found active = rw (visible, found, active)

  -- While every statement succeeds, an invitation that was issued can be redeemed until it expires: the
  -- machine that joins with its token, which is not empty, and with a host id, where the key and the id
  -- that are generated for it are not in use, is answered with that key and the invitation's label,
  -- and a request with the key then passes the gate of the ingest, which is not open to all, as the new
  -- agent.
  pub join_then_authenticate :
      (db : Fleet) (req : CreateTokenRequest) (join : JoinRequest) (token id key agent_id : String)
      (now next at : Time) (by url shared : String) (r : Request)
      → let issued =
          handle_create_join_token crypto trim true db
            (body req)
            (some token)
            (some id)
            now
            by
            url in
        let joined =
          handle_agent_join crypto trim
            (λ _. true)
            issued.0
            (body join)
            (some key)
            (some agent_id)
            next in
        expiry issued.1 ≡ some at
        → next ≤ sql_time at
        → join.token ≡ token
        → (token == "") ≡ false
        → (join.host_id == "") ≡ false
        → lookup (crypto.sha256 key) db.agents ≡ none
        → any_row (λ b. b.id == agent_id) db.agents ≡ false
        → api_key_from r ≡ key
        → (key == "") ≡ false
        → (joined.1 ≡ agent_joined agent_id key (trim req.label))
          × (authenticate_agent crypto true false shared joined.0 r
              ≡ passes (
                  some
                    (record (new_agent agent_id join.host_id join.hostname
                      (trim req.label)
                      join.version
                      next) { created_at = sql_time next })))
  unfolding handle_create_join_token
  join_then_authenticate db req join token id key agent_id now next at by url shared r issued timely
        same there host new_key new_id sent visible =
      let ttl = join_token_ttl req.ttl_seconds in
      elim (Bool-cases (ltb 64 (len (trim req.label)) || ltb_ℤ max_join_token_ttl ttl)) [
        | inl refused ↦ let gone : none ≡ some at = (rw refused at issued) in cc
        | inr taken ↦
            let stored =
              issue_stores crypto trim db (trim req.label) ttl token id now by url at
                (rw taken at issued) in
            let t : JoinToken = record {
              id = id;
              label = trim req.label;
              created_at = sql_time now;
              expires_at = sql_time at;
              created_by = by;
              redeemed_at = none;
              redeemed_by = "";
            } in
            let db' : Fleet = record db {
              join_tokens = insert (crypto.sha256 token) t db.join_tokens;
            } in
            let there' : (join.token == "") ≡ false = (rw same there) in
            let found : lookup (crypto.sha256 join.token) db'.join_tokens ≡ some t =
              (rw same (lookup-insert_self (crypto.sha256 token) t db.join_tokens)) in
            let fresh : is_spent t next ≡ false = (ground arith) in
            let joined =
              handle_agent_join_lem db' join t key agent_id next there' host found fresh new_key
                new_id in
            let visible' : (api_key_from r == "") ≡ false = (rw sent visible) in
            rw (taken, stored)
              (
                joined.0,
                authenticate_agent_known shared
                    (handle_agent_join crypto trim (λ _. true) db' (body join) (some key)
                      (some agent_id) next).0
                    r _ visible' (rw sent joined.1) refl,
              )
      ]
