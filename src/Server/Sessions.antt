-- ===== src/Server/Sessions.antt =====
-- internal/server/session.go and auth.go: who a request acts as, and what it may do.
-- `up n` says whether the n-th statement of a call succeeds. There is a store: agents, which have
-- none, serve no API.

pub mod Resolve
pub mod Gate
pub mod Limit
use sys_sentient.Storage.Accounts.{
  Accounts, SessionRecord, UserRecord, got, failed, get_session, delete_session, get_user_by_id,
  touch_session, create_session,
}
use sys_sentient.Auth.User.{TextOps, Role, admin, viewer, User, parse_role}
use sys_sentient.Auth.Password.{Crypto}
use sys_sentient.Auth.Setup.{SetupToken}
use sys_sentient.Prelude.{
  if◌then◌else◌, is_some, pos, ltb_ℤ, ◌==◌, nat_key, string_key, Time, Duration, since, add_time,
  after, minute, ℕ, ◌*◌, String, Bool, true, false, not, ◌&&◌, ◌||◌, Option, none, some,
}

pub record Principal : Type 0 where
  pub user : User
  pub token_hash : String
  pub via_cookie : Bool

-- The part of `Server` that authentication uses, with the store's accounts.
pub record Server : Type 0 where
  pub accounts : Accounts
  pub session_idle : Duration
  pub session_max : Duration
  pub insecure : Bool
  pub api_key : String
  pub setup_token : Option SetupToken

-- What authentication reads of a request; an absent header is the empty text.
pub record Request : Type 0 where
  pub method : String
  pub x_api_key : String
  pub bearer : String
  pub cookie : Option String
  pub fetch_site : String

abbrev pub session_touch_interval : Duration
session_touch_interval = pos (5 * minute)

abbrev pub synthetic : String → Principal
synthetic name = record {
  user = record { id = name; email = name; role = admin };
  token_hash = "";
  via_cookie = false;
}

abbrev pub api_key_principal : Principal
api_key_principal = synthetic "api-key"

abbrev pub insecure_principal : Principal
insecure_principal = synthetic "insecure"

-- The record that `issueSession` stores.
abbrev pub session_of : Server → String → String → Time → SessionRecord
session_of s hash user_id now = record {
  token_hash = hash;
  user_id = user_id;
  created_at = now;
  expires_at = add_time now s.session_idle;
  last_seen_at = now;
}

module _ (crypto : Crypto) where
  -- `token` is what crypto/rand gives, if it does; `true` means that the cookie was set.
  unfoldable pub issue_session : Bool → Server → Option String → String → Time → Server × Bool
  issue_session up s token user_id now = elim token [
    | none ↦ (s, false)
    | some t ↦
        let (db, failure) =
          create_session up s.accounts (session_of s (crypto.sha256 t) user_id now) in
        (record s { accounts = db }, not (is_some failure))
  ]

abbrev pub is_expired : Server → SessionRecord → Time → Bool
is_expired s rec now = after now rec.expires_at || after now (add_time rec.created_at s.session_max)

-- The sliding of the idle window, not more often than the interval.
unfoldable pub slide : Bool → Server → String → SessionRecord → Time → Server
slide up s hash rec now =
    if ltb_ℤ session_touch_interval (since now rec.last_seen_at)
    then record s {
      accounts = (touch_session up s.accounts hash now (add_time now s.session_idle)).0;
    }
    else s

module _ (text : TextOps) where
  unfoldable pub principal_of : String → UserRecord → Option Principal
  principal_of hash u = elim (parse_role text u.role) [
    | none ↦ none
    | some role ↦ some (record {
      user = record { id = u.id; email = u.email; role = role };
      token_hash = hash;
      via_cookie = true;
    })
  ]

module _ (crypto : Crypto) where
  unfoldable pub valid_api_key : String → String → Bool
  valid_api_key expected provided =
      if provided == "" || expected == ""
      then false
      else crypto.sha256 expected == crypto.sha256 provided

abbrev pub api_key_from : Request → String
api_key_from r = if not (r.x_api_key == "") then r.x_api_key else r.bearer

module _ (text : TextOps) (crypto : Crypto) where
  -- From the user's row on.
  resolve_user : (ℕ → Bool) → Server → String → SessionRecord → Time → Server × Option Principal
  unfolding principal_of slide
  resolve_user up s hash rec now = elim (get_user_by_id (up 2) s.accounts rec.user_id) [
    | failed e ↦ (s, none)
    | got u ↦ elim (principal_of text hash u) [
      | none ↦ (s, none)
      | some p ↦ (slide (up 3) s hash rec now, some p)
    ]
  ]

  -- From the session's row on.
  pub resolve_hash : (ℕ → Bool) → Server → String → Time → Server × Option Principal
  unfolding resolve_user
  resolve_hash up s hash now = elim (get_session (up 0) s.accounts hash) [
    | failed e ↦ (s, none)
    | got rec ↦
        if is_expired s rec now
        then (record s { accounts = (delete_session (up 1) s.accounts hash).0 }, none)
        else resolve_user up s hash rec now
  ]

  unfoldable pub resolve_session :
      (ℕ → Bool) → Server → Option String → Time → Server × Option Principal
  unfolding resolve_hash
  resolve_session up s none now = (s, none)
  resolve_session up s (some token) now =
      if token == "" then (s, none) else resolve_hash up s (crypto.sha256 token) now

  unfoldable pub authenticate : (ℕ → Bool) → Server → Request → Time → Server × Option Principal
  unfolding valid_api_key resolve_session
  authenticate up s r now =
      if s.insecure
      then (s, some insecure_principal)
      else if not (api_key_from r == "") && valid_api_key crypto s.api_key (api_key_from r)
      then (s, some api_key_principal)
      else resolve_session up s r.cookie now

abbrev pub is_mutating : String → Bool
is_mutating method = not (method == "GET" || (method == "HEAD" || method == "OPTIONS"))

-- What a gate does with a request: its handler runs for a principal, or a status is written.
pub data Verdict : Type 0 where
  admits : Principal → Verdict
  rejects : ℕ → Verdict

abbrev pub is_admin_role : Role → Bool
is_admin_role admin = true
is_admin_role viewer = false

abbrev pub admin_only : Verdict → Verdict
admin_only (rejects status) = rejects status
admin_only (admits p) = if is_admin_role p.user.role then admits p else rejects 403

module _ (text : TextOps) where
  unfoldable pub gate : Request → Option Principal → Verdict
  gate r none = rejects 401
  gate r (some p) =
      if p.via_cookie && (is_mutating r.method && text.equal_fold r.fetch_site "cross-site")
      then rejects 403
      else admits p

module _ (text : TextOps) (crypto : Crypto) where
  unfoldable pub require_auth : (ℕ → Bool) → Server → Request → Time → Server × Verdict
  unfolding authenticate gate
  require_auth up s r now = let (s', p) = authenticate text crypto up s r now in (s', gate text r p)

  unfoldable pub require_admin : (ℕ → Bool) → Server → Request → Time → Server × Verdict
  unfolding require_auth
  require_admin up s r now = let (s', v) = require_auth up s r now in (s', admin_only v)
