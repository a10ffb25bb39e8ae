-- ===== src/Server/Sessions/Resolve.antt =====
-- internal/server/session.go: which cookies name an account, and when.
use sys_sentient.Storage.Accounts.{SessionRecord, UserRecord, get_session, get_user_by_id}
use sys_sentient.Auth.User.{parse_role, TextOps}
use sys_sentient.Auth.Password.{Crypto}
use sys_sentient.Server.Sessions.{
  Server, Principal, resolve_session, resolve_hash, resolve_user, principal_of, is_expired,
}
use sys_sentient.Prelude.{
  Bool-cases, Option-cases, ◌==◌, nat_key, string_key, lookup, Time, add_time, ℕ, ◌≤◌, String, ◌≡◌,
  refl, inl, inr, Bool, true, false, Option, none, some, arith,
}

-- Every statement succeeds.
abbrev pub all_up : ℕ → Bool
all_up n = true

-- A cookie names a principal at an instant: its token is not empty, its hash is recorded with neither
-- the idle window nor the absolute limit passed, and the session's user has an account that makes
-- the principal.
pub record Names (text : TextOps) (crypto : Crypto) (s : Server) (cookie : Option String)
    (now : Time) (p : Principal) : Type 0 where
  pub token : String
  pub session : SessionRecord
  pub account : UserRecord
  pub sent : cookie ≡ some token
  pub visible : (token == "") ≡ false
  pub recorded : lookup (crypto.sha256 token) (s.accounts).sessions ≡ some session
  pub in_idle : now ≤ session.expires_at
  pub in_max : now ≤ add_time session.created_at s.session_max
  pub owned : lookup session.user_id (s.accounts).users ≡ some account
  pub made : principal_of text (crypto.sha256 token) account ≡ some p

module _ (text : TextOps) where
  -- What a principal takes from the account that makes it.
  pub principal_of_made :
      (hash : String) (u : UserRecord) (p : Principal)
      → principal_of text hash u ≡ some p
      → (p.user.id ≡ u.id)
        × (p.token_hash ≡ hash)
        × (p.via_cookie ≡ true)
        × (parse_role text u.role ≡ some p.user.role)
  unfolding principal_of
  principal_of_made hash u p h = ground arith

module _ (text : TextOps) (crypto : Crypto) where
  resolve_user-Names :
      (up : ℕ → Bool) (s : Server) (hash : String) (rec : SessionRecord) (now : Time)
      (p : Principal)
      → (resolve_user text crypto up s hash rec now).1 ≡ some p
      → (u : UserRecord) × (lookup rec.user_id (s.accounts).users ≡ some u)
        × (principal_of text hash u ≡ some p)
  unfolding resolve_user get_user_by_id
  resolve_user-Names up s hash rec now p h =
      elim (Option-cases (lookup rec.user_id (s.accounts).users)) [
        | inl e ↦ absurd (ground arith)
        | inr (u, e) ↦ (u, e, ground arith)
      ]

  pub resolve_hash-Names :
      (up : ℕ → Bool) (s : Server) (token : String) (now : Time) (p : Principal)
      → (token == "") ≡ false
      → (resolve_hash text crypto up s (crypto.sha256 token) now).1 ≡ some p
      → Names text crypto s (some token) now p
  unfolding resolve_hash get_session
  resolve_hash-Names up s token now p v h =
      elim (Option-cases (lookup (crypto.sha256 token) (s.accounts).sessions)) [
        | inl e ↦ absurd (ground arith)
        | inr (rec, e) ↦
            let found : (resolve_user text crypto up s (crypto.sha256 token) rec now).1 ≡ some p =
              ground arith in
            let (u, owned, made) = resolve_user-Names up s (crypto.sha256 token) rec now p found in
            record {
              token = token;
              session = rec;
              account = u;
              sent = refl;
              visible = v;
              recorded = e;
              in_idle = ground arith;
              in_max = ground arith;
              owned = owned;
              made = made;
            }
      ]

  -- Whatever statements fail, a cookie resolves to a principal only if it names that principal: the
  -- session is recorded, inside its idle window and its absolute limit, and the account is there.
  pub resolve_session-Names :
      (up : ℕ → Bool) (s : Server) (cookie : Option String) (now : Time) (p : Principal)
      → (resolve_session text crypto up s cookie now).1 ≡ some p
      → Names text crypto s cookie now p
  unfolding resolve_session
  resolve_session-Names up s none now p h = cc
  resolve_session-Names up s (some token) now p h = elim (Bool-cases (token == "")) [
    | inl e ↦ absurd (ground arith)
    | inr e ↦ resolve_hash-Names up s token now p e (ground arith)
  ]

  resolve_user_owned :
      (s : Server) (hash : String) (rec : SessionRecord) (now : Time) (u : UserRecord)
      (p : Principal)
      → lookup rec.user_id (s.accounts).users ≡ some u
      → principal_of text hash u ≡ some p
      → (resolve_user text crypto all_up s hash rec now).1 ≡ some p
  unfolding resolve_user get_user_by_id
  resolve_user_owned s hash rec now u p e q = ground arith

  resolve_hash_recorded :
      (s : Server) (hash : String) (rec : SessionRecord) (now : Time) (p : Principal)
      → lookup hash (s.accounts).sessions ≡ some rec
      → is_expired s rec now ≡ false
      → (resolve_user text crypto all_up s hash rec now).1 ≡ some p
      → (resolve_hash text crypto all_up s hash now).1 ≡ some p
  unfolding resolve_hash get_session
  resolve_hash_recorded s hash rec now p e live q = ground arith

  -- If every statement succeeds, a cookie that names a principal resolves to it.
  pub resolve_session_named :
      (s : Server) (cookie : Option String) (now : Time) (p : Principal)
      → Names text crypto s cookie now p
      → (resolve_session text crypto all_up s cookie now).1 ≡ some p
  unfolding resolve_session
  resolve_session_named s cookie now p n =
      let hash = crypto.sha256 n.token in
      let owned = resolve_user_owned s hash n.session now n.account p n.owned n.made in
      let live : is_expired s n.session now ≡ false = ground (arith, n.in_idle, n.in_max) in
      rw (n.sent, n.visible) (resolve_hash_recorded s hash n.session now p n.recorded live owned)
