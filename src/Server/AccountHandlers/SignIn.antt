-- ===== src/Server/AccountHandlers/SignIn.antt =====
-- internal/server/auth_handlers.go with session.go: what a sign-in leaves in the tables.

use sys_sentient.Storage.SqlTime.{sql_time}
use sys_sentient.Storage.Accounts.{
  Accounts, UserRecord, SessionRecord, user_with_email, touch_last_login, create_session,
}
use sys_sentient.Storage.Accounts.Counts.{IsKeyed}
use sys_sentient.Auth.User.{User}
use sys_sentient.Auth.Password.{Crypto}
use sys_sentient.Server.Sessions.{session_of, issue_session, Server}
use sys_sentient.Server.AccountHandlers.{signed_in, sign_in}
use sys_sentient.Prelude.{
  sym, ◌∙◌, lookup-insert, ap, Bool-cases, ◌==◌, nat_key, string_key, ==_refl, ==_eq, lookup,
  insert, Time, ℕ, String, ◌≡◌, refl, subst, inl, inr, Bool, true, Option, none, some, List, [],
  ◌∷◌, arith, IsUnique,
}

module _ (nocase : String → String → Bool) where
  pub with_email_lookup :
      (email : String) (m : List (String × UserRecord)) (u : UserRecord)
      → IsKeyed m
      → IsUnique m
      → user_with_email nocase email m ≡ some u
      → lookup u.id m ≡ some u
  unfolding user_with_email lookup
  with_email_lookup email [] u k v h = cc
  with_email_lookup email ((i, w) ∷ m) u k v h = elim (Bool-cases (nocase w.email email)) [
    | inl e ↦ ground (arith, ==_refl i, string_key.same_iff i u.id)
    | inr e ↦
        let later : lookup u.id m ≡ some u = with_email_lookup email m u k.1 v.1 (ground arith) in
        elim (Bool-cases (i == u.id)) [
          | inr other ↦ rw other later
          | inl same ↦
              let gone : lookup u.id m ≡ none =
                subst (λ j. lookup j m ≡ none) (==_eq i u.id same) v.0 in
              absurd (cc)
        ]
  ]

-- The row of a session as it is stored.
abbrev pub stored : SessionRecord → SessionRecord
stored rec = record rec {
  created_at = sql_time rec.created_at;
  expires_at = sql_time rec.expires_at;
  last_seen_at = sql_time rec.last_seen_at;
}

touch_last_login_known :
    (db : Accounts) (id : String) (now : Time) (u : UserRecord)
    → lookup id db.users ≡ some u
    → (touch_last_login true db id now).0
      ≡ record db { users = insert id (record u { last_login_at = some (sql_time now) }) db.users }
unfolding touch_last_login
touch_last_login_known db id now u e = rw (e, touch_last_login) refl

create_session_done :
    (db : Accounts) (rec : SessionRecord)
    → (create_session true db rec).1 ≡ none
    → (create_session true db rec).0
      ≡ record db { sessions = insert rec.token_hash (stored rec) db.sessions }
unfolding create_session
create_session_done db rec h = ground arith

pub lookup-insert_self :
    {V : Type 0} (key : String) (v : V) (m : List (String × V))
    → lookup key (insert key v m) ≡ some v
lookup-insert_self key v m = let found = lookup-insert key key v m in rw (==_refl key) at found

module _ (crypto : Crypto) where
  -- What a sign-in leaves in the tables.
  abbrev SignsIn : Server → String → User → Time → UserRecord → Server → Type 0
  SignsIn s t user now u s' =
      (lookup (crypto.sha256 t) (s'.accounts).sessions
        ≡ some (stored (session_of s (crypto.sha256 t) user.id now)))
      × (lookup user.id (s'.accounts).users
          ≡ some (record u { last_login_at = some (sql_time now) }))
      × (s'.session_max ≡ s.session_max)

  issue_session_done :
      (s : Server) (t user_id : String) (now : Time)
      → (issue_session crypto true s (some t) user_id now).1 ≡ true
      → (issue_session crypto true s (some t) user_id now).0 ≡ record s {
        accounts = record s.accounts {
          sessions =
              insert
                (crypto.sha256 t)
                (stored (session_of s (crypto.sha256 t) user_id now))
                (s.accounts).sessions;
        };
      }
  unfolding issue_session
  issue_session_done s t user_id now h =
      let rec = session_of s (crypto.sha256 t) user_id now in
      ap (λ db. record s { accounts = db }) (create_session_done s.accounts rec (ground arith))

  pub sign_in_started :
      (s : Server) (t : String) (status : ℕ) (user : User) (now : Time) (st : ℕ) (us : User)
      (tok : Option String)
      → (sign_in crypto true true s (some t) status user now).1 ≡ signed_in st us tok
      → let noted = record s { accounts = (touch_last_login true s.accounts user.id now).0 } in
        ((issue_session crypto true noted (some t) user.id now).1 ≡ true)
        × (us ≡ user)
        × (tok ≡ some t)
  unfolding sign_in
  sign_in_started s t status user now st us tok h = ground arith

  pub sign_in-SignsIn :
      (s : Server) (t : String) (status : ℕ) (user : User) (now : Time) (u : UserRecord) (st : ℕ)
      (us : User) (tok : Option String)
      → lookup user.id (s.accounts).users ≡ some u
      → (sign_in crypto true true s (some t) status user now).1 ≡ signed_in st us tok
      → SignsIn s t user now u (sign_in crypto true true s (some t) status user now).0
  unfolding sign_in
  sign_in-SignsIn s t status user now u st us tok e h =
      let hash = crypto.sha256 t in
      let u' = record u { last_login_at = some (sql_time now) } in
      let users' = insert user.id u' (s.accounts).users in
      let noted = record s { accounts = (touch_last_login true s.accounts user.id now).0 } in
      let started = (sign_in_started s t status user now st us tok h).0 in
      let done = issue_session_done noted t user.id now started in
      let touched = touch_last_login_known s.accounts user.id now u e in
      let there : lookup user.id (noted.accounts).users ≡ some u' =
        ap (λ db. lookup user.id db.users) touched
        ∙ lookup-insert_self user.id u' (s.accounts).users in
      subst (SignsIn s t user now u) (sym done) (
        lookup-insert_self hash (stored (session_of s hash user.id now)) (noted.accounts).sessions,
        there,
        refl,
      )
