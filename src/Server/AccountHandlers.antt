-- ===== src/Server/AccountHandlers.antt =====
-- internal/server/auth_handlers.go: the handlers behind the sign-in page. A request is none if its body cannot be decoded; `up n` says whether the handler's n-th
-- statement succeeds; `salt`, `new_id` and `token` are what crypto/rand gives, if it does.
pub mod SignIn
pub mod Login
pub mod NewPassword
use sys_sentient.Storage.Accounts.{
  UserRecord, Answer, got, failed, not_found, count_users, create_user, get_user_by_email,
  get_user_by_id, update_password_hash, touch_last_login, delete_session, delete_user_sessions,
}
use sys_sentient.Auth.User.{TextOps, admin, User, parse_role, normalize_email}
use sys_sentient.Auth.Password.{
  Crypto, PasswordError, too_short, too_long, no_salt, hashed, not_hashed, validate_password,
  hash_password, verify_password,
}
use sys_sentient.Auth.Setup.{consume}
use sys_sentient.Server.Sessions.{Server, Principal, issue_session}
use sys_sentient.Prelude.{
  ltb, if◌then◌else◌, is_some, ◌==◌, nat_key, string_key, Time, ℕ, String, Bool, true, false, not,
  ◌&&◌, Option, none, some,
}

-- What a handler writes: an error; a user, with the token that the cookie is set to; whether setup is
-- needed; an account; or nothing, with the cookie cleared or not.
pub data Response : Type 0 where
  failure : ℕ → String → Response
  signed_in : ℕ → User → Option String → Response
  setup_status : Bool → Response
  account : ℕ → UserRecord → Response
  no_content : Bool → Response

abbrev pub login_failure : Response
login_failure = failure 401 "invalid email or password"

abbrev pub password_message : PasswordError → String
password_message too_short = "password must be at least 12 characters"
password_message too_long = "password must be at most 128 characters"
password_message no_salt = "generate salt"

unfoldable pub handle_setup_status : (ℕ → Bool) → Server → Response
handle_setup_status up s = elim (count_users (up 0) s.accounts) [
  | failed e ↦ failure 500 "failed to read users"
  | got n ↦ setup_status (n == 0 && not s.insecure)
]

pub record SetupRequest : Type 0 where
  pub token : String
  pub email : String
  pub password : String

pub record Credentials : Type 0 where
  pub email : String
  pub password : String

-- `s.setupToken == nil || !s.setupToken.Consume(...)`, negated.
unfoldable pub consume_setup : Server → String → Server × Bool
consume_setup s candidate = elim s.setup_token [
  | none ↦ (s, false)
  | some t ↦ let (t', done) = consume t candidate in (record s { setup_token = some t' }, done)
]

module _ (crypto : Crypto) where
  -- The end of a setup and of a login; a failure to note the login is passed over.
  unfoldable pub sign_in :
      Bool → Bool → Server → Option String → ℕ → User → Time → Server × Response
  sign_in touched created s token status user now =
      let noted = record s { accounts = (touch_last_login touched s.accounts user.id now).0 } in
      let (s', started) = issue_session crypto created noted token user.id now in
      (s', if started then signed_in status user token else failure 500 "failed to start session")

module _ (text : TextOps) (crypto : Crypto) (nocase : String → String → Bool) where
  -- Once the token is consumed.
  create_first_admin :
      (ℕ → Bool)
      → Server
      → String
      → String
      → Option String
      → Option String
      → Option String
      → Time
      → Server × Response
  unfolding sign_in
  create_first_admin up s email password salt new_id token now =
      elim (hash_password text crypto salt password) [
        | not_hashed e ↦ (s, failure 400 (password_message e))
        | hashed hash ↦ elim new_id [
          | none ↦ (s, failure 500 "failed to create user")
          | some id ↦
              let (db, refusal) = create_user nocase (up 1) s.accounts (record {
                id = id;
                email = email;
                password_hash = hash;
                role = "admin";
                created_at = now;
                last_login_at = none;
              }) in
              let s' = record s { accounts = db } in
              if is_some refusal
              then (s', failure 500 "failed to create user")
              else sign_in crypto (up 2) (up 3) s' token 201
                  (record { id = id; email = email; role = admin }) now
        ]
      ]

  -- Once there is known to be no user.
  check_setup :
      (ℕ → Bool)
      → Server
      → SetupRequest
      → Option String
      → Option String
      → Option String
      → Time
      → Server × Response
  unfolding create_first_admin
  check_setup up s r salt new_id token now = elim (normalize_email text r.email) [
    | none ↦ (s, failure 400 "invalid email address")
    | some email ↦ elim (validate_password text r.password) [
      | some e ↦ (s, failure 400 (password_message e))
      | none ↦
          let (s', done) = consume_setup s r.token in
          if done
          then create_first_admin up s' email r.password salt new_id token now
          else (s', failure 403 "invalid setup token")
    ]
  ]

  unfoldable pub handle_setup :
      (ℕ → Bool)
      → Server
      → Option SetupRequest
      → Option String
      → Option String
      → Option String
      → Time
      → Server × Response
  unfolding check_setup
  handle_setup up s req salt new_id token now = elim req [
    | none ↦ (s, failure 400 "invalid request body")
    | some r ↦ elim (count_users (up 0) s.accounts) [
      | failed e ↦ (s, failure 500 "failed to read users")
      | got n ↦
          if ltb 0 n
          then (s, failure 409 "setup already completed")
          else check_setup up s r salt new_id token now
    ]
  ]

  -- The answer to a login once the account has been looked for.
  unfoldable pub login_user :
      (ℕ → Bool) → Server → String → Option String → Time → Answer UserRecord → Server × Response
  unfolding sign_in
  login_user up s password token now (failed not_found) = (s, login_failure)
  login_user up s password token now (failed e) = (s, failure 500 "failed to read user")
  login_user up s password token now (got u) =
      if not (verify_password crypto u.password_hash password)
      then (s, login_failure)
      else elim (parse_role text u.role) [
        | none ↦ (s, failure 500 "user has an invalid role")
        | some role ↦
            sign_in crypto (up 1) (up 2) s token 200
              (record { id = u.id; email = u.email; role = role }) now
      ]

  unfoldable pub handle_login :
      (ℕ → Bool) → Server → Option Credentials → Option String → Time → Server × Response
  unfolding login_user
  handle_login up s req token now = elim req [
    | none ↦ (s, failure 400 "invalid request body")
    | some r ↦ elim (normalize_email text r.email) [
      | none ↦ (s, login_failure)
      | some email ↦
          login_user up s r.password token now (get_user_by_email nocase (up 0) s.accounts email)
    ]
  ]

module _ (text : TextOps) (crypto : Crypto) where
  unfoldable pub handle_change_password :
      (ℕ → Bool) → Server → Principal → Option (String × String) → Option String → Server × Response
  handle_change_password up s p req salt =
      if not p.via_cookie
      then (s, failure 400 "password change requires a signed-in browser session")
      else elim req [
        | none ↦ (s, failure 400 "invalid request body")
        | some (current, wanted) ↦ elim (get_user_by_id (up 0) s.accounts p.user.id) [
          | failed e ↦ (s, failure 401 "authentication required")
          | got u ↦
              if not (verify_password crypto u.password_hash current)
              then (s, failure 401 "current password is incorrect")
              else elim (hash_password text crypto salt wanted) [
                | not_hashed e ↦ (s, failure 400 (password_message e))
                | hashed hash ↦
                    let (db, refusal) = update_password_hash (up 1) s.accounts u.id hash in
                    if is_some refusal
                    then (record s { accounts = db }, failure 500 "failed to update password")
                    else (
                      record s { accounts = (delete_user_sessions (up 2) db u.id p.token_hash).0 },
                      no_content false,
                    )
              ]
        ]
      ]

-- The cookie is cleared in any case.
unfoldable pub handle_logout : (ℕ → Bool) → Server → Principal → Server × Response
handle_logout up s p = (
  if p.via_cookie
      then record s { accounts = (delete_session (up 0) s.accounts p.token_hash).0 }
      else s,
  no_content true,
)

abbrev pub handle_me : Principal → Response
handle_me p = signed_in 200 p.user none
