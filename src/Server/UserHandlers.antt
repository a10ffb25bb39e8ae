-- ===== src/Server/UserHandlers.antt =====
-- internal/server/user_handlers.go: the administrators' handlers for accounts. The arguments are those
-- of the handlers of the sign-in page.
pub mod Deletion
use sys_sentient.Storage.Accounts.{
  UserRecord, Answer, got, failed, db_failed, not_found, duplicate_email, count_admins, create_user,
  get_user_by_id, delete_user,
}
use sys_sentient.Auth.User.{TextOps, admin, role_text, parse_role, normalize_email}
use sys_sentient.Auth.Password.{Crypto, hashed, not_hashed, hash_password}
use sys_sentient.Server.Sessions.{Server, Principal}
use sys_sentient.Prelude.{
  leb, if◌then◌else◌, is_some, ◌==◌, nat_key, string_key, Time, ℕ, String, Bool, false, not, Option,
  none, some,
}
use sys_sentient.Server.AccountHandlers.{
  Response, failure, account, no_content, Credentials, password_message,
}

module _ (text : TextOps) (crypto : Crypto) (nocase : String → String → Bool) where
  unfoldable pub handle_create_user :
      (ℕ → Bool)
      → Server
      → Option (Credentials × String)
      → Option String
      → Option String
      → Time
      → Server × Response
  handle_create_user up s req salt new_id now = elim req [
    | none ↦ (s, failure 400 "invalid request body")
    | some (r, wanted) ↦ elim (normalize_email text r.email) [
      | none ↦ (s, failure 400 "invalid email address")
      | some email ↦ elim (parse_role text wanted) [
        | none ↦ (s, failure 400 "role must be admin or viewer")
        | some role ↦ elim (hash_password text crypto salt r.password) [
          | not_hashed e ↦ (s, failure 400 (password_message e))
          | hashed hash ↦ elim new_id [
            | none ↦ (s, failure 500 "failed to create user")
            | some id ↦
                let rec : UserRecord = record {
                  id = id;
                  email = email;
                  password_hash = hash;
                  role = role_text role;
                  created_at = now;
                  last_login_at = none;
                } in
                let (db, refusal) = create_user nocase (up 0) s.accounts rec in
                (
                  record s { accounts = db },
                  elim refusal [
                    | none ↦ account 201 rec
                    | some duplicate_email ↦ failure 409 "email already registered"
                    | some db_failed ↦ failure 500 "failed to create user"
                    | some not_found ↦ failure 500 "failed to create user"
                  ],
                )
          ]
        ]
      ]
    ]
  ]

-- The count of administrators, asked for only if the account to be deleted is one.
unfoldable pub last_admin : Bool → Server → UserRecord → Option Response
last_admin up s target =
    if not (target.role == "admin") then none else elim (count_admins up s.accounts) [
      | failed e ↦ some (failure 500 "failed to count admins")
      | got n ↦ if leb n 1 then some (failure 409 "cannot delete the last admin") else none
    ]

unfoldable pub remove_user : Bool → Server → String → Server × Response
remove_user up s id =
    let (db, refusal) = delete_user up s.accounts id in
    (
      record s { accounts = db },
      if is_some refusal then failure 500 "failed to delete user" else no_content false,
    )

-- The answer once the account has been looked for.
unfoldable pub delete_found : (ℕ → Bool) → Server → String → Answer UserRecord → Server × Response
unfolding last_admin remove_user
delete_found up s id (failed not_found) = (s, failure 404 "user not found")
delete_found up s id (failed e) = (s, failure 500 "failed to read user")
delete_found up s id (got target) = elim (last_admin (up 1) s target) [
  | some refusal ↦ (s, refusal)
  | none ↦ remove_user (up 2) s id
]

unfoldable pub handle_delete_user : (ℕ → Bool) → Server → Principal → String → Server × Response
unfolding delete_found
handle_delete_user up s p id =
    if id == p.user.id
    then (s, failure 400 "you cannot delete your own account")
    else delete_found up s id (get_user_by_id (up 0) s.accounts id)
