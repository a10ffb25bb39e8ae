-- ===== src/Storage/Accounts.antt =====
-- internal/storage/users.go and sessions.go: the tables of accounts and of sessions.
-- A table is an association list by its primary key; `up` says whether SQLite runs the statement.
-- NOCASE, SQLite's comparison of addresses without regard to ASCII case, is a parameter.
pub mod Counts
use sys_sentient.Storage.SqlTime.{sql_time}
use sys_sentient.Prelude.{
  ltb, if◌then◌else◌, is_some, ◌==◌, nat_key, string_key, lookup, insert, erase, retain, Time, ℕ,
  ◌+◌, String, Bool, true, false, not, ◌&&◌, ◌||◌, Option, none, some, List, [], ◌∷◌,
}

pub record UserRecord : Type 0 where
  pub id : String
  pub email : String
  pub password_hash : String
  pub role : String
  pub created_at : Time
  pub last_login_at : Option Time

pub record SessionRecord : Type 0 where
  pub token_hash : String
  pub user_id : String
  pub created_at : Time
  pub expires_at : Time
  pub last_seen_at : Time

pub record Accounts : Type 0 where
  pub users : List (String × UserRecord)
  pub sessions : List (String × SessionRecord)

pub data DbError : Type 0 where
  db_failed not_found duplicate_email : DbError

pub data Answer (A : Type 0) : Type 0 where
  got : A → Answer A
  failed : DbError → Answer A

abbrev pub is_admin : UserRecord → Bool
is_admin u = u.role == "admin"

abbrev pub count_if : {V : Type 0} → (V → Bool) → List (String × V) → ℕ
count_if p [] = 0
count_if p ((k, v) ∷ m) = (if p v then 1 else 0) + count_if p m

unfoldable pub count_users : Bool → Accounts → Answer ℕ
count_users up db = if up then got (count_if (λ u. true) db.users) else failed db_failed

unfoldable pub count_admins : Bool → Accounts → Answer ℕ
count_admins up db = if up then got (count_if is_admin db.users) else failed db_failed

abbrev pub or_not_found : {A : Type 0} → Bool → Option A → Answer A
or_not_found up none = if up then failed not_found else failed db_failed
or_not_found up (some a) = if up then got a else failed db_failed

module _ (nocase : String → String → Bool) where
  unfoldable pub email_taken : String → List (String × UserRecord) → Bool
  email_taken email [] = false
  email_taken email ((k, u) ∷ m) = nocase u.email email || email_taken email m

  unfoldable pub user_with_email : String → List (String × UserRecord) → Option UserRecord
  user_with_email email [] = none
  user_with_email email ((k, u) ∷ m) =
      if nocase u.email email then some u else user_with_email email m

  -- The UNIQUE constraint on the address is told apart; a taken id or a role outside the CHECK is
  -- some other failure of the database.
  unfoldable pub create_user : Bool → Accounts → UserRecord → Accounts × Option DbError
  unfolding email_taken
  create_user up db u =
      if not up
      then (db, some db_failed)
      else if not (u.role == "admin" || u.role == "viewer")
      then (db, some db_failed)
      else if is_some (lookup u.id db.users)
      then (db, some db_failed)
      else if email_taken u.email db.users
      then (db, some duplicate_email)
      else (
        record db {
          users =
              insert u.id (record u { created_at = sql_time u.created_at; last_login_at = none })
                db.users;
        },
        none,
      )

  unfoldable pub get_user_by_email : Bool → Accounts → String → Answer UserRecord
  unfolding user_with_email
  get_user_by_email up db email = or_not_found up (user_with_email email db.users)

unfoldable pub get_user_by_id : Bool → Accounts → String → Answer UserRecord
get_user_by_id up db id = or_not_found up (lookup id db.users)

-- ON DELETE CASCADE takes the user's sessions along.
unfoldable pub delete_user : Bool → Accounts → String → Accounts × Option DbError
delete_user up db id =
    if not up
    then (db, some db_failed)
    else if not (is_some (lookup id db.users))
    then (db, some not_found)
    else (
      record db {
        users = erase id db.users;
        sessions = retain (λ k s. not (s.user_id == id)) db.sessions;
      },
      none,
    )

unfoldable pub update_password_hash : Bool → Accounts → String → String → Accounts × Option DbError
update_password_hash up db id hash =
    if not up then (db, some db_failed) else elim (lookup id db.users) [
      | none ↦ (db, some not_found)
      | some u ↦
          (record db { users = insert id (record u { password_hash = hash }) db.users }, none)
    ]

unfoldable pub touch_last_login : Bool → Accounts → String → Time → Accounts × Option DbError
touch_last_login up db id at = if not up then (db, some db_failed) else elim (lookup id db.users) [
  | none ↦ (db, none)
  | some u ↦ (
    record db { users = insert id (record u { last_login_at = some (sql_time at) }) db.users },
    none,
  )
]

-- The token hash is the primary key, and the user must exist.
unfoldable pub create_session : Bool → Accounts → SessionRecord → Accounts × Option DbError
create_session up db s =
    if not up
    then (db, some db_failed)
    else if is_some (lookup s.token_hash db.sessions)
    then (db, some db_failed)
    else if not (is_some (lookup s.user_id db.users))
    then (db, some db_failed)
    else (
      record db {
        sessions =
            insert s.token_hash
              (record s {
                created_at = sql_time s.created_at;
                expires_at = sql_time s.expires_at;
                last_seen_at = sql_time s.last_seen_at;
              })
              db.sessions;
      },
      none,
    )

unfoldable pub get_session : Bool → Accounts → String → Answer SessionRecord
get_session up db hash = or_not_found up (lookup hash db.sessions)

unfoldable pub touch_session : Bool → Accounts → String → Time → Time → Accounts × Option DbError
touch_session up db hash last_seen expires_at =
    if not up then (db, some db_failed) else elim (lookup hash db.sessions) [
      | none ↦ (db, none)
      | some s ↦ (
        record db {
          sessions =
              insert hash
                (record s { last_seen_at = sql_time last_seen; expires_at = sql_time expires_at })
                db.sessions;
        },
        none,
      )
    ]

unfoldable pub delete_session : Bool → Accounts → String → Accounts × Option DbError
delete_session up db hash =
    if not up then (db, some db_failed) else (record db { sessions = erase hash db.sessions }, none)

unfoldable pub delete_user_sessions : Bool → Accounts → String → String → Accounts × Option DbError
delete_user_sessions up db user_id keep = if not up then (db, some db_failed) else (
  record db {
    sessions = retain (λ k s. not (s.user_id == user_id && not (k == keep))) db.sessions;
  },
  none,
)

unfoldable pub prune_expired_sessions : Bool → Accounts → Time → Accounts × Option DbError
prune_expired_sessions up db now = if not up then (db, some db_failed) else (
  record db { sessions = retain (λ k s. not (ltb s.expires_at (sql_time now))) db.sessions },
  none,
)
