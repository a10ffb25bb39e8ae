-- ===== src/Server/AccountTests.antt =====
-- internal/server: a console with two accounts and a session, and the theorems at it. The functions of
-- the libraries are simple ones.
use sys_sentient.Storage.Accounts.{
  update_password_hash, touch_session, get_user_by_email, create_session, touch_last_login,
  get_session, get_user_by_id, delete_user, count_admins, user_with_email, UserRecord,
  SessionRecord,
}
use sys_sentient.Storage.Accounts.Counts.{IsAccounts}
use sys_sentient.Auth.User.{TextOps, admin, parse_role, normalize_email}
use sys_sentient.Auth.Password.{hash_password, Crypto}
use sys_sentient.Server.Sessions.{
  issue_session, Server, Principal, Request, api_key_principal, resolve_session, require_admin,
  is_admin_role, principal_of,
}
use sys_sentient.Server.Sessions.Resolve.{
  Names, all_up, resolve_session-Names, resolve_session_named,
}
use sys_sentient.Server.Sessions.Gate.{Carries, require_admin-Carries}
use sys_sentient.Server.AccountHandlers.{
  handle_change_password, login_failure, Credentials, handle_login,
}
use sys_sentient.Server.Sessions.Limit.{visits_limit, visits}
use mathlib.Core.Option
use sys_sentient.Server.AccountHandlers.NewPassword.{handle_change_password_lem}
use sys_sentient.Server.UserHandlers.{last_admin, remove_user, handle_delete_user}
use sys_sentient.Server.UserHandlers.Deletion.{
  admins, handle_delete_user_keeps_admin, handle_delete_user_signs_out,
}
use sys_sentient.Server.AccountHandlers.Login.{handle_login_refused, handle_login_resolves}
use sys_sentient.Prelude.{
  ◌+◌, leb→le, pos, ◌==◌, nat_key, string_key, lookup, insert, erase, retain, hour, ◌*◌, ◌≤◌,
  String, ◌≡◌, refl, Bool, true, false, none, some, List, [], ◌∷◌, arith,
}

abbrev plain_text : TextOps
plain_text = record {
  trim_space = λ s. s;
  to_lower = λ s. s;
  byte_length = λ s. 20;
  has_space = λ s. false;
  cut_at = λ s. some ("ops", "example.org");
  has_at = λ s. false;
  rune_count = λ s. 20;
  equal_fold = λ a b. a == b;
}

abbrev plain_crypto : Crypto
plain_crypto = record {
  derive = λ salt password. password;
  check = λ encoded password. some (encoded == password);
  sha256 = λ s. s;
}

abbrev same_text : String → String → Bool
same_text a b = a == b

abbrev ops_user : UserRecord
ops_user = record {
  id = "u1";
  email = "ops@example.org";
  password_hash = "correct horse battery";
  role = "admin";
  created_at = hour;
  last_login_at = none;
}

abbrev guest_user : UserRecord
guest_user = record ops_user { id = "u2"; email = "guest@example.org"; role = "viewer" }

abbrev ops_session : SessionRecord
ops_session = record {
  token_hash = "t1";
  user_id = "u1";
  created_at = hour;
  expires_at = 25 * hour;
  last_seen_at = hour;
}

abbrev console : Server
console = record {
  accounts = record {
    users = ("u1", ops_user) ∷ ("u2", guest_user) ∷ [];
    sessions = ("t1", ops_session) ∷ [];
  };
  session_idle = pos (24 * hour);
  session_max = pos (720 * hour);
  insecure = false;
  api_key = "machine";
  setup_token = none;
}

abbrev ops_principal : Principal
ops_principal = record {
  user = record { id = "u1"; email = "ops@example.org"; role = admin };
  token_hash = "t1";
  via_cookie = true;
}

abbrev staff : List (String × UserRecord)
staff = ("u1", ops_user) ∷ ("u2", guest_user) ∷ []

staff-IsAccounts :
    (sessions : List (String × SessionRecord))
    → IsAccounts (record { users = staff; sessions = sessions })
unfolding lookup
staff-IsAccounts sessions = record { keyed = (refl, (refl, tt)); unique = (refl, (refl, tt)) }

ops_named : Names plain_text plain_crypto console (some "t1") (2 * hour) ops_principal
unfolding lookup principal_of parse_role
ops_named = record {
  token = "t1";
  session = ops_session;
  account = ops_user;
  sent = refl;
  visible = refl;
  recorded = refl;
  in_idle = omega arith;
  in_max = omega arith;
  owned = refl;
  made = refl;
}

ops_resolves :
    (resolve_session plain_text plain_crypto all_up console (some "t1") (2 * hour)).1
    ≡ some ops_principal
ops_resolves =
    resolve_session_named plain_text plain_crypto console (some "t1") (2 * hour) ops_principal
      ops_named

resolve_session-Names_example :
    Names plain_text plain_crypto console (some "t1") (2 * hour) ops_principal
resolve_session-Names_example =
    resolve_session-Names plain_text plain_crypto all_up console (some "t1") (2 * hour)
      ops_principal ops_resolves

abbrev ops_request : Request
ops_request = record {
  method = "DELETE";
  x_api_key = "";
  bearer = "";
  cookie = some "t1";
  fetch_site = "same-origin";
}

require_admin-Carries_example :
    Carries plain_text plain_crypto console ops_request (2 * hour) ops_principal
    × (is_admin_role admin ≡ true)
unfolding require_admin resolve_session lookup parse_role get_session get_user_by_id
require_admin-Carries_example =
    require_admin-Carries plain_text plain_crypto all_up console ops_request (2 * hour)
      ops_principal refl

handle_delete_user_keeps_admin_example :
    1 ≤ admins (handle_delete_user all_up console api_key_principal "u1").0
handle_delete_user_keeps_admin_example =
    handle_delete_user_keeps_admin all_up console api_key_principal "u1" (staff-IsAccounts _)
      (leb→le 1 1 refl)

-- The guest has a session too, which dies with the account.
abbrev two_sessions : Server
two_sessions = record console {
  accounts = record {
    users = ("u1", ops_user) ∷ ("u2", guest_user) ∷ [];
    sessions =
        ("t1", ops_session) ∷ ("t2", record ops_session { token_hash = "t2"; user_id = "u2" }) ∷ [];
  };
}

handle_delete_user_signs_out_example : (ops_principal.user.id == "u2") ≡ false
unfolding handle_delete_user resolve_session lookup parse_role erase get_session get_user_by_id
    delete_user count_admins retain
handle_delete_user_signs_out_example =
    handle_delete_user_signs_out plain_text plain_crypto all_up all_up two_sessions ops_principal
      "u2" (some "t1") (2 * hour) ops_principal (staff-IsAccounts _) refl refl

abbrev wrong_password : Credentials
wrong_password = record { email = "ops@example.org"; password = "guessed" }

abbrev right_password : Credentials
right_password = record { email = "ops@example.org"; password = "correct horse battery" }

handle_login_refused_example :
    handle_login plain_text plain_crypto same_text all_up console
      (some wrong_password)
      (some "t9")
      (2 * hour)
    ≡ (console, login_failure)
unfolding normalize_email user_with_email
handle_login_refused_example =
    handle_login_refused plain_text plain_crypto same_text all_up console wrong_password (some "t9")
      (2 * hour) refl refl

handle_login_resolves_example :
    (resolve_session plain_text plain_crypto all_up
      (handle_login plain_text plain_crypto same_text all_up console
        (some right_password)
        (some "t9")
        (2 * hour)).0
      (some "t9")
      (2 * hour)).1
    ≡ some (record {
      user = record { id = "u1"; email = "ops@example.org"; role = admin };
      token_hash = "t9";
      via_cookie = true;
    })
unfolding handle_login normalize_email parse_role lookup get_user_by_email issue_session
    create_session touch_last_login insert
handle_login_resolves_example =
    handle_login_resolves plain_text plain_crypto same_text console right_password "t9" (2 * hour)
      (24 * hour) (720 * hour) 200 (record { id = "u1"; email = "ops@example.org"; role = admin })
      (some "t9") (staff-IsAccounts _) refl refl (omega arith) (omega arith) refl refl

handle_change_password_lem_example :
    (Option.map
        (λ u. u.password_hash)
        (lookup "u1"
          ((handle_change_password plain_text plain_crypto all_up console ops_principal
              (some ("correct horse battery", "a new pass phrase"))
              (some "salt")).0.accounts
            ).users)
      ≡ some "a new pass phrase")
    × (lookup "t1"
          ((handle_change_password plain_text plain_crypto all_up console ops_principal
              (some ("correct horse battery", "a new pass phrase"))
              (some "salt")).0.accounts
            ).sessions
        ≡ some ops_session)
unfolding handle_change_password lookup get_user_by_id hash_password update_password_hash
handle_change_password_lem_example =
    handle_change_password_lem plain_text plain_crypto console ops_principal "correct horse battery"
      "a new pass phrase" "salt" "t1" (staff-IsAccounts _) (refl, tt) refl

-- The cookie is used five hours later, and the idle window slides.
visits_limit_example : 9 * hour ≤ hour + 720 * hour
unfolding lookup visits resolve_session get_session get_user_by_id parse_role touch_session insert
visits_limit_example =
    visits_limit plain_text plain_crypto console
      (record { cookie = some "t1"; at = 6 * hour; up = all_up } ∷ []) all_up "t1" hour (9 * hour)
      ops_principal refl refl

-- Two administrators delete each other at the same moment: both checks pass before either deletion,
-- and none is left.
abbrev two_admins : Server
two_admins = record console {
  accounts = record {
    users =
        ("u1", ops_user) ∷ ("u3", record ops_user { id = "u3"; email = "dev@example.org" }) ∷ [];
    sessions = [];
  };
}

deletions_race :
    (last_admin true two_admins ops_user ≡ none)
    × (admins (remove_user true (remove_user true two_admins "u1").0 "u3").0 ≡ 0)
unfolding last_admin remove_user delete_user count_admins lookup erase
deletions_race = (refl, refl)
