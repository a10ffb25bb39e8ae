-- ===== src/Server/AccountHandlers/Login.antt =====
-- internal/server/auth_handlers.go with session.go: what a login answers, and what its cookie is good
-- for.
use sys_sentient.Server.Sessions.Resolve.{resolve_session_named, Names, all_up}
use sys_sentient.Storage.SqlTime.{millisecond, sql_time}
use sys_sentient.Storage.Accounts.{
  got, UserRecord, user_with_email, get_user_by_email, or_not_found,
}
use sys_sentient.Storage.Accounts.Counts.{IsAccounts}
use sys_sentient.Auth.User.{Role, parse_role, User, TextOps, normalize_email}
use sys_sentient.Auth.Password.{Crypto, verify_password}
use sys_sentient.Server.Sessions.{Principal, resolve_session, principal_of, session_of, Server}
use sys_sentient.Server.AccountHandlers.{
  signed_in, sign_in, login_failure, Credentials, login_user, handle_login,
}
use sys_sentient.Prelude.{
  add_time, ◌-◌, pos, ◌+◌, ◌≤◌, is_some, sym, ◌∙◌, ap, Bool-cases, Option-cases, ◌==◌, nat_key,
  string_key, Time, ℕ, String, ◌≡◌, refl, subst, inl, inr, Bool, true, false, Option, none, some,
  arith,
}
use sys_sentient.Server.AccountHandlers.SignIn.{
  with_email_lookup, stored, sign_in_started, sign_in-SignsIn,
}

module _ (text : TextOps) (crypto : Crypto) (nocase : String → String → Bool) where
  -- Whether there is an account with the address, and its password is the one given.
  abbrev pub fits_account : String → Option UserRecord → Bool
  fits_account password none = false
  fits_account password (some u) = verify_password crypto u.password_hash password

  abbrev pub credentials_fit : Server → Credentials → Bool
  credentials_fit s r = elim (normalize_email text r.email) [
    | none ↦ false
    | some email ↦ fits_account r.password (user_with_email nocase email (s.accounts).users)
  ]

  -- If the account can be looked for, every login whose credentials do not fit is answered alike and
  -- changes nothing, whether the address is malformed, unknown or known with another password.
  pub handle_login_refused :
      (up : ℕ → Bool) (s : Server) (r : Credentials) (token : Option String) (now : Time)
      → up 0 ≡ true
      → credentials_fit s r ≡ false
      → handle_login text crypto nocase up s (some r) token now ≡ (s, login_failure)
  unfolding handle_login login_user get_user_by_email
  handle_login_refused up s r token now u h = elim (Option-cases (normalize_email text r.email)) [
    | inl e ↦ ground arith
    | inr (email, e) ↦ elim (Option-cases (user_with_email nocase email (s.accounts).users)) [
      | inl q ↦ ground arith
      | inr (account, q) ↦ ground arith
    ]
  ]

idle_after : (now : Time) (idle : ℕ) → millisecond ≤ idle → now ≤ sql_time (now + idle - 0)
idle_after now idle h = omega arith

max_after : (now : Time) (limit : ℕ) → millisecond ≤ limit → now ≤ sql_time now + limit - 0
max_after now limit h = omega arith

abbrev identity : UserRecord → Role → User
identity u role = record { id = u.id; email = u.email; role = role }

identity_made :
    (text : TextOps) (hash : String) (u : UserRecord) (role : Role) (us : User)
    → parse_role text u.role ≡ some role
    → us ≡ identity u role
    → principal_of text hash u ≡ some (record { user = us; token_hash = hash; via_cookie = true })
unfolding principal_of
identity_made text hash u role us n same = rw (n, principal_of, same) refl

module _ (text : TextOps) (crypto : Crypto) (nocase : String → String → Bool) where
  handle_login_found :
      (s : Server) (r : Credentials) (t : String) (now : Time) (email : String) (u : UserRecord)
      → normalize_email text r.email ≡ some email
      → user_with_email nocase email (s.accounts).users ≡ some u
      → handle_login text crypto nocase all_up s (some r) (some t) now
        ≡ login_user text crypto nocase all_up s r.password (some t) now (got u)
  unfolding handle_login get_user_by_email
  handle_login_found s r t now email u e q =
      rw (e, handle_login)
        (ap
          (λ o.
            login_user text crypto nocase all_up s r.password (some t) now (or_not_found true o))
          q)

  login_user_accepted :
      (s : Server) (password t : String) (now : Time) (u : UserRecord) (role : Role) (st : ℕ)
      (us : User) (tok : Option String)
      → parse_role text u.role ≡ some role
      → (login_user text crypto nocase all_up s password (some t) now (got u)).1
        ≡ signed_in st us tok
      → login_user text crypto nocase all_up s password (some t) now (got u)
        ≡ sign_in crypto true true s (some t) 200 (identity u role) now
  unfolding login_user
  login_user_accepted s password t now u role st us tok n h =
      elim (Bool-cases (verify_password crypto u.password_hash password)) [
        | inr wrong ↦ absurd (ground arith)
        | inl right ↦ rw (right, n) refl
      ]

  login_user_refuses_role :
      (s : Server) (password t : String) (now : Time) (u : UserRecord) (st : ℕ) (us : User)
      (tok : Option String)
      → (login_user text crypto nocase all_up s password (some t) now (got u)).1
        ≡ signed_in st us tok
      → is_some (parse_role text u.role) ≡ true
  unfolding login_user
  login_user_refuses_role s password t now u st us tok h = ground arith

  -- A login that is answered with a user, with every statement done.
  login_accepted :
      (s : Server) (r : Credentials) (t : String) (now : Time) (st : ℕ) (us : User)
      (tok : Option String)
      → (handle_login text crypto nocase all_up s (some r) (some t) now).1 ≡ signed_in st us tok
      → (email : String) × (u : UserRecord) × (role : Role) × (user_with_email nocase email
            (s.accounts).users
          ≡ some u)
        × (parse_role text u.role ≡ some role)
        × (us ≡ identity u role)
        × (handle_login text crypto nocase all_up s (some r) (some t) now
            ≡ sign_in crypto true true s (some t) 200 (identity u role) now)
  unfolding handle_login get_user_by_email
  login_accepted s r t now st us tok h = elim (Option-cases (normalize_email text r.email)) [
    | inl e ↦ absurd (ground arith)
    | inr (email, e) ↦ elim (Option-cases (user_with_email nocase email (s.accounts).users)) [
      | inl q ↦ absurd (ground arith)
      | inr (u, q) ↦
          let found = handle_login_found s r t now email u e q in
          let h1 = ap (λ x. x.1) (sym found) ∙ h in
          let roled = login_user_refuses_role s r.password t now u st us tok h1 in
          elim (Option-cases (parse_role text u.role)) [
            | inl n ↦ absurd (ground arith)
            | inr (role, n) ↦
                let done = login_user_accepted s r.password t now u role st us tok n h1 in
                let h2 = ap (λ x. x.1) (sym done) ∙ h1 in
                let started = sign_in_started crypto s t 200 (identity u role) now st us tok h2 in
                (email, u, role, q, n, started.1, found ∙ done)
          ]
    ]
  ]

  -- In a table whose rows stand under their own, distinct ids, and after a login that is answered with a
  -- user, with every statement done: the cookie that it sets resolves at once to that user, if the token
  -- is not empty and the idle window and the absolute limit are a millisecond or more.
  pub handle_login_resolves :
      (s : Server) (r : Credentials) (t : String) (now : Time) (idle limit : ℕ) (st : ℕ) (us : User)
      (tok : Option String)
      → IsAccounts s.accounts
      → s.session_idle ≡ pos idle
      → s.session_max ≡ pos limit
      → millisecond ≤ idle
      → millisecond ≤ limit
      → (t == "") ≡ false
      → (handle_login text crypto nocase all_up s (some r) (some t) now).1 ≡ signed_in st us tok
      → (resolve_session text crypto all_up
          (handle_login text crypto nocase all_up s (some r) (some t) now).0
          (some t)
          now).1
        ≡ some (record { user = us; token_hash = crypto.sha256 t; via_cookie = true })
  handle_login_resolves s r t now idle limit st us tok v i m hi hm visible h =
      let (email, u, role, q, n, same, step) = login_accepted s r t now st us tok h in
      let who = identity u role in
      let there = with_email_lookup nocase email (s.accounts).users u v.keyed v.unique q in
      let h2 = ap (λ x. x.1) (sym step) ∙ h in
      let left = sign_in-SignsIn crypto s t 200 who now u st us tok there h2 in
      let s' = (sign_in crypto true true s (some t) 200 who now).0 in
      let hash = crypto.sha256 t in
      let p : Principal = record { user = us; token_hash = hash; via_cookie = true } in
      let made : principal_of text hash (record u { last_login_at = some (sql_time now) })
          ≡ some p =
        identity_made text hash (record u { last_login_at = some (sql_time now) }) role us n same in
      let names : Names text crypto s' (some t) now p = record {
        token = t;
        session = stored (session_of s hash u.id now);
        account = record u { last_login_at = some (sql_time now) };
        sent = refl;
        visible = visible;
        recorded = left.0;
        in_idle = subst (λ d. now ≤ sql_time (add_time now d)) (sym i) (idle_after now idle hi);
        in_max =
            subst (λ d. now ≤ add_time (sql_time now) d) (sym (left.2 ∙ m))
              (max_after now limit hm);
        owned = left.1;
        made = made;
      } in
      rw step (resolve_session_named text crypto s' (some t) now p names)
