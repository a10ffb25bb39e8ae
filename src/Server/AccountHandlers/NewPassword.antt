-- ===== src/Server/AccountHandlers/NewPassword.antt =====
-- internal/server/auth_handlers.go: what a change of password leaves behind.
use mathlib.Core.Option
use sys_sentient.Storage.Accounts.{
  UserRecord, SessionRecord, get_user_by_id, update_password_hash, delete_user_sessions,
}
use sys_sentient.Storage.Accounts.Counts.{IsAccounts}
use sys_sentient.Auth.User.{TextOps}
use sys_sentient.Auth.Password.{Crypto, hash_password}
use sys_sentient.Server.Sessions.{Server, Principal}
use sys_sentient.Server.Sessions.Resolve.{all_up}
use sys_sentient.Server.AccountHandlers.{no_content, handle_change_password}
use sys_sentient.Server.AccountHandlers.SignIn.{lookup-insert_self}
use sys_sentient.Prelude.{
  Option-cases, is_some, ◌==◌, nat_key, string_key, lookup, insert, retain, String, ◌≡◌, sym, ap,
  subst, ◌∙◌, inl, inr, Bool, true, false, not, ◌&&◌, some, arith, lookup-All, IsUnique, filtered,
  lookup-retain,
}

-- A session of another user, or the one that asks.
abbrev pub stays : String → String → String → SessionRecord → Bool
stays user_id keep k rec = not (rec.user_id == user_id && not (k == keep))

module _ (text : TextOps) (crypto : Crypto) where
  abbrev changed : Server → Principal → UserRecord → String → Server
  changed s p u hash = record s {
    accounts = record {
      users = insert u.id (record u { password_hash = hash }) (s.accounts).users;
      sessions = retain (stays u.id p.token_hash) (s.accounts).sessions;
    };
  }

  change_step :
      (s : Server) (p : Principal) (current wanted salt : String) (u : UserRecord)
      → lookup p.user.id (s.accounts).users ≡ some u
      → lookup u.id (s.accounts).users ≡ some u
      → (handle_change_password text crypto all_up s p (some (current, wanted)) (some salt)).1
        ≡ no_content false
      → (handle_change_password text crypto all_up s p (some (current, wanted)) (some salt)).0
        ≡ changed s p u (crypto.derive salt wanted)
  unfolding handle_change_password get_user_by_id update_password_hash delete_user_sessions
      hash_password
  change_step s p current wanted salt u e f h = ground arith

  change_found :
      (s : Server) (p : Principal) (current wanted salt : String)
      → (handle_change_password text crypto all_up s p (some (current, wanted)) (some salt)).1
        ≡ no_content false
      → is_some (lookup p.user.id (s.accounts).users) ≡ true
  unfolding handle_change_password get_user_by_id
  change_found s p current wanted salt h = ground arith

  -- In tables with distinct keys, the users' under their own ids, and after a change of password that
  -- was answered with success, with every statement done: the user's row holds the new password's hash,
  -- the user's sessions other than the one that asked are gone, and every other session is as it was.
  pub handle_change_password_lem :
      (s : Server) (p : Principal) (current wanted salt : String) (k : String)
      → IsAccounts s.accounts
      → IsUnique (s.accounts).sessions
      → (handle_change_password text crypto all_up s p (some (current, wanted)) (some salt)).1
        ≡ no_content false
      → let s' =
          (handle_change_password text crypto all_up s p (some (current, wanted)) (some salt)).0 in
        (Option.map (λ u. u.password_hash) (lookup p.user.id (s'.accounts).users)
          ≡ some (crypto.derive salt wanted))
        × (lookup k (s'.accounts).sessions
            ≡ filtered (stays p.user.id p.token_hash) k (lookup k (s.accounts).sessions))
  handle_change_password_lem s p current wanted salt k v unique h =
      elim (Option-cases (lookup p.user.id (s.accounts).users)) [
        | inl e ↦ absurd (ground (arith, change_found s p current wanted salt h))
        | inr (u, e) ↦
            let own : u.id ≡ p.user.id =
              lookup-All (λ x. (x.1).id ≡ x.0) p.user.id u (s.accounts).users v.keyed e in
            let e' = subst (λ i. lookup i (s.accounts).users ≡ some u) (sym own) e in
            let step = change_step s p current wanted salt u e e' h in
            let new = record u { password_hash = crypto.derive salt wanted } in
            let found = lookup-insert_self u.id new (s.accounts).users in
            rw step (
              ap
                    (λ i.
                      Option.map (λ w. w.password_hash)
                        (lookup i (insert u.id new (s.accounts).users)))
                    (sym own)
                  ∙ ap (Option.map (λ w. w.password_hash)) found,
              lookup-retain (stays u.id p.token_hash) k (s.accounts).sessions unique
                  ∙ ap (λ i. filtered (stays i p.token_hash) k (lookup k (s.accounts).sessions))
                      own,
            )
      ]
