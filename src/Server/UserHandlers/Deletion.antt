-- ===== src/Server/UserHandlers/Deletion.antt =====
-- internal/server/user_handlers.go: what handleDeleteUser leaves behind.
use sys_sentient.Server.Sessions.Resolve.{principal_of_made, resolve_session-Names}
use sys_sentient.Auth.Password.{Crypto}
use sys_sentient.Auth.User.{TextOps}
use sys_sentient.Storage.Accounts.{
  UserRecord, Answer, got, failed, count_if, is_admin, count_admins, delete_user, get_user_by_id,
}
use sys_sentient.Storage.Accounts.Counts.{IsAccounts, count_if-erase}
use sys_sentient.Server.Sessions.{resolve_session, Server, Principal}
use sys_sentient.Server.AccountHandlers.{no_content}
use sys_sentient.Server.UserHandlers.{last_admin, remove_user, delete_found, handle_delete_user}
use sys_sentient.Prelude.{
  ◌∙◌, ==_eq, sym, List, ==_refl, All-erase, lookup-All, lookup-erase, subst, Time, Option, ◌==◌,
  Bool-cases, if◌then◌else◌, Option-cases, nat_key, string_key, lookup, erase, ℕ, ◌+◌, ◌≤◌, ◌<◌,
  String, ◌≡◌, ◌⊎◌, inl, inr, Bool, true, false, none, some, arith,
}

abbrev pub admins : Server → ℕ
admins s = count_if is_admin (s.accounts).users

admins-remove_user :
    (up : Bool) (s : Server) (id : String) (target : UserRecord)
    → IsAccounts s.accounts
    → lookup id (s.accounts).users ≡ some target
    → admins s ≤ admins (remove_user up s id).0 + (if is_admin target then 1 else 0)
unfolding remove_user delete_user
admins-remove_user false s id target v e = omega arith
admins-remove_user true s id target v e =
    let counted = count_if-erase is_admin id target (s.accounts).users v.unique e in
    rw e (omega (arith, counted))

last_admin_passes :
    (up : Bool) (s : Server) (target : UserRecord)
    → last_admin up s target ≡ none
    → (is_admin target ≡ false) ⊎ (1 < admins s)
unfolding last_admin count_admins
last_admin_passes up s target h = ground arith

admins-delete_found :
    (up : ℕ → Bool) (s : Server) (id : String) (target : UserRecord)
    → IsAccounts s.accounts
    → lookup id (s.accounts).users ≡ some target
    → 1 ≤ admins s
    → 1 ≤ admins (delete_found up s id (got target)).0
unfolding delete_found
admins-delete_found up s id target v e some_admin =
    elim (Option-cases (last_admin (up 1) s target)) [
      | inr (r, q) ↦ rw (q, delete_found) some_admin
      | inl q ↦
          let removed = admins-remove_user (up 2) s id target v e in
          rw (q, delete_found)
            (elim (last_admin_passes (up 1) s target q) [
              | inl other ↦ ground arith
              | inr more ↦ ground arith
            ])
    ]

-- In a table whose rows stand under their own, distinct ids: whatever statements fail and whoever asks,
-- the machine key included, a deletion leaves an administrator where there was one.
pub handle_delete_user_keeps_admin :
    (up : ℕ → Bool) (s : Server) (p : Principal) (id : String)
    → IsAccounts s.accounts
    → 1 ≤ admins s
    → 1 ≤ admins (handle_delete_user up s p id).0
unfolding handle_delete_user delete_found get_user_by_id
handle_delete_user_keeps_admin up s p id v some_admin =
    elim (Option-cases (lookup id (s.accounts).users)) [
      | inl e ↦ ground arith
      | inr (target, e) ↦
          let kept = admins-delete_found up s id target v e some_admin in ground arith
    ]

remove_user_erases :
    (up : Bool) (s : Server) (id : String)
    → (remove_user up s id).1 ≡ no_content false
    → ((remove_user up s id).0.accounts).users ≡ erase id (s.accounts).users
unfolding remove_user delete_user
remove_user_erases up s id h = ground arith

delete_found_erases :
    (up : ℕ → Bool) (s : Server) (id : String) (answer : Answer UserRecord)
    → (delete_found up s id answer).1 ≡ no_content false
    → ((delete_found up s id answer).0.accounts).users ≡ erase id (s.accounts).users
unfolding delete_found last_admin
delete_found_erases up s id (failed e) h = ground arith
delete_found_erases up s id (got target) h = ground (arith, remove_user_erases (up 2) s id)

handle_delete_user_erases :
    (up : ℕ → Bool) (s : Server) (p : Principal) (id : String)
    → (handle_delete_user up s p id).1 ≡ no_content false
    → ((handle_delete_user up s p id).0.accounts).users ≡ erase id (s.accounts).users
unfolding handle_delete_user
handle_delete_user_erases up s p id h = elim (Bool-cases (id == p.user.id)) [
  | inl own ↦ absurd (ground arith)
  | inr other ↦
      let erased = delete_found_erases up s id (get_user_by_id (up 0) s.accounts id) in ground arith
]

erased_elsewhere :
    (id key : String) (m : List (String × UserRecord)) (u : UserRecord)
    → lookup key (erase id m) ≡ some u
    → (key == id) ≡ false
erased_elsewhere id key m u h = elim (Bool-cases (key == id)) [
  | inr e ↦ e
  | inl e ↦
      let at_id : lookup id (erase id m) ≡ some u =
        subst (λ k. lookup k (erase id m) ≡ some u) (==_eq key id e) h in
      let gone = lookup-erase id id m in
      let gone' : lookup id (erase id m) ≡ none = rw (==_refl id) at gone in absurd (cc)
]

module _ (text : TextOps) (crypto : Crypto) where
  -- In a table whose rows stand under their own, distinct ids, after a deletion that was answered with
  -- success, no cookie, at whatever later instant and whatever statements fail, resolves to the account
  -- that was deleted.
  pub handle_delete_user_signs_out :
      (up later : ℕ → Bool) (s : Server) (p : Principal) (id : String) (cookie : Option String)
      (now : Time) (q : Principal)
      → IsAccounts s.accounts
      → (handle_delete_user up s p id).1 ≡ no_content false
      → (resolve_session text crypto later (handle_delete_user up s p id).0 cookie now).1 ≡ some q
      → (q.user.id == id) ≡ false
  handle_delete_user_signs_out up later s p id cookie now q v done found =
      let s' = (handle_delete_user up s p id).0 in
      let erased = handle_delete_user_erases up s p id done in
      let n = resolve_session-Names text crypto later s' cookie now q found in
      let owner = (n.session).user_id in
      let there : lookup owner (erase id (s.accounts).users) ≡ some n.account =
        subst (λ m. lookup owner m ≡ some n.account) erased n.owned in
      let own : (n.account).id ≡ owner =
        lookup-All (λ e. (e.1).id ≡ e.0) owner n.account (erase id (s.accounts).users)
          (All-erase (λ e. (e.1).id ≡ e.0) id (s.accounts).users v.keyed) there in
      let made = (principal_of_made text (crypto.sha256 n.token) n.account q n.made).0 in
      erased_elsewhere id q.user.id (s.accounts).users n.account (
        subst (λ j. lookup j (erase id (s.accounts).users) ≡ some n.account) (sym (made ∙ own))
          there)
