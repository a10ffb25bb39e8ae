-- ===== src/Server/Sessions/Gate.antt =====
-- internal/server/auth.go: what requireAuth and requireAdmin let through.
use sys_sentient.Auth.User.{TextOps}
use sys_sentient.Auth.Password.{Crypto}
use sys_sentient.Server.Sessions.{
  Server, Principal, Request, Verdict, admits, rejects, insecure_principal, api_key_principal,
  api_key_from, valid_api_key, is_mutating, is_admin_role, authenticate, require_auth,
  require_admin, gate, admin_only, resolve_session,
}
use sys_sentient.Server.Sessions.Resolve.{Names, principal_of_made, resolve_session-Names}
use sys_sentient.Prelude.{
  Bool-cases, ◌==◌, nat_key, string_key, Time, ℕ, String, ◌≡◌, ◌⊎◌, inl, inr, Bool, true, false,
  not, ◌&&◌, Option, none, some, arith,
}

module _ (text : TextOps) (crypto : Crypto) where
  -- A request that carries this principal: the console is open, the key is right, or the cookie names
  -- an account and the request is no cross-site change.
  abbrev pub Carries : Server → Request → Time → Principal → Type 0
  Carries s r now p =
      ((s.insecure ≡ true) × (p ≡ insecure_principal))
      ⊎ (((valid_api_key crypto s.api_key (api_key_from r) ≡ true) × (p ≡ api_key_principal))
          ⊎ (Names text crypto s r.cookie now p
              × ((is_mutating r.method && text.equal_fold r.fetch_site "cross-site") ≡ false)))

  gate_admits :
      (r : Request) (o : Option Principal) (p : Principal)
      → gate text r o ≡ admits p
      → (o ≡ some p)
        × ((p.via_cookie && (is_mutating r.method && text.equal_fold r.fetch_site "cross-site"))
            ≡ false)
  unfolding gate
  gate_admits r none p h = ground arith
  gate_admits r (some q) p h = ground arith

  named_via_cookie :
      (s : Server) (cookie : Option String) (now : Time) (p : Principal)
      → Names text crypto s cookie now p
      → p.via_cookie ≡ true
  named_via_cookie s cookie now p n =
      (principal_of_made text (crypto.sha256 n.token) n.account p n.made).2

  authenticate-Carries :
      (up : ℕ → Bool) (s : Server) (r : Request) (now : Time) (p : Principal)
      → (authenticate text crypto up s r now).1 ≡ some p
      → (p.via_cookie && (is_mutating r.method && text.equal_fold r.fetch_site "cross-site"))
        ≡ false
      → Carries s r now p
  unfolding authenticate
  authenticate-Carries up s r now p h safe = elim (Bool-cases s.insecure) [
    | inl open_console ↦ inl (open_console, ground arith)
    | inr closed_console ↦
        elim (Bool-cases
          (not (api_key_from r == "") && valid_api_key crypto s.api_key (api_key_from r))) [
            | inl key ↦ inr (inl (ground arith, ground arith))
            | inr no_key ↦
                let found : (resolve_session text crypto up s r.cookie now).1 ≡ some p =
                  ground arith in
                let n = resolve_session-Names text crypto up s r.cookie now p found in
                inr (inr (n, ground (arith, named_via_cookie s r.cookie now p n)))
          ]
  ]

  admin_only_admits :
      (v : Verdict) (p : Principal)
      → admin_only v ≡ admits p
      → (v ≡ admits p) × (is_admin_role p.user.role ≡ true)
  admin_only_admits (admits q) p h = ground arith
  admin_only_admits (rejects status) p h = ground arith

  -- Whatever statements fail, an admin's handler runs for a principal only if that principal is an
  -- administrator whom the request carries: the console is open, the machine key is right, or the
  -- cookie names the account, as it now stands in the table, and the request is no cross-site change.
  pub require_admin-Carries :
      (up : ℕ → Bool) (s : Server) (r : Request) (now : Time) (p : Principal)
      → (require_admin text crypto up s r now).1 ≡ admits p
      → Carries s r now p × (is_admin_role p.user.role ≡ true)
  unfolding require_admin require_auth
  require_admin-Carries up s r now p h =
      let o = (authenticate text crypto up s r now).1 in
      let (passed, administrator) = admin_only_admits (gate text r o) p h in
      let (found, safe) = gate_admits r o p passed in
      (authenticate-Carries up s r now p found safe, administrator)
