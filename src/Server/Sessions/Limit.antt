-- ===== src/Server/Sessions/Limit.antt =====
-- internal/server/session.go: the absolute limit of a session, whatever is done with its cookie.
use sys_sentient.Server.Sessions.Resolve.{resolve_session-Names}
use sys_sentient.Auth.Password.{Crypto}
use sys_sentient.Auth.User.{TextOps}
use mathlib.Core.Option
use sys_sentient.Storage.Accounts.{
  get_session, delete_session, Accounts, SessionRecord, touch_session,
}
use sys_sentient.Server.Sessions.{
  Principal, resolve_session, resolve_hash, resolve_user, Server, slide,
}
use sys_sentient.Prelude.{
  sym, if◌then◌else◌, [], ◌≤◌, ap, ◌∷◌, ◌∙◌, List, erase, lookup-erase, ℕ, Bool-cases, Option-cases,
  ◌==◌, nat_key, string_key, ==_eq, lookup, lookup-insert, Time, add_time, String, ◌≡◌, refl, subst,
  ◌⊎◌, inl, inr, Bool, true, false, Option, none, some, arith,
}

-- When the session of a hash began, if it is recorded.
abbrev pub began : Accounts → String → Option Time
began db hash = Option.map (λ rec. rec.created_at) (lookup hash db.sessions)

began-touch_session :
    (up : Bool) (db : Accounts) (hash j : String) (seen until : Time)
    → began (touch_session up db hash seen until).0 j ≡ began db j
unfolding touch_session
began-touch_session false db hash j seen until = refl
began-touch_session true db hash j seen until = elim (Option-cases (lookup hash db.sessions)) [
  | inl e ↦ rw (e, touch_session) refl
  | inr (rec, e) ↦
      rw (e, touch_session)
        (rw (lookup-insert hash j _ db.sessions) (elim (Bool-cases (hash == j)) [
          | inr other ↦ rw other refl
          | inl same ↦
              let there : lookup j db.sessions ≡ some rec =
                subst (λ k. lookup k db.sessions ≡ some rec) (==_eq hash j same) e in
              rw (same, there) refl
        ]))
]

-- A server in which the session of a hash is gone or began when it did, under the same limit.
abbrev pub Follows : Server → String → Server → Type 0
Follows s hash s' =
    ((began s'.accounts hash ≡ none) ⊎ (began s'.accounts hash ≡ began s.accounts hash))
    × (s'.session_max ≡ s.session_max)

slide-Follows :
    (up : Bool) (s : Server) (hash j : String) (rec : SessionRecord) (now : Time)
    → Follows s j (slide up s hash rec now)
unfolding slide
slide-Follows up s hash j rec now =
    let kept = began-touch_session up s.accounts hash j now (add_time now s.session_idle) in
    ground arith

delete_session-Follows :
    (up : Bool) (s : Server) (hash j : String)
    → Follows s j (record s { accounts = (delete_session up s.accounts hash).0 })
unfolding delete_session
delete_session-Follows false s hash j = (inr refl, refl)
delete_session-Follows true s hash j =
    let erased = lookup-erase hash j (s.accounts).sessions in
    elim (Bool-cases (hash == j)) [
      | inl same ↦
          let gone : lookup j (erase hash (s.accounts).sessions) ≡ none =
            erased ∙ ap (λ b. if b then none else lookup j (s.accounts).sessions) same in
          (inl (rw gone refl), refl)
      | inr other ↦
          let kept : lookup j (erase hash (s.accounts).sessions) ≡ lookup j (s.accounts).sessions =
            erased ∙ ap (λ b. if b then none else lookup j (s.accounts).sessions) other in
          (inr (ap (Option.map (λ rec. rec.created_at)) kept), refl)
    ]

-- A request with a cookie at an instant, and which of its statements succeed.
pub record Visit : Type 0 where
  pub cookie : Option String
  pub at : Time
  pub up : ℕ → Bool

module _ (text : TextOps) (crypto : Crypto) where
  resolve_user-Follows :
      (up : ℕ → Bool) (s : Server) (hash j : String) (rec : SessionRecord) (now : Time)
      → Follows s j (resolve_user text crypto up s hash rec now).0
  unfolding resolve_user
  resolve_user-Follows up s hash j rec now =
      let slid = slide-Follows (up 3) s hash j rec now in ground arith

  resolve_hash-Follows :
      (up : ℕ → Bool) (s : Server) (hash j : String) (now : Time)
      → Follows s j (resolve_hash text crypto up s hash now).0
  unfolding resolve_hash get_session
  resolve_hash-Follows up s hash j now =
      let ended = delete_session-Follows (up 1) s hash j in
      elim (Option-cases (lookup hash (s.accounts).sessions)) [
        | inl e ↦ ground arith
        | inr (rec, e) ↦ let resolved = resolve_user-Follows up s hash j rec now in ground arith
      ]

  resolve_session-Follows :
      (up : ℕ → Bool) (s : Server) (cookie : Option String) (j : String) (now : Time)
      → Follows s j (resolve_session text crypto up s cookie now).0
  unfolding resolve_session
  resolve_session-Follows up s none j now = (inr refl, refl)
  resolve_session-Follows up s (some token) j now =
      let there = resolve_hash-Follows up s (crypto.sha256 token) j now in ground arith

  -- The server after requests in turn.
  unfoldable pub visits : Server → List Visit → Server
  visits s [] = s
  visits s (v ∷ vs) = visits (resolve_session text crypto v.up s v.cookie v.at).0 vs

  Follows-trans :
      (s s' s'' : Server) (j : String) → Follows s j s' → Follows s' j s'' → Follows s j s''
  Follows-trans s s' s'' j a b = ground arith

  visits-Follows : (s : Server) (vs : List Visit) (j : String) → Follows s j (visits s vs)
  unfolding visits
  visits-Follows s [] j = (inr refl, refl)
  visits-Follows s (v ∷ vs) j =
      let s' = (resolve_session text crypto v.up s v.cookie v.at).0 in
      Follows-trans s s' (visits s' vs) j (resolve_session-Follows v.up s v.cookie j v.at)
        (visits-Follows s' vs j)

  -- Whatever cookies have been presented before, when, and with whatever faults: a session that began
  -- at an instant resolves no later than that instant and the absolute limit.
  pub visits_limit :
      (s : Server) (vs : List Visit) (up : ℕ → Bool) (token : String) (start now : Time)
      (p : Principal)
      → began s.accounts (crypto.sha256 token) ≡ some start
      → (resolve_session text crypto up (visits s vs) (some token) now).1 ≡ some p
      → now ≤ add_time start s.session_max
  visits_limit s vs up token start now p b h =
      let f = visits-Follows s vs (crypto.sha256 token) in
      let s' = visits s vs in
      let n = resolve_session-Names text crypto up s' (some token) now p h in
      let sent : token ≡ n.token = (ground (arith, n.sent)) in
      let here : began s'.accounts (crypto.sha256 token) ≡ some (n.session).created_at =
        ap (λ k. began s'.accounts (crypto.sha256 k)) sent
        ∙ ap (Option.map (λ rec. rec.created_at)) n.recorded in
      let start_here : start ≡ (n.session).created_at = elim f.0 [
        | inl gone ↦ absurd (cc)
        | inr same ↦ (ground (arith, sym b ∙ sym same ∙ here))
      ] in
      subst (λ d. now ≤ add_time start d) f.1
        (subst (λ t. now ≤ add_time t s'.session_max) (sym start_here) n.in_max)
