-- ===== src/Storage/Fleet/Revocation.antt =====
-- internal/storage/agents.go: a revoked credential stays revoked, whatever calls follow.
use mathlib.Core.Option
use sys_sentient.Storage.SqlTime.{sql_time}
use sys_sentient.Storage.Fleet.{
  Fleet, JoinToken, Agent, create_join_token, redeem_join_token, exchange, new_agent, touch_agent,
  revoke_agent, is_active, prune_expired_join_tokens,
}
use sys_sentient.Storage.Fleet.History.{
  FleetCall, issues, redeems, touches, revokes, prunes, call, calls, withdrawn,
  withdrawn-update_rows, lookup-update_rows, updated,
}
use sys_sentient.Prelude.{
  Bool-cases, Option-cases, is_some, ◌==◌, nat_key, string_key, ==_refl, ==_eq, lookup,
  lookup-insert, Time, ℕ, String, ◌≡◌, refl, sym, ap, subst, ◌∙◌, inl, inr, Bool, true, false,
  Option, none, some, List, [], ◌∷◌, arith,
}

withdrawn_there : (o : Option Agent) → withdrawn o ≡ true → is_some o ≡ true
withdrawn_there o u = ground arith

withdrawn-exchange :
    (up : ℕ → Bool) (db : Fleet) (t : JoinToken) (key : String) (a : Agent) (now : Time)
    (k : String)
    → withdrawn (lookup k db.agents) ≡ true
    → withdrawn (lookup k ((exchange up db t key a now).0).agents) ≡ true
unfolding exchange
withdrawn-exchange up db t key a now k u = elim (Bool-cases (key == k)) [
  | inl same ↦
      let there : withdrawn (lookup key db.agents) ≡ true =
        subst (λ j. withdrawn (lookup j db.agents) ≡ true) (sym (==_eq key k same)) u in
      let taken : is_some (lookup key db.agents) ≡ true = withdrawn_there _ there in ground arith
  | inr other ↦
      let inserted = lookup-insert key k (record a { created_at = sql_time now }) db.agents in
      ground arith
]

withdrawn-redeems :
    (up : ℕ → Bool) (db : Fleet) (hash id key host name version : String) (now : Time) (k : String)
    → withdrawn (lookup k db.agents) ≡ true
    → withdrawn (lookup k ((redeem_join_token up db hash id key host name version now).0).agents)
      ≡ true
unfolding redeem_join_token
withdrawn-redeems up db hash id key host name version now k u =
    elim (Option-cases (lookup hash db.join_tokens)) [
      | inl e ↦ ground arith
      | inr (t, e) ↦
          let exchanged =
            withdrawn-exchange up db t key (new_agent id host name t.label version now) now k u in
          ground arith
    ]

withdrawn-touches :
    (up : Bool) (db : Fleet) (id name version : String) (now : Time) (k : String)
    → withdrawn (lookup k db.agents) ≡ true
    → withdrawn (lookup k ((touch_agent up db id name version now).0).agents) ≡ true
unfolding touch_agent
withdrawn-touches false db id name version now k u = u
withdrawn-touches true db id name version now k u =
    withdrawn-update_rows (λ a. a.id == id)
      (λ a. record a {
        last_seen_at = some (sql_time now);
        hostname = name;
        agent_version = version;
      })
      k db.agents (λ a h. h) u

withdrawn-revokes :
    (up : Bool) (db : Fleet) (id : String) (now : Time) (k : String)
    → withdrawn (lookup k db.agents) ≡ true
    → withdrawn (lookup k ((revoke_agent up db id now).0).agents) ≡ true
unfolding revoke_agent
withdrawn-revokes up db id now k u =
    let stays =
      withdrawn-update_rows (is_active id) (λ a. record a { revoked_at = some (sql_time now) }) k
        db.agents (λ a h. refl) u in
    ground arith

withdrawn-call :
    (db : Fleet) (c : FleetCall) (k : String)
    → withdrawn (lookup k db.agents) ≡ true
    → withdrawn (lookup k (call db c).agents) ≡ true
unfolding call create_join_token prune_expired_join_tokens
withdrawn-call db (issues up id hash label by now expires) k u = ground arith
withdrawn-call db (redeems up hash id key host name version now) k u =
    withdrawn-redeems up db hash id key host name version now k u
withdrawn-call db (touches up id name version now) k u =
    withdrawn-touches up db id name version now k u
withdrawn-call db (revokes up id now) k u = withdrawn-revokes up db id now k u
withdrawn-call db (prunes up now) k u = ground arith

pub withdrawn-calls :
    (db : Fleet) (cs : List FleetCall) (k : String)
    → withdrawn (lookup k db.agents) ≡ true
    → withdrawn (lookup k (calls db cs).agents) ≡ true
unfolding calls
withdrawn-calls db [] k u = u
withdrawn-calls db (c ∷ cs) k u = withdrawn-calls (call db c) cs k (withdrawn-call db c k u)

-- A revocation that succeeds withdraws the credential with the id.
pub revoke_agent_withdraws :
    (db : Fleet) (key : String) (a : Agent) (now : Time)
    → lookup key db.agents ≡ some a
    → (revoke_agent true db a.id now).1 ≡ none
    → withdrawn (lookup key ((revoke_agent true db a.id now).0).agents) ≡ true
unfolding revoke_agent
revoke_agent_withdraws db key a now e done =
    let there =
      lookup-update_rows (is_active a.id) (λ b. record b { revoked_at = some (sql_time now) }) key
        db.agents
      ∙ ap
          (Option.map
            (updated (is_active a.id) (λ b. record b { revoked_at = some (sql_time now) })))
          e in
    ground (arith, ==_refl a.id)
