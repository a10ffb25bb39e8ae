-- ===== src/Storage/Fleet/Invitation.antt =====
-- internal/storage/agents.go: an invitation that is spent stays spent, whatever calls follow.
use sys_sentient.Storage.SqlTime.{sql_time}
use mathlib.Core.Option
use sys_sentient.Storage.Fleet.{
  not_enrolled, Redeemed, enrolled, new_agent, exchange, Fleet, JoinToken, Agent, create_join_token,
  redeem_join_token, touch_agent, revoke_agent, prune_expired_join_tokens,
}
use sys_sentient.Prelude.{
  lookup-insert, ==_eq, ==_refl, sym, subst, ltb, not, ◌||◌, Bool-cases, Option-cases, is_some,
  ◌==◌, nat_key, string_key, lookup, Time, ℕ, String, ◌≡◌, refl, ap, ◌∙◌, inl, inr, Bool, true,
  false, Option, none, some, List, [], ◌∷◌, arith,
}
use sys_sentient.Storage.Fleet.History.{
  FleetCall, issues, redeems, touches, revokes, prunes, call, calls, used, used-update_rows,
  lookup-retain_kept, lookup-update_rows, updated,
}

used_there : (o : Option JoinToken) → used o ≡ true → is_some o ≡ true
used_there o u = ground arith

used-issues :
    (up : Bool) (db : Fleet) (id hash label by : String) (now expires : Time) (h : String)
    → used (lookup h db.join_tokens) ≡ true
    → used (lookup h ((create_join_token up db id hash label by now expires).0).join_tokens) ≡ true
unfolding create_join_token
used-issues up db id hash label by now expires h u = elim (Bool-cases (hash == h)) [
  | inl same ↦
      let there : used (lookup hash db.join_tokens) ≡ true =
        subst (λ k. used (lookup k db.join_tokens) ≡ true) (sym (==_eq hash h same)) u in
      let taken : is_some (lookup hash db.join_tokens) ≡ true = used_there _ there in ground arith
  | inr other ↦
      let inserted =
        lookup-insert hash h
          (record {
            id = id;
            label = label;
            created_at = sql_time now;
            expires_at = sql_time expires;
            created_by = by;
            redeemed_at = none;
            redeemed_by = "";
          })
          db.join_tokens in
      ground arith
]

used-exchange :
    (up : ℕ → Bool) (db : Fleet) (t : JoinToken) (key : String) (a : Agent) (now : Time)
    (h : String)
    → used (lookup h db.join_tokens) ≡ true
    → used (lookup h ((exchange up db t key a now).0).join_tokens) ≡ true
unfolding exchange
used-exchange up db t key a now h u =
    let set_stays =
      used-update_rows (λ w. w.id == t.id)
        (λ w. record w { redeemed_at = some (sql_time now); redeemed_by = a.host_id }) h
        db.join_tokens (λ w q. refl) u in
    ground arith

used-redeems :
    (up : ℕ → Bool) (db : Fleet) (hash id key host name version : String) (now : Time) (h : String)
    → used (lookup h db.join_tokens) ≡ true
    → used (lookup h ((redeem_join_token up db hash id key host name version now).0).join_tokens)
      ≡ true
unfolding redeem_join_token
used-redeems up db hash id key host name version now h u =
    elim (Option-cases (lookup hash db.join_tokens)) [
      | inl e ↦ ground arith
      | inr (t, e) ↦
          let exchanged =
            used-exchange up db t key (new_agent id host name t.label version now) now h u in
          ground arith
    ]

used-prunes :
    (up : Bool) (db : Fleet) (now : Time) (h : String)
    → used (lookup h db.join_tokens) ≡ true
    → used (lookup h ((prune_expired_join_tokens up db now).0).join_tokens) ≡ true
unfolding prune_expired_join_tokens
used-prunes false db now h u = u
used-prunes true db now h u = elim (Option-cases (lookup h db.join_tokens)) [
  | inl e ↦ absurd (ground arith)
  | inr (t, e) ↦
      let spent : is_some t.redeemed_at ≡ true = ground arith in
      let kept =
        lookup-retain_kept (λ k w. is_some w.redeemed_at || not (ltb w.expires_at (sql_time now))) h
          t db.join_tokens e (λ j. ground arith) in
      rw kept spent
]

used-call :
    (db : Fleet) (c : FleetCall) (h : String)
    → used (lookup h db.join_tokens) ≡ true
    → used (lookup h (call db c).join_tokens) ≡ true
unfolding call touch_agent revoke_agent
used-call db (issues up id hash label by now expires) h u =
    used-issues up db id hash label by now expires h u
used-call db (redeems up hash id key host name version now) h u =
    used-redeems up db hash id key host name version now h u
used-call db (touches up id name version now) h u = ground arith
used-call db (revokes up id now) h u = ground arith
used-call db (prunes up now) h u = used-prunes up db now h u

used-calls :
    (db : Fleet) (cs : List FleetCall) (h : String)
    → used (lookup h db.join_tokens) ≡ true
    → used (lookup h (calls db cs).join_tokens) ≡ true
unfolding calls
used-calls db [] h u = u
used-calls db (c ∷ cs) h u = used-calls (call db c) cs h (used-call db c h u)

exchange_spends :
    (up : ℕ → Bool) (db : Fleet) (t : JoinToken) (key : String) (a b : Agent) (now : Time)
    (h : String)
    → lookup h db.join_tokens ≡ some t
    → (exchange up db t key a now).1 ≡ enrolled b
    → used (lookup h ((exchange up db t key a now).0).join_tokens) ≡ true
unfolding exchange
exchange_spends up db t key a b now h e done =
    let there =
      lookup-update_rows (λ w. w.id == t.id)
        (λ w. record w { redeemed_at = some (sql_time now); redeemed_by = a.host_id }) h
        db.join_tokens
      ∙ ap
          (Option.map (
            updated (λ w. w.id == t.id)
              (λ w. record w { redeemed_at = some (sql_time now); redeemed_by = a.host_id })))
          e in
    ground (arith, ==_refl t.id)

redeem_spends :
    (up : ℕ → Bool) (db : Fleet) (hash id key host name version : String) (now : Time) (a : Agent)
    → (redeem_join_token up db hash id key host name version now).1 ≡ enrolled a
    → used (lookup hash ((redeem_join_token up db hash id key host name version now).0).join_tokens)
      ≡ true
unfolding redeem_join_token
redeem_spends up db hash id key host name version now a done =
    elim (Option-cases (lookup hash db.join_tokens)) [
      | inl e ↦ absurd (ground arith)
      | inr (t, e) ↦
          let spends =
            exchange_spends up db t key (new_agent id host name t.label version now) a now hash e in
          ground arith
    ]

abbrev pub is_enrolled : Redeemed → Bool
is_enrolled (enrolled a) = true
is_enrolled (not_enrolled e) = false

used_refused :
    (up : ℕ → Bool) (db : Fleet) (hash id key host name version : String) (now : Time)
    → used (lookup hash db.join_tokens) ≡ true
    → is_enrolled (redeem_join_token up db hash id key host name version now).1 ≡ false
unfolding redeem_join_token
used_refused up db hash id key host name version now u = ground arith

-- An invitation enrols one machine: once it has been redeemed, no later attempt with it enrols anyone,
-- whatever calls come between, whatever credentials it asks for, and whatever statements fail.
pub redeem_join_token_once :
    (up later : ℕ → Bool) (db : Fleet) (cs : List FleetCall)
    (hash id key host name version id' key' host' name' version' : String) (now next : Time)
    (a : Agent)
    → (redeem_join_token up db hash id key host name version now).1 ≡ enrolled a
    → is_enrolled
        (redeem_join_token later
          (calls (redeem_join_token up db hash id key host name version now).0 cs)
          hash
          id'
          key'
          host'
          name'
          version'
          next).1
      ≡ false
redeem_join_token_once up later db cs hash id key host name version id' key' host' name' version'
      now next a done =
    let db' = (redeem_join_token up db hash id key host name version now).0 in
    let spent = redeem_spends up db hash id key host name version now a done in
    used_refused later (calls db' cs) hash id' key' host' name' version' next
      (used-calls db' cs hash spent)
