-- ===== src/Storage/Fleet/History.antt =====
-- internal/storage/agents.go: calls on the two tables in any order, and what an UPDATE keeps.

use mathlib.Core.Option
use sys_sentient.Storage.Fleet.{
  Fleet, JoinToken, Agent, update_rows, create_join_token, redeem_join_token, touch_agent,
  revoke_agent, prune_expired_join_tokens,
}
use sys_sentient.Prelude.{
  if◌then◌else◌, Bool-cases, Option-cases, is_some, ◌==◌, nat_key, string_key, lookup, retain, Time,
  ℕ, String, ◌≡◌, refl, ap, ◌∙◌, inl, inr, Bool, true, false, Option, none, some, List, [], ◌∷◌,
  arith,
}

module _ {V : Type 0} where
  abbrev pub updated : (V → Bool) → (V → V) → V → V
  updated p f v = if p v then f v else v

  pub lookup-update_rows :
      (p : V → Bool) (f : V → V) (k : String) (m : List (String × V))
      → lookup k (update_rows p f m) ≡ Option.map (updated p f) (lookup k m)
  unfolding lookup update_rows
  lookup-update_rows p f k [] = refl
  lookup-update_rows p f k ((j, v) ∷ m) = elim (Bool-cases (j == k)) [
    | inl e ↦ rw e refl
    | inr e ↦ rw e (lookup-update_rows p f k m)
  ]

  pub lookup-retain_kept :
      (p : String → V → Bool) (k : String) (v : V) (m : List (String × V))
      → lookup k m ≡ some v
      → ((j : String) → p j v ≡ true)
      → lookup k (retain p m) ≡ some v
  unfolding lookup retain
  lookup-retain_kept p k v [] h q = cc
  lookup-retain_kept p k v ((j, w) ∷ m) h q = elim (Bool-cases (j == k)) [
    | inl e ↦
        let same : w ≡ v = ground arith in
        let kept : p j w ≡ true = ap (p j) same ∙ q j in rw (kept, e) (ap some same)
    | inr e ↦
        let ih = lookup-retain_kept p k v m (ground arith) q in
        elim (Bool-cases (p j w)) [ inl r ↦ rw (r, e) ih | inr r ↦ rw r ih ]
  ]

abbrev pub used : Option JoinToken → Bool
used none = false
used (some t) = is_some t.redeemed_at

abbrev pub withdrawn : Option Agent → Bool
withdrawn none = false
withdrawn (some a) = is_some a.revoked_at

-- Calls on the two tables; each carries the arguments of its function.
pub data FleetCall : Type 0 where
  issues : Bool → String → String → String → String → Time → Time → FleetCall
  redeems : (ℕ → Bool) → String → String → String → String → String → String → Time → FleetCall
  touches : Bool → String → String → String → Time → FleetCall
  revokes : Bool → String → Time → FleetCall
  prunes : Bool → Time → FleetCall

unfoldable pub call : Fleet → FleetCall → Fleet
call db (issues up id hash label by now expires) =
    (create_join_token up db id hash label by now expires).0
call db (redeems up hash agent_id key host name version now) =
    (redeem_join_token up db hash agent_id key host name version now).0
call db (touches up id name version now) = (touch_agent up db id name version now).0
call db (revokes up id now) = (revoke_agent up db id now).0
call db (prunes up now) = (prune_expired_join_tokens up db now).0

unfoldable pub calls : Fleet → List FleetCall → Fleet
calls db [] = db
calls db (c ∷ cs) = calls (call db c) cs

-- An update that leaves a field set leaves it set in every row.
pub used-update_rows :
    (p : JoinToken → Bool) (f : JoinToken → JoinToken) (h : String) (m : List (String × JoinToken))
    → ((t : JoinToken) → is_some t.redeemed_at ≡ true → is_some (f t).redeemed_at ≡ true)
    → used (lookup h m) ≡ true
    → used (lookup h (update_rows p f m)) ≡ true
used-update_rows p f h m sets u = elim (Option-cases (lookup h m)) [
  | inl e ↦ absurd (ground arith)
  | inr (t, e) ↦
      let there = lookup-update_rows p f h m ∙ ap (Option.map (updated p f)) e in
      rw there (elim (Bool-cases (p t)) [
        | inl q ↦ rw q (sets t (ground arith))
        | inr q ↦ rw q (ground arith)
      ])
]

pub withdrawn-update_rows :
    (p : Agent → Bool) (f : Agent → Agent) (k : String) (m : List (String × Agent))
    → ((a : Agent) → is_some a.revoked_at ≡ true → is_some (f a).revoked_at ≡ true)
    → withdrawn (lookup k m) ≡ true
    → withdrawn (lookup k (update_rows p f m)) ≡ true
withdrawn-update_rows p f k m sets u = elim (Option-cases (lookup k m)) [
  | inl e ↦ absurd (ground arith)
  | inr (a, e) ↦
      let there = lookup-update_rows p f k m ∙ ap (Option.map (updated p f)) e in
      rw there (elim (Bool-cases (p a)) [
        | inl q ↦ rw q (sets a (ground arith))
        | inr q ↦ rw q (ground arith)
      ])
]
