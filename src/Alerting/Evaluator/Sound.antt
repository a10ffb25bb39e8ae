-- ===== src/Alerting/Evaluator/Sound.antt =====
-- internal/alerting/evaluator.go: what holds of the alerts that the evaluator keeps.
use sys_sentient.Models.{FloatOps, SystemState}
use sys_sentient.Alerting.Rule.{Rule, Alert, resolved, metric_value, matches}
use sys_sentient.Alerting.Evaluator.{
  AlertKey, ActiveMap, alert_key, next_alert, store_alert, eval_rule, eval_rules, is_pending,
}
use sys_sentient.Prelude.{
  Option-cases, not, ◌&&◌, ◌==◌, All, nat_key, string_key, lookup, Time, Duration, ◌≡◌, refl, ◌≢◌,
  inl, inr, Bool, true, false, Option, none, some, List, [], ◌∷◌, arith, All-insert, All-erase,
  lookup-All,
}

module _ {F : Type 0} where
  -- An alert stands at its own key, has not been resolved, and while it is pending it has neither
  -- fired nor begun to settle.
  pub record IsLive (p : AlertKey × Alert F) : Type 0 where
    pub of_host : (p.1).host_id ≡ (p.0).host_id
    pub of_rule : (p.1).rule_id ≡ (p.0).rule_id
    pub unresolved : (p.1).state ≢ resolved
    pub no_end : (p.1).resolved_at ≡ 0
    pub quiet :
        (is_pending (p.1).state && not ((p.1).fired_at == 0 && (p.1).clear_since == 0)) ≡ false

  abbrev pub IsSound : ActiveMap F → Type 0
  IsSound m = All IsLive m

  abbrev pub IsLiveOption : AlertKey → Option (Alert F) → Type 0
  IsLiveOption k none = Unit {0}
  IsLiveOption k (some a) = IsLive (k, a)

  pub next_alert-IsLive :
      (d : Duration) (s : SystemState F) (now : Time) (r : Rule F) (v : F) (b : Bool)
      (o : Option (Alert F)) (k : AlertKey)
      → k.host_id ≡ s.host_id
      → k.rule_id ≡ r.id
      → IsLiveOption k o
      → IsLiveOption k (next_alert d s now r v b o).0
  unfolding next_alert
  next_alert-IsLive d s now r v true none k p q h = ground arith
  next_alert-IsLive d s now r v true (some a) k p q h = ground arith
  next_alert-IsLive d s now r v false none k p q h = tt
  next_alert-IsLive d s now r v false (some a) k p q h = ground arith

  pub lookup-IsSound : (k : AlertKey) (m : ActiveMap F) → IsSound m → IsLiveOption k (lookup k m)
  lookup-IsSound k m h = elim (Option-cases (lookup k m)) [
    | inl e ↦ rw e tt
    | inr (a, e) ↦ rw e (lookup-All IsLive k a m h e)
  ]

  pub store_alert-IsSound :
      (k : AlertKey) (o : Option (Alert F)) (m : ActiveMap F)
      → IsLiveOption k o
      → IsSound m
      → IsSound (store_alert k o m)
  unfolding store_alert
  store_alert-IsSound k none m p h = All-erase IsLive k m h
  store_alert-IsSound k (some a) m p h = All-insert IsLive k a m p h

module _ {F : Type 0} (ops : FloatOps F) (d : Duration) (s : SystemState F) (now : Time) where
  pub eval_rule-IsSound :
      (r : Rule F) (m : ActiveMap F) (out : List (Alert F))
      → IsSound m
      → IsSound (eval_rule ops d s now r (m, out)).0
  unfolding eval_rule
  eval_rule-IsSound r m out h = elim (Option-cases (metric_value ops s r.metric)) [
    | inl e ↦ ground arith
    | inr (v, e) ↦
        let key : AlertKey = record { host_id = s.host_id; rule_id = r.id } in
        let step = next_alert d s now r v (matches ops r v) (lookup key m) in
        let live : IsLiveOption key step.0 =
          next_alert-IsLive d s now r v (matches ops r v) (lookup key m) key refl refl
            (lookup-IsSound key m h) in
        ground (arith, store_alert-IsSound key step.0 m live h)
  ]

  pub eval_rules-IsSound :
      (rs : List (Rule F)) (acc : ActiveMap F × List (Alert F))
      → IsSound acc.0
      → IsSound (eval_rules ops d s now rs acc).0
  unfolding eval_rules
  eval_rules-IsSound [] acc h = h
  eval_rules-IsSound (r ∷ rs) (m, out) h =
      eval_rules-IsSound rs (eval_rule ops d s now r (m, out)) (eval_rule-IsSound r m out h)
