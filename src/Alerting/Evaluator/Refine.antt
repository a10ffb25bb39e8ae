-- ===== src/Alerting/Evaluator/Refine.antt =====
-- internal/alerting/evaluator.go: the loop over the rules, at one rule.
use sys_sentient.Models.{FloatOps, SystemState}
use sys_sentient.Alerting.Rule.{Rule, Alert, metric_value, matches}
use sys_sentient.Alerting.Evaluator.{
  AlertKey, ActiveMap, alert_key, next_alert, eval_rule, eval_rules,
}
use sys_sentient.Alerting.Evaluator.Frame.{at_key, lookup-store_alert}
use sys_sentient.Prelude.{
  nat_key, string_key, ==_refl, lookup, Time, Duration, ◌≡◌, refl, true, some, List, [], ◌∷◌, ◌++◌,
  arith,
}

module _ {F : Type 0} (ops : FloatOps F) (d : Duration) (s : SystemState F) (now : Time) where
  pub eval_rules-append :
      (xs ys : List (Rule F)) (acc : ActiveMap F × List (Alert F))
      → eval_rules ops d s now (xs ++ ys) acc
        ≡ eval_rules ops d s now ys (eval_rules ops d s now xs acc)
  unfolding eval_rules
  eval_rules-append [] ys acc = refl
  eval_rules-append (x ∷ xs) ys acc = eval_rules-append xs ys (eval_rule ops d s now x acc)

  pub eval_rule_at :
      (r : Rule F) (v : F) (acc : ActiveMap F × List (Alert F))
      → r.enabled ≡ true
      → metric_value ops s r.metric ≡ some v
      → lookup (at_key s.host_id r.id) (eval_rule ops d s now r acc).0
        ≡ (next_alert d s now r v (matches ops r v) (lookup (at_key s.host_id r.id) acc.0)).0
  unfolding eval_rule
  eval_rule_at r v (m, out) on e =
      let key : AlertKey = at_key s.host_id r.id in
      let step = next_alert d s now r v (matches ops r v) (lookup key m) in
      ground (arith, lookup-store_alert key key step.0 m, ==_refl key)
