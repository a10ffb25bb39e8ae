-- ===== src/Alerting/Evaluator/Frame.antt =====
-- internal/alerting/evaluator.go: which alerts an operation can reach, and which it leaves alone.
use mathlib.Core.Option
use sys_sentient.Models.{FloatOps, SystemState}
use sys_sentient.Alerting.Rule.{Rule, Alert, metric_value, matches}
use sys_sentient.Alerting.Evaluator.{
  known_rule, forget_host, Evaluator, replace_rules, acknowledge, evaluate, AlertKey, ActiveMap,
  store_alert, next_alert, eval_rule, eval_rules, alert_key,
}
use sys_sentient.Prelude.{
  ◌∙◌, sym, Bool-cases, lookup-retain_key, ==_eq, not, ap, true, if◌then◌else◌, Option-cases,
  is_some, any, ◌==◌, nat_key, string_key, lookup, lookup-insert, lookup-erase, Time, Duration,
  String, ◌≡◌, refl, ◌≢◌, ◌⊎◌, inl, inr, Bool, false, ◌&&◌, Option, none, some, List, [], ◌∷◌,
  arith,
}

abbrev pub at_key : String → String → AlertKey
at_key host rule = record { host_id = host; rule_id = rule }

module _ {F : Type 0} where
  pub lookup-store_alert :
      (k j : AlertKey) (o : Option (Alert F)) (m : ActiveMap F)
      → lookup j (store_alert k o m) ≡ (if k == j then o else lookup j m)
  unfolding store_alert
  lookup-store_alert k j none m = lookup-erase k j m
  lookup-store_alert k j (some a) m = lookup-insert k j a m

  -- Whether some rule of the list with this id is evaluated against the sample.
  abbrev pub reads : FloatOps F → SystemState F → String → Rule F → Bool
  reads ops s id r = r.enabled && (r.id == id && is_some (metric_value ops s r.metric))

module _ {F : Type 0} (ops : FloatOps F) (d : Duration) (s : SystemState F) (now : Time) where
  -- A rule reaches only the alert at its own key, and only if it is evaluated.
  pub eval_rule_frame :
      (rule : Rule F) (k : AlertKey) (m : ActiveMap F) (out : List (Alert F))
      → (k.host_id ≢ s.host_id) ⊎ (reads ops s k.rule_id rule ≡ false)
      → lookup k (eval_rule ops d s now rule (m, out)).0 ≡ lookup k m
  unfolding eval_rule
  eval_rule_frame rule k m out h = elim (Option-cases (metric_value ops s rule.metric)) [
    | inl e ↦ ground arith
    | inr (v, e) ↦
        let key : AlertKey = at_key s.host_id rule.id in
        let step = next_alert d s now rule v (matches ops rule v) (lookup key m) in
        ground (
          arith,
          lookup-store_alert key k step.0 m,
          string_key.same_iff s.host_id k.host_id,
          string_key.same_iff rule.id k.rule_id,
        )
  ]

  pub eval_rules_frame :
      (rules : List (Rule F)) (k : AlertKey) (acc : ActiveMap F × List (Alert F))
      → (k.host_id ≢ s.host_id) ⊎ (any (reads ops s k.rule_id) rules ≡ false)
      → lookup k (eval_rules ops d s now rules acc).0 ≡ lookup k acc.0
  unfolding eval_rules
  eval_rules_frame [] k acc h = refl
  eval_rules_frame (rule ∷ rest) k (m, out) h = ground (
    arith,
    eval_rule_frame rule k m out,
    eval_rules_frame rest k (eval_rule ops d s now rule (m, out)),
  )

module _ {F : Type 0} (ops : FloatOps F) where
  -- A sample leaves every alert of another host as it was, and also every alert of its own host
  -- under an id that no enabled rule with an available metric has.
  pub evaluate_frame :
      (e : Evaluator F) (s : SystemState F) (now : Time) (k : AlertKey)
      → (k.host_id ≢ s.host_id) ⊎ (any (reads ops s k.rule_id) e.rules ≡ false)
      → lookup k (evaluate ops e s now).0.active ≡ lookup k e.active
  unfolding evaluate
  evaluate_frame e s now k h = eval_rules_frame ops e.resolve_after s now e.rules k (e.active, []) h

module _ {F : Type 0} where
  abbrev pub silenced : Alert F → Alert F
  silenced a = record a { acknowledged = true }

  lookup-acknowledge :
      (e : Evaluator F) (host rule : String) (k : AlertKey)
      → lookup k (acknowledge e host rule).0.active ≡ (
          if at_key host rule == k
          then Option.map silenced (lookup k e.active)
          else lookup k e.active)
  unfolding acknowledge
  lookup-acknowledge e host rule k =
      let key = at_key host rule in
      let same = λ (q : (key == k) ≡ true). ap (λ j. lookup j e.active) (==_eq key k q) in
      elim (Option-cases (lookup key e.active)) [
        | inl q ↦
            rw (q, acknowledge)
              (elim (Bool-cases (key == k)) [
                | inl p ↦ rw p (let gone = sym (same p) ∙ q in rw gone)
                | inr p ↦ rw p
              ])
        | inr (a, q) ↦
            rw (q, acknowledge)
              (rw (lookup-insert key k (record a { acknowledged = true }) e.active)
                (elim (Bool-cases (key == k)) [
                  | inl p ↦ rw p (let there = sym (same p) ∙ q in rw there)
                  | inr p ↦ rw p
                ]))
      ]

  acknowledge_found :
      (e : Evaluator F) (host rule : String)
      → (acknowledge e host rule).1 ≡ is_some (lookup (at_key host rule) e.active)
  unfolding acknowledge
  acknowledge_found e host rule = elim (Option-cases (lookup (at_key host rule) e.active)) [
    | inl q ↦ rw (q, acknowledge)
    | inr (a, q) ↦ rw (q, acknowledge)
  ]

  -- The operator's calls, at every key: a new rule set drops the alerts of rules that are gone and
  -- no others, a forgotten host loses its alerts and no other host does, and an acknowledgement
  -- marks the one alert that it names.
  pub operator_lookups :
      (e : Evaluator F) (rules : List (Rule F)) (host rule : String) (k : AlertKey)
      → (lookup k (replace_rules e rules).active
          ≡ (if known_rule rules k.rule_id then lookup k e.active else none))
        × (lookup k (forget_host e host).active
            ≡ (if not (k.host_id == host) then lookup k e.active else none))
        × (lookup k (acknowledge e host rule).0.active ≡ (
            if at_key host rule == k
            then Option.map silenced (lookup k e.active)
            else lookup k e.active))
        × ((acknowledge e host rule).1 ≡ is_some (lookup (at_key host rule) e.active))
  unfolding replace_rules forget_host
  operator_lookups e rules host rule k = (
    lookup-retain_key (λ j. known_rule rules j.rule_id) k e.active,
    lookup-retain_key (λ j. not (j.host_id == host)) k e.active,
    lookup-acknowledge e host rule k,
    acknowledge_found e host rule,
  )
