-- ===== src/Alerting/Evaluator/Justify.antt =====
-- internal/alerting/evaluator.go: the instants that a transition carries, against its rule and the
-- settle time.
use sys_sentient.Alerting.Evaluator.Frame.{at_key}
use sys_sentient.Alerting.Evaluator.Sound.{lookup-IsSound, eval_rule-IsSound, IsSound, IsLiveOption}
use sys_sentient.Alerting.Evaluator.Balance.{is_resolved}
use sys_sentient.Models.{FloatOps, SystemState}
use sys_sentient.Alerting.Rule.{matches, metric_value, Rule, Alert}
use sys_sentient.Alerting.Evaluator.{
  evaluate, emit, AlertKey, ActiveMap, Evaluator, eval_rules, eval_rule, next_alert, is_firing,
  alert_key,
}
use sys_sentient.Prelude.{
  All-append, Counts, Counts-self, lookup, Option-cases, inl, inr, Bool-cases, if◌then◌else◌, any,
  All, leb_ℤ, ◌==◌, nat_key, string_key, ==_refl, Time, Duration, since, ◌≡◌, Bool, true, false,
  ◌&&◌, Option, none, some, List, [], ◌∷◌, arith,
}

module _ {F : Type 0} (d : Duration) (s : SystemState F) (now : Time) where
  -- An enabled rule with the transition's id, whose duration has passed since the start that a
  -- firing of this instant carries; or the settle time, since that of a resolution's clear period.
  abbrev pub justifies : Alert F → Rule F → Bool
  justifies a r =
      r.enabled
      && (r.id == a.rule_id
          && (a.host_id == s.host_id
              && (if is_firing a.state
                  then leb_ℤ r.for (since now a.started_at) && a.fired_at == now
                  else is_resolved a.state
                    && (leb_ℤ d (since now a.clear_since) && a.resolved_at == now))))

  pub next_alert_justified :
      (r : Rule F) (v : F) (b : Bool) (o : Option (Alert F)) (a : Alert F)
      → IsLiveOption (at_key s.host_id r.id) o
      → r.enabled ≡ true
      → (next_alert d s now r v b o).1 ≡ some a
      → justifies a r ≡ true
  unfolding next_alert
  next_alert_justified r v true none a h on e = ground (arith, ==_refl s.host_id, ==_refl r.id)
  next_alert_justified r v true (some x) a h on e = ground (arith, ==_refl s.host_id, ==_refl r.id)
  next_alert_justified r v false none a h on e = cc
  next_alert_justified r v false (some x) a h on e = ground (arith, ==_refl s.host_id, ==_refl r.id)

  abbrev pub IsJustified : List (Rule F) → Alert F → Type 0
  IsJustified rules a = any (justifies a) rules ≡ true

module _ {F : Type 0} (ops : FloatOps F) (d : Duration) (s : SystemState F) (now : Time) where
  eval_rule-IsJustified :
      (rules : List (Rule F)) (r : Rule F) (m : ActiveMap F) (out : List (Alert F))
      → Counts rules r
      → IsSound m
      → All (IsJustified d s now rules) out
      → All (IsJustified d s now rules) (eval_rule ops d s now r (m, out)).1
  unfolding eval_rule
  eval_rule-IsJustified rules r m out among h j = elim (Bool-cases r.enabled) [
    | inr off ↦ rw off j
    | inl on ↦ elim (Option-cases (metric_value ops s r.metric)) [
      | inl e ↦ rw (on, e) j
      | inr (v, e) ↦
          let key : AlertKey = at_key s.host_id r.id in
          let b = matches ops r v in
          let step = next_alert d s now r v b (lookup key m) in
          let fits = next_alert_justified d s now r v b (lookup key m) in
          rw (on, e)
            (All-append (IsJustified d s now rules) out (emit step.1) j
              (elim (Option-cases step.1) [
                | inl q ↦ rw q tt
                | inr (a, q) ↦
                    rw q (among (justifies d s now a) (fits a (lookup-IsSound key m h) on q), tt)
              ]))
    ]
  ]

  eval_rules-IsJustified :
      (rules rs : List (Rule F)) (m : ActiveMap F) (out : List (Alert F))
      → All (Counts rules) rs
      → IsSound m
      → All (IsJustified d s now rules) out
      → All (IsJustified d s now rules) (eval_rules ops d s now rs (m, out)).1
  unfolding eval_rules
  eval_rules-IsJustified rules [] m out among h j = j
  eval_rules-IsJustified rules (r ∷ rs) m out among h j =
      let (m', out') = eval_rule ops d s now r (m, out) in
      eval_rules-IsJustified rules rs m' out' among.1 (eval_rule-IsSound ops d s now r m out h)
        (eval_rule-IsJustified rules r m out among.0 h j)

module _ {F : Type 0} (ops : FloatOps F) where
  -- From a sound state every transition of a sample names its host and an enabled rule: a firing carries
  -- this instant, and a start at least that rule's duration before it; any other is a resolution that
  -- carries this instant, and a start of its clear period at least the settle time before it.
  pub evaluate-IsJustified :
      (e : Evaluator F) (s : SystemState F) (now : Time)
      → IsSound e.active
      → All (IsJustified e.resolve_after s now e.rules) (evaluate ops e s now).1
  unfolding evaluate
  evaluate-IsJustified e s now h =
      let d = e.resolve_after in
      eval_rules-IsJustified ops d s now e.rules e.rules e.active [] (Counts-self e.rules) h tt
