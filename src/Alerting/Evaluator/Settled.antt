-- ===== src/Alerting/Evaluator/Settled.antt =====
-- internal/alerting/evaluator.go: why a transition is reported. A firing has held for its rule's
-- duration, and a resolution has been clear for the settle time, as the samples before it tell.
use sys_sentient.Alerting.Evaluator.Remembered.{
  remembers, next_alert_held, eval_rule-Remembers, is_since, run-Remembers, run-IsSound,
  evaluate-IsSound, evaluate_notes,
}
use sys_sentient.Models.{FloatOps, SystemState}
use sys_sentient.Alerting.Rule.{Rule, Alert, matches, metric_value}
use sys_sentient.Alerting.Evaluator.{
  AlertKey, ActiveMap, Evaluator, alert_key, evaluate, eval_rules, eval_rule, next_alert, emit,
  is_firing,
}
use sys_sentient.Alerting.Evaluator.Frame.{at_key}
use sys_sentient.Alerting.Evaluator.Sound.{IsSound, lookup-IsSound, eval_rule-IsSound}
use sys_sentient.Alerting.Evaluator.Justify.{next_alert_justified}
use sys_sentient.Alerting.Evaluator.History.{Input, run}
use sys_sentient.Prelude.{
  if◌then◌else◌, Counts, Counts-self, any, all, All, All-append, Bool-cases, Option-cases, leb_ℤ,
  ◌==◌, nat_key, string_key, ==_eq, lookup, Time, Duration, since, ◌≤◌, ◌≡◌, ap, ◌∙◌, inl, inr,
  Bool, true, not, ◌&&◌, ◌||◌, some, List, [], ◌∷◌, ◌++◌, arith,
}

module _ {F : Type 0} (t : Time) (b : Bool) (k : AlertKey) (d : Duration) (now : Time) where
  -- An enabled rule with the transition's id: if the transition is a firing, the sample at `t` breached,
  -- or the rule's duration has passed since; if it is a resolution, the sample did not breach, or the
  -- settle time has passed since.
  abbrev pub held : Alert F → Rule F → Bool
  held a r =
      r.enabled
      && (r.id == a.rule_id
          && (if is_firing a.state
              then b || leb_ℤ r.for (since now t)
              else not b || leb_ℤ d (since now t)))

  abbrev pub is_at : Alert F → Bool
  is_at a = a.host_id == k.host_id && a.rule_id == k.rule_id

  abbrev pub IsHeld : List (Rule F) → Alert F → Type 0
  IsHeld rules a = (not (is_at a) || any (held a) rules) ≡ true

module _ {F : Type 0} (ops : FloatOps F) (t : Time) (b : Bool) (k : AlertKey) where
  module _ (d : Duration) (s : SystemState F) (now : Time) (le : t ≤ now) where
    emitted-IsHeld :
        (rules : List (Rule F)) (r : Rule F) (v : F) (m : ActiveMap F) (a : Alert F)
        → Counts rules r
        → IsSound m
        → remembers t b (lookup k m) ≡ true
        → r.enabled ≡ true
        → (next_alert d s now r v (matches ops r v) (lookup (at_key s.host_id r.id) m)).1 ≡ some a
        → IsHeld t b k d now rules a
    emitted-IsHeld rules r v m a counts sound h on e =
        let key = at_key s.host_id r.id in
        let c = matches ops r v in
        let named =
          next_alert_justified d s now r v c (lookup key m) a (lookup-IsSound key m sound) on e in
        elim (Bool-cases (is_at t b k d now a)) [
          | inr other ↦ rw other
          | inl here ↦
              let host : s.host_id ≡ k.host_id =
                ground (arith, ==_eq a.host_id s.host_id, ==_eq a.host_id k.host_id, named, here) in
              let id : r.id ≡ k.rule_id =
                ground (arith, ==_eq r.id a.rule_id, ==_eq a.rule_id k.rule_id, named, here) in
              let same : key ≡ k = ground (arith, host, id) in
              let h' : remembers t b (lookup key m) ≡ true =
                ap (λ j. remembers t b (lookup j m)) same ∙ h in
              let by_rule = next_alert_held t d s now r v b c (lookup key m) a le h' e in
              let passes : held t b k d now a r ≡ true = ground (arith, named, by_rule, on) in
              rw here (counts (held t b k d now a) passes)
        ]

    eval_rule-IsHeld :
        (rules : List (Rule F)) (r : Rule F) (m : ActiveMap F) (out : List (Alert F))
        → Counts rules r
        → IsSound m
        → remembers t b (lookup k m) ≡ true
        → All (IsHeld t b k d now rules) out
        → All (IsHeld t b k d now rules) (eval_rule ops d s now r (m, out)).1
    unfolding eval_rule
    eval_rule-IsHeld rules r m out counts sound h j = elim (Bool-cases r.enabled) [
      | inr off ↦ rw off j
      | inl on ↦ elim (Option-cases (metric_value ops s r.metric)) [
        | inl e ↦ rw (on, e) j
        | inr (v, e) ↦
            let step =
              next_alert d s now r v (matches ops r v) (lookup (at_key s.host_id r.id) m) in
            rw (on, e)
              (All-append (IsHeld t b k d now rules) out (emit step.1) j
                (elim (Option-cases step.1) [
                  | inl q ↦ rw q tt
                  | inr (a, q) ↦ rw q (emitted-IsHeld rules r v m a counts sound h on q, tt)
                ]))
      ]
    ]

    eval_rules-IsHeld :
        (rules rs : List (Rule F)) (m : ActiveMap F) (out : List (Alert F))
        → All (Counts rules) rs
        → IsSound m
        → remembers t b (lookup k m) ≡ true
        → All (IsHeld t b k d now rules) out
        → All (IsHeld t b k d now rules) (eval_rules ops d s now rs (m, out)).1
    unfolding eval_rules
    eval_rules-IsHeld rules [] m out counts sound h j = j
    eval_rules-IsHeld rules (r ∷ rs) m out counts sound h j =
        let (m', out') = eval_rule ops d s now r (m, out) in
        eval_rules-IsHeld rules rs m' out' counts.1 (eval_rule-IsSound ops d s now r m out sound)
          (eval_rule-Remembers ops t b k d s now le r m out h)
          (eval_rule-IsHeld rules r m out counts.0 sound h j)

module _ {F : Type 0} (ops : FloatOps F) where
  evaluate-IsHeld :
      (t : Time) (b : Bool) (k : AlertKey) (e : Evaluator F) (s : SystemState F) (now : Time)
      → t ≤ now
      → IsSound e.active
      → remembers t b (lookup k e.active) ≡ true
      → All (IsHeld t b k e.resolve_after now e.rules) (evaluate ops e s now).1
  unfolding evaluate
  evaluate-IsHeld t b k e s now le sound h =
      eval_rules-IsHeld ops t b k e.resolve_after s now le e.rules e.rules e.active []
        (Counts-self e.rules) sound h tt

  -- From a sound state: let a sample at `t` be tested against an enabled rule, then any samples not
  -- earlier than `t`, acknowledgements, new rule sets and forgotten hosts follow, and then a sample at
  -- `now`, not earlier than `t`. If the sample at `t` breached the rule, each resolution that the last
  -- sample reports for that host and rule comes at least the settle time after `t`. If it did not
  -- breach, each firing comes at least the duration of an enabled rule with that id after `t`.
  pub transitions_settled :
      (e : Evaluator F) (first s : SystemState F) (t now : Time) (is : List (Input F))
      (xs ys : List (Rule F)) (r : Rule F) (v : F)
      → IsSound e.active
      → e.rules ≡ xs ++ r ∷ ys
      → r.enabled ≡ true
      → metric_value ops first r.metric ≡ some v
      → all (is_since t) is ≡ true
      → t ≤ now
      → let e' = (run ops (evaluate ops e first t).0 is).0 in
        All
          (IsHeld t (matches ops r v) (at_key first.host_id r.id) e'.resolve_after now e'.rules)
          (evaluate ops e' s now).1
  transitions_settled e first s t now is xs ys r v sound p on q later le =
      let b = matches ops r v in
      let k = at_key first.host_id r.id in
      let past = (evaluate ops e first t).0 in
      let sound_past : IsSound past.active = evaluate-IsSound ops e first t sound in
      evaluate-IsHeld t b k (run ops past is).0 s now le (run-IsSound ops past is sound_past)
        (run-Remembers ops t b k past is later (evaluate_notes ops e first t xs ys r v p on q))
