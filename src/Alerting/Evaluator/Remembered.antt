-- ===== src/Alerting/Evaluator/Remembered.antt =====
-- internal/alerting/evaluator.go: what the samples before a transition were. A sample at `t` that breached
-- its rule, or did not, is remembered by the alert of its key through any later calls.
use sys_sentient.Models.{FloatOps, SystemState}
use sys_sentient.Alerting.Rule.{Rule, Alert, matches, metric_value}
use sys_sentient.Alerting.Evaluator.{
  AlertKey, ActiveMap, Evaluator, alert_key, known_rule, evaluate, eval_rules, eval_rule,
  next_alert, is_firing, is_pending,
}
use sys_sentient.Alerting.Evaluator.Frame.{at_key, lookup-store_alert, operator_lookups}
use sys_sentient.Alerting.Evaluator.Sound.{IsSound, eval_rules-IsSound}
use sys_sentient.Alerting.Evaluator.Refine.{eval_rules-append, eval_rule_at}
use sys_sentient.Alerting.Evaluator.History.{
  Input, sampled, acked, replaced, forgot, apply, run, apply-IsSound,
}
use sys_sentient.Prelude.{
  if◌then◌else◌, leb, leb→le, all, Bool-cases, Option-cases, leb_ℤ, ◌==◌, nat_key, string_key,
  ==_eq, lookup, Time, Duration, since, is_zero, ◌≤◌, ◌≡◌, refl, ap, ◌∙◌, inl, inr, Bool, true,
  false, not, ◌||◌, Option, none, some, List, [], ◌∷◌, ◌++◌, arith,
}

module _ {F : Type 0} (t : Time) where
  -- What an alert remembers of a sample at `t`: if it breached, the alert has begun to settle no
  -- earlier; if it did not, a pending alert was opened no earlier.
  abbrev pub remembers : Bool → Option (Alert F) → Bool
  remembers b none = true
  remembers true (some a) = is_zero a.clear_since || leb t a.clear_since
  remembers false (some a) = not (is_pending a.state) || leb t a.started_at

  module _ (d : Duration) (s : SystemState F) (now : Time) (r : Rule F) (v : F) where
    next_alert-remembers :
        (b c : Bool) (o : Option (Alert F))
        → t ≤ now
        → remembers b o ≡ true
        → remembers b (next_alert d s now r v c o).0 ≡ true
    unfolding next_alert
    next_alert-remembers true true none le h = ground arith
    next_alert-remembers true true (some a) le h = ground arith
    next_alert-remembers true false none le h = refl
    next_alert-remembers true false (some a) le h = ground arith
    next_alert-remembers false true none le h = ground arith
    next_alert-remembers false true (some a) le h = ground arith
    next_alert-remembers false false none le h = refl
    next_alert-remembers false false (some a) le h = ground arith

    -- A firing under a rule that did not hold at `t`, or a resolution of one that did.
    pub next_alert_held :
        (b c : Bool) (o : Option (Alert F)) (a : Alert F)
        → t ≤ now
        → remembers b o ≡ true
        → (next_alert d s now r v c o).1 ≡ some a
        → (if is_firing a.state
            then b || leb_ℤ r.for (since now t)
            else not b || leb_ℤ d (since now t))
          ≡ true
    unfolding next_alert
    next_alert_held true true none a le h e = ground arith
    next_alert_held true true (some x) a le h e = ground arith
    next_alert_held true false none a le h e = cc
    next_alert_held true false (some x) a le h e = ground arith
    next_alert_held false true none a le h e = ground arith
    next_alert_held false true (some x) a le h e = ground arith
    next_alert_held false false none a le h e = cc
    next_alert_held false false (some x) a le h e = ground arith

next_alert_notes :
    {F : Type 0} (d : Duration) (s : SystemState F) (now : Time) (r : Rule F) (v : F) (b : Bool)
    (o : Option (Alert F))
    → remembers now b (next_alert d s now r v b o).0 ≡ true
unfolding next_alert
next_alert_notes d s now r v true none = ground arith
next_alert_notes d s now r v true (some a) = ground arith
next_alert_notes d s now r v false none = refl
next_alert_notes d s now r v false (some a) = ground arith

module _ {F : Type 0} (ops : FloatOps F) (t : Time) (b : Bool) (k : AlertKey) where
  -- The map's alert at the key remembers the sample.
  abbrev pub Remembers : ActiveMap F → Type 0
  Remembers m = remembers t b (lookup k m) ≡ true

  module _ (d : Duration) (s : SystemState F) (now : Time) (le : t ≤ now) where
    pub eval_rule-Remembers :
        (r : Rule F) (m : ActiveMap F) (out : List (Alert F))
        → Remembers m
        → Remembers (eval_rule ops d s now r (m, out)).0
    unfolding eval_rule
    eval_rule-Remembers r m out h = elim (Bool-cases r.enabled) [
      | inr off ↦ rw off h
      | inl on ↦ elim (Option-cases (metric_value ops s r.metric)) [
        | inl e ↦ rw (on, e) h
        | inr (v, e) ↦
            let key = at_key s.host_id r.id in
            let c = matches ops r v in
            let step = next_alert d s now r v c (lookup key m) in
            rw (on, e)
              (rw (lookup-store_alert key k step.0 m) (elim (Bool-cases (key == k)) [
                | inr other ↦ rw other h
                | inl same ↦ rw same (
                    next_alert-remembers t d s now r v b c (lookup key m) le
                      (ap (λ j. remembers t b (lookup j m)) (==_eq key k same) ∙ h))
              ]))
      ]
    ]

    eval_rules-Remembers :
        (rs : List (Rule F)) (acc : ActiveMap F × List (Alert F))
        → Remembers acc.0
        → Remembers (eval_rules ops d s now rs acc).0
    unfolding eval_rules
    eval_rules-Remembers [] acc h = h
    eval_rules-Remembers (r ∷ rs) (m, out) h =
        eval_rules-Remembers rs (eval_rule ops d s now r (m, out)) (eval_rule-Remembers r m out h)

-- No sample of the history is before `t`.
abbrev pub is_since : {F : Type 0} → Time → Input F → Bool
is_since t (sampled s now) = leb t now
is_since t _ = true

module _ {F : Type 0} (ops : FloatOps F) where
  apply-Remembers :
      (t : Time) (b : Bool) (k : AlertKey) (e : Evaluator F) (i : Input F)
      → is_since t i ≡ true
      → remembers t b (lookup k e.active) ≡ true
      → remembers t b (lookup k (apply ops e i).0.active) ≡ true
  unfolding apply evaluate
  apply-Remembers t b k e (sampled s now) le h =
      eval_rules-Remembers ops t b k e.resolve_after s now (leb→le t now le) e.rules (e.active, [])
        h
  apply-Remembers t true k e (acked host rule) le h =
      ground (arith, operator_lookups e [] host rule k)
  apply-Remembers t false k e (acked host rule) le h =
      ground (arith, operator_lookups e [] host rule k)
  apply-Remembers t b k e (replaced rules) le h =
      let found = (operator_lookups e rules "" "" k).0 in
      rw found (elim (Bool-cases (known_rule rules k.rule_id)) [ inl q ↦ rw q h | inr q ↦ rw q ])
  apply-Remembers t b k e (forgot host) le h =
      let found = (operator_lookups e [] host "" k).1 in
      rw found (elim (Bool-cases (k.host_id == host)) [ inl q ↦ rw q | inr q ↦ rw q h ])

  pub run-Remembers :
      (t : Time) (b : Bool) (k : AlertKey) (e : Evaluator F) (is : List (Input F))
      → all (is_since t) is ≡ true
      → remembers t b (lookup k e.active) ≡ true
      → remembers t b (lookup k (run ops e is).0.active) ≡ true
  unfolding run
  run-Remembers t b k e [] le h = h
  run-Remembers t b k e (i ∷ is) le h =
      run-Remembers t b k (apply ops e i).0 is (ground arith)
        (apply-Remembers t b k e i (ground arith) h)

  pub run-IsSound :
      (e : Evaluator F) (is : List (Input F)) → IsSound e.active → IsSound (run ops e is).0.active
  unfolding run
  run-IsSound e [] h = h
  run-IsSound e (i ∷ is) h = run-IsSound (apply ops e i).0 is (apply-IsSound ops e i h)

  pub evaluate-IsSound :
      (e : Evaluator F) (s : SystemState F) (now : Time)
      → IsSound e.active
      → IsSound (evaluate ops e s now).0.active
  unfolding evaluate
  evaluate-IsSound e s now h = eval_rules-IsSound ops e.resolve_after s now e.rules (e.active, []) h

  pub evaluate_notes :
      (e : Evaluator F) (s : SystemState F) (t : Time) (xs ys : List (Rule F)) (r : Rule F) (v : F)
      → e.rules ≡ xs ++ r ∷ ys
      → r.enabled ≡ true
      → metric_value ops s r.metric ≡ some v
      → remembers t (matches ops r v) (lookup (at_key s.host_id r.id) (evaluate ops e s t).0.active)
        ≡ true
  unfolding evaluate eval_rules
  evaluate_notes e s t xs ys r v p on q =
      let d = e.resolve_after in
      let key = at_key s.host_id r.id in
      let b = matches ops r v in
      let acc : ActiveMap F × List (Alert F) = (e.active, []) in
      let mid = eval_rules ops d s t xs acc in
      rw (p, eval_rules-append ops d s t xs (r ∷ ys) acc)
        (eval_rules-Remembers ops t b key d s t (leb→le t t (ground arith)) ys
          (eval_rule ops d s t r mid)
          (ap (remembers t b) (eval_rule_at ops d s t r v mid on q)
            ∙ next_alert_notes d s t r v b (lookup key mid.0)))
