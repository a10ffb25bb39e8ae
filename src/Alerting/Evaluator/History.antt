-- ===== src/Alerting/Evaluator/History.antt =====
-- internal/alerting/evaluator.go: whole histories of calls, samples and operator actions mixed.
use sys_sentient.Alerting.Evaluator.Frame.{eval_rules_frame, reads, at_key}
use sys_sentient.Alerting.Evaluator.Sound.{IsLive, eval_rules-IsSound, IsSound}
use sys_sentient.Alerting.Evaluator.Balance.{
  tally-append, eval_rules_balance, is_resolved, tally, is_open,
}
use sys_sentient.Models.{FloatOps, SystemState}
use sys_sentient.Alerting.Rule.{Rule, Alert}
use sys_sentient.Alerting.Evaluator.{
  replace_rules, acknowledge, evaluate, known_rule, alert_key, forget_host, AlertKey, new_evaluator,
  Evaluator, is_firing,
}
use sys_sentient.Prelude.{
  ◌&&◌, refl, all, Bool-cases, Option-cases, any, ◌==◌, nat_key, string_key, ==_eq, lookup,
  lookup-insert, Time, ◌+◌, String, ◌≡◌, sym, ap, ◌∙◌, inl, inr, Bool, true, false, not, List, [],
  ◌∷◌, ◌++◌, arith, All-insert, All-retain, lookup-All,
}

pub data Input (F : Type 0) : Type 0 where
  sampled : SystemState F → Time → Input F
  acked : String → String → Input F
  replaced : List (Rule F) → Input F
  forgot : String → Input F

module _ {F : Type 0} (ops : FloatOps F) where
  unfoldable pub apply : Evaluator F → Input F → Evaluator F × List (Alert F)
  apply e (sampled s now) = evaluate ops e s now
  apply e (acked host rule) = ((acknowledge e host rule).0, [])
  apply e (replaced rules) = (replace_rules e rules, [])
  apply e (forgot host) = (forget_host e host, [])

  -- The evaluator after a history, and every transition of it in order.
  unfoldable pub run : Evaluator F → List (Input F) → Evaluator F × List (Alert F)
  unfolding apply
  run e [] = (e, [])
  run e (i ∷ is) = let (e', out) = apply e i in let (e'', rest) = run e' is in (e'', out ++ rest)

  -- Every operation keeps the alerts live: each at its own key, none of them resolved, the pending
  -- ones with no time of firing and none of settling.
  pub apply-IsSound :
      (e : Evaluator F) (i : Input F) → IsSound e.active → IsSound (apply e i).0.active
  unfolding apply evaluate acknowledge replace_rules forget_host
  apply-IsSound e (sampled s now) h =
      eval_rules-IsSound ops e.resolve_after s now e.rules (e.active, []) h
  apply-IsSound e (acked host rule) h = elim (Option-cases (lookup (at_key host rule) e.active)) [
    | inl q ↦ rw (q, acknowledge) h
    | inr (a, q) ↦
        rw (q, acknowledge)
          (All-insert IsLive (at_key host rule) (record a { acknowledged = true }) e.active
            (ground (arith, lookup-All IsLive (at_key host rule) a e.active h q)) h)
  ]
  apply-IsSound e (replaced rules) h =
      All-retain IsLive (λ k _. known_rule rules k.rule_id) e.active h
  apply-IsSound e (forgot host) h = All-retain IsLive (λ k _. not (k.host_id == host)) e.active h

  abbrev pub is_removal : Input F → Bool
  is_removal (replaced rules) = true
  is_removal (forgot host) = true
  is_removal _ = false

  acknowledge_open :
      (e : Evaluator F) (host rule : String) (k : AlertKey)
      → is_open (lookup k (acknowledge e host rule).0.active) ≡ is_open (lookup k e.active)
  unfolding acknowledge
  acknowledge_open e host rule k = elim (Option-cases (lookup (at_key host rule) e.active)) [
    | inl q ↦ rw (q, acknowledge)
    | inr (a, q) ↦
        rw (q, acknowledge)
          (rw (lookup-insert (at_key host rule) k (record a { acknowledged = true }) e.active)
            (elim (Bool-cases (at_key host rule == k)) [
              | inr other ↦ rw other
              | inl same ↦
                  rw same
                    (sym (ap is_open (ap (λ j. lookup j e.active) (sym (==_eq _ k same)) ∙ q)))
            ]))
  ]

  -- One operation: firings against endings and open alerts.
  apply_balance :
      (e : Evaluator F) (i : Input F) (k : AlertKey)
      → IsSound e.active
      → is_removal i ≡ false
      → tally is_firing k (apply e i).1 + is_open (lookup k e.active)
        ≡ tally is_resolved k (apply e i).1 + is_open (lookup k (apply e i).0.active)
  unfolding apply evaluate
  apply_balance e (sampled s now) k h n =
      omega (arith, eval_rules_balance ops e.resolve_after s now e.rules e.active [] k h)
  apply_balance e (acked host rule) k h n = omega (arith, acknowledge_open e host rule k)
  apply_balance e (replaced rules) k h n = cc
  apply_balance e (forgot host) k h n = cc

  run_balance :
      (e : Evaluator F) (is : List (Input F)) (k : AlertKey)
      → IsSound e.active
      → any is_removal is ≡ false
      → tally is_firing k (run e is).1 + is_open (lookup k e.active)
        ≡ tally is_resolved k (run e is).1 + is_open (lookup k (run e is).0.active)
  unfolding run
  run_balance e [] k h n = omega arith
  run_balance e (i ∷ is) k h n =
      let (e', out) = apply e i in
      let rest = (run e' is).1 in
      omega (
        arith,
        tally-append is_firing k out rest,
        tally-append is_resolved k out rest,
        apply_balance e i k h (ground arith),
        run_balance e' is k (apply-IsSound e i h) (ground arith),
      )

  -- From a new evaluator, over any history of samples and acknowledgements, under any rules: the
  -- firings reported for a host and rule are as many as the resolutions reported, and one more
  -- exactly while the alert still fires. So an alert that stays breached is notified once.
  pub run-new_evaluator_balance :
      (rules : List (Rule F)) (is : List (Input F)) (k : AlertKey)
      → any is_removal is ≡ false
      → let (e, out) = run (new_evaluator rules) is in
        tally is_firing k out ≡ tally is_resolved k out + is_open (lookup k e.active)
  unfolding new_evaluator lookup
  run-new_evaluator_balance rules is k n =
      omega (arith, run_balance (new_evaluator rules) is k tt n)

  -- A history of samples alone.
  abbrev pub is_sample : Input F → Bool
  is_sample (sampled s now) = true
  is_sample _ = false

  -- Whether a rule of the list has this id and is enabled.
  abbrev pub is_watched : List (Rule F) → String → Bool
  is_watched rules id = any (λ r. r.enabled && r.id == id) rules

  unwatched_reads :
      (s : SystemState F) (id : String) (rules : List (Rule F))
      → is_watched rules id ≡ false
      → any (reads ops s id) rules ≡ false
  unwatched_reads s id [] h = refl
  unwatched_reads s id (r ∷ rs) h = ground (arith, unwatched_reads s id rs)

  evaluate_unwatched :
      (e : Evaluator F) (s : SystemState F) (now : Time) (k : AlertKey)
      → is_watched e.rules k.rule_id ≡ false
      → lookup k (evaluate ops e s now).0.active ≡ lookup k e.active
  unfolding evaluate
  evaluate_unwatched e s now k h =
      eval_rules_frame ops e.resolve_after s now e.rules k (e.active, [])
        (inr (unwatched_reads s k.rule_id e.rules h))

  -- While no enabled rule has an alert's rule id, no run of samples, however long, changes, resolves
  -- or removes that alert.
  pub run_unwatched :
      (e : Evaluator F) (is : List (Input F)) (k : AlertKey)
      → is_watched e.rules k.rule_id ≡ false
      → all is_sample is ≡ true
      → lookup k (run e is).0.active ≡ lookup k e.active
  unfolding run apply
  run_unwatched e [] k h n = refl
  run_unwatched e (sampled s now ∷ is) k h n =
      let e' = (evaluate ops e s now).0 in
      run_unwatched e' is k (unfold evaluate in h) n ∙ evaluate_unwatched e s now k h
  run_unwatched e (acked host rule ∷ is) k h n = cc
  run_unwatched e (replaced rules ∷ is) k h n = cc
  run_unwatched e (forgot host ∷ is) k h n = cc
