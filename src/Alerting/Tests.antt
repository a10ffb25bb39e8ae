-- ===== src/Alerting/Tests.antt =====
-- internal/alerting: runs of the evaluator on concrete samples, and the theorems at them.
use sys_sentient.Models.{SystemState, whole, blank_sample}
use sys_sentient.Alerting.Rule.{
  Rule, Alert, cpu_usage, warning, greater_than, firing, metric_value, matches,
}
use sys_sentient.Alerting.Evaluator.{
  Evaluator, AlertKey, alert_key, is_firing, new_evaluator, eval_rules, eval_rule, store_alert,
  acknowledge, evaluate, next_alert, default_resolve_after,
}
use sys_sentient.Alerting.Evaluator.Frame.{at_key}
use sys_sentient.Alerting.Evaluator.Sound.{IsSound}
use sys_sentient.Alerting.Evaluator.Balance.{tally, is_resolved, is_open}
use sys_sentient.Alerting.Evaluator.Settled.{IsHeld, transitions_settled}
use sys_sentient.Alerting.Evaluator.History.{
  Input, sampled, acked, run, run-new_evaluator_balance, run_unwatched,
}
use sys_sentient.Prelude.{
  All, pos, nat_key, string_key, lookup, insert, minute, hour, ℕ, ◌+◌, ◌*◌, String, ◌≡◌, refl, ◌≢◌,
  true, false, some, List, [], ◌∷◌, arith,
}

abbrev cpu_rule : Rule ℕ
cpu_rule = record {
  id = "cpu-high";
  name = "CPU sustained high";
  metric = cpu_usage;
  op = greater_than;
  threshold = 90;
  for = pos minute;
  severity = warning;
  enabled = true;
}

abbrev sample : ℕ → SystemState ℕ
sample cpu = record (blank_sample "web-1") { cpu_usage = cpu }

abbrev cpu_key : AlertKey
cpu_key = record { host_id = "web-1"; rule_id = "cpu-high" }

-- Hot for two minutes, acknowledged, and cool for two minutes.
abbrev hot_and_cool : List (Input ℕ)
hot_and_cool =
    sampled (sample 95) (1 * minute)
    ∷ sampled (sample 96) (2 * minute)
    ∷ acked "web-1" "cpu-high"
    ∷ sampled (sample 97) (3 * minute)
    ∷ sampled (sample 20) (4 * minute)
    ∷ sampled (sample 21) (5 * minute)
    ∷ []

-- The alert fires once and resolves once.
hot_and_cool_fires_once :
    tally is_firing cpu_key (run whole (new_evaluator (cpu_rule ∷ [])) hot_and_cool).1 ≡ 1
unfolding run evaluate new_evaluator metric_value matches eval_rules eval_rule next_alert lookup
    store_alert insert acknowledge
hot_and_cool_fires_once = refl

run-new_evaluator_balance_example :
    tally is_firing cpu_key (run whole (new_evaluator (cpu_rule ∷ [])) hot_and_cool).1
    ≡ tally is_resolved cpu_key (run whole (new_evaluator (cpu_rule ∷ [])) hot_and_cool).1
      + is_open (lookup cpu_key (run whole (new_evaluator (cpu_rule ∷ [])) hot_and_cool).0.active)
run-new_evaluator_balance_example =
    run-new_evaluator_balance whole (cpu_rule ∷ []) hot_and_cool cpu_key refl

abbrev cpu_alert : Alert ℕ
cpu_alert = record {
  rule_id = "cpu-high";
  rule_name = "CPU sustained high";
  metric = cpu_usage;
  state = firing;
  severity = warning;
  value = 96;
  threshold = 90;
  host_id = "web-1";
  hostname = "web-1";
  started_at = minute;
  fired_at = 2 * minute;
  resolved_at = 0;
  acknowledged = false;
  clear_since = 0;
}

abbrev with_alert : List (Rule ℕ) → Evaluator ℕ
with_alert rules = record {
  rules = rules;
  active = (cpu_key, cpu_alert) ∷ [];
  resolve_after = default_resolve_after;
}

with_alert-IsSound : (rules : List (Rule ℕ)) → IsSound (with_alert rules).active
with_alert-IsSound rules = ground arith

-- Hot at 2 minutes, and cool at 4 and from 5 on: the settle time after the hot sample has passed.
abbrev cooling : List (Input ℕ)
cooling = acked "web-1" "cpu-high" ∷ sampled (sample 20) (4 * minute) ∷ []

transitions_settled_example :
    let e =
      (run whole
        (evaluate whole (with_alert (cpu_rule ∷ [])) (sample 96) (2 * minute)).0
        cooling).0 in
    All
      (IsHeld
        (2 * minute)
        (matches whole cpu_rule 96)
        (at_key "web-1" "cpu-high")
        e.resolve_after
        (5 * minute)
        e.rules)
      (evaluate whole e (sample 20) (5 * minute)).1
unfolding metric_value
transitions_settled_example =
    transitions_settled whole (with_alert (cpu_rule ∷ [])) (sample 96) (sample 20) (2 * minute)
      (5 * minute) cooling [] [] cpu_rule 96 (with_alert-IsSound (cpu_rule ∷ [])) refl refl refl
      refl (omega arith)

hosts_differ : let h : String = "db-1" in h ≢ "web-1"
hosts_differ p = let q : false ≡ true = (string_key.same_iff "db-1" "web-1").1 p in absurd (cc)

-- The rule is switched off while its alert fires; the host then cools down for good.
run_unwatched_example :
    lookup cpu_key
      (run whole
        (with_alert (record cpu_rule { enabled = false } ∷ []))
        (sampled (sample 20) (4 * minute) ∷ sampled (sample 20) (24 * hour) ∷ [])).0.active
    ≡ some cpu_alert
unfolding lookup
run_unwatched_example =
    run_unwatched whole (with_alert (record cpu_rule { enabled = false } ∷ []))
      (sampled (sample 20) (4 * minute) ∷ sampled (sample 20) (24 * hour) ∷ []) cpu_key refl refl
