-- ===== src/Server/IngestTests.antt =====
-- internal/server/ingest.go: pushes of an agent, and the theorems at them.
use sys_sentient.Prelude.{
  All, pos, nat_key, string_key, Time, minute, hour, ℕ, ◌+◌, ◌*◌, ◌≡◌, refl, true, false, none,
  some, List, [], ◌∷◌, ◌++◌, map, arith,
}
use sys_sentient.Models.{SystemState, whole, blank_sample}
use sys_sentient.Alerting.Rule.{Rule, cpu_usage, warning, greater_than}
use sys_sentient.Alerting.Evaluator.{new_evaluator, evaluate}
use sys_sentient.Alerting.Notify.{webhook, Attempt, dispatch}
use sys_sentient.Storage.Samples.{stored_sample}
use sys_sentient.Storage.RuleOverrides.{RuleOverride, list_rule_overrides}
use sys_sentient.Server.Ingest.{
  Intake, Faults, IngestRequest, ingested, muted_rule, notifiable, record_events, handle_ingest,
}
use sys_sentient.Server.Ingest.Muted.{handle_ingest_muted}
use sys_sentient.Server.Ingest.Backlog.{handle_ingest_backlog, last_from}

abbrev hot_rule : Rule ℕ
hot_rule = record {
  id = "cpu-high";
  name = "CPU sustained high";
  metric = cpu_usage;
  op = greater_than;
  threshold = 90;
  for = pos 0;
  severity = warning;
  enabled = true;
}

abbrev mute : RuleOverride ℕ
mute = record {
  rule_id = "cpu-high";
  threshold = none;
  for_secs = none;
  enabled = none;
  muted_until = some (10 * hour);
  updated_at = hour;
  updated_by = "ops@example.org";
}

abbrev intake : Intake ℕ
intake = record {
  metrics = [];
  alert_events = [];
  hosts = [];
  fleet = record { join_tokens = []; agents = [] };
  overrides = ("cpu-high", mute) ∷ [];
  evaluator = new_evaluator (hot_rule ∷ []);
  notifiers = webhook "https://example.org/hook" ∷ [];
  attempts = [];
}

abbrev no_faults : Faults ℕ
no_faults = record {
  up = λ _. true;
  bad = λ _. false;
  saved = λ _. true;
  host_up = λ _. true;
  overrides_up = λ _. true;
}

abbrev reading : Time → ℕ → SystemState ℕ
reading t cpu = record (blank_sample "web-1") { timestamp = t; cpu_usage = cpu }

-- After an outage: the processor was hot, and is not any more.
abbrev backlog : IngestRequest ℕ
backlog = record {
  agent_version = "1.2";
  samples = reading hour 95 ∷ reading (hour + minute) 20 ∷ [];
}

abbrev as_it_comes : {A : Type 0} → A → A
as_it_comes seen = seen

handle_ingest_muted_example :
    let s' = (handle_ingest whole as_it_comes no_faults none (some backlog) (2 * hour) intake).0 in
    let loud =
      (handle_ingest whole as_it_comes no_faults none
        (some backlog)
        (2 * hour)
        (record intake { overrides = [] })).0 in
    ((made : List (Attempt ℕ)) × (s'.attempts ≡ intake.attempts ++ made)
      × All (λ a. muted_rule (some intake.overrides) (2 * hour) a.alert.rule_id ≡ false) made)
    × (s'.evaluator ≡ loud.evaluator)
    × (s'.alert_events ≡ loud.alert_events)
handle_ingest_muted_example =
    handle_ingest_muted whole as_it_comes no_faults none (some backlog) (2 * hour) intake
      (λ _. refl)

handle_ingest_backlog_example :
    let y = reading hour 95 in
    let ys = reading (hour + minute) 20 ∷ [] in
    let newest = last_from y ys in
    let (s', answer) =
      handle_ingest whole as_it_comes no_faults none (some backlog) (2 * hour) intake in
    let (evaluator, transitions) = evaluate whole intake.evaluator newest (2 * hour) in
    let overrides = list_rule_overrides true intake.overrides in
    (answer ≡ ingested 200 2 0)
    × (s'.metrics ≡ intake.metrics ++ map stored_sample (y ∷ ys))
    × (s'.evaluator ≡ evaluator)
    × (s'.alert_events ≡ record_events (λ _. true) (2 * hour) transitions intake.alert_events)
    × (s'.attempts
        ≡ intake.attempts
          ++ dispatch intake.notifiers (notifiable overrides (2 * hour) transitions))
handle_ingest_backlog_example =
    handle_ingest_backlog whole as_it_comes no_faults none backlog (2 * hour) intake
      (reading hour 95) (reading (hour + minute) 20 ∷ []) refl (refl, tt) (refl, (refl, tt))
      (omega arith) refl refl refl
