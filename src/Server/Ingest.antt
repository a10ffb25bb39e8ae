-- ===== src/Server/Ingest.antt =====
-- internal/server/ingest.go with rule_handlers.go: samples that agents push, the alerts that they make,
-- and whom the alerts are sent to. There are a store, an evaluator and a dispatcher; `time.Now()` is one
-- time for a call. `up n` says whether the n-th statement of the handler succeeds, `saved` which alert
-- events can be stored, `bad` which samples cannot. Go visits a map in any order: `visit` is the one
-- that it takes. The goroutine that dispatches has run when the handler returns.
pub mod Backlog
pub mod Muted
use sys_sentient.Prelude.{
  ltb, if◌then◌else◌, length, keep_if, ◌==◌, nat_key, string_key, lookup, insert, Time, after,
  is_zero, minute, ℕ, ◌+◌, ◌-◌, ◌*◌, String, Bool, false, not, ◌||◌, Option, none, some, List, [],
  ◌∷◌, ◌++◌, arith,
}
use sys_sentient.Models.{FloatOps, SystemState}
use sys_sentient.Alerting.Rule.{Alert}
use sys_sentient.Alerting.Evaluator.{Evaluator, evaluate}
use sys_sentient.Alerting.Notify.{Notifier, Attempt, dispatch}
use sys_sentient.Storage.Samples.{save_batch, is_empty}
use sys_sentient.Storage.Events.{AlertEvent, Host, save_alert_event, upsert_host, list_hosts}
use sys_sentient.Storage.Fleet.{Fleet, Agent, touch_agent}
use sys_sentient.Storage.RuleOverrides.{Overrides, is_muted, list_rule_overrides}

abbrev pub max_ingest_batch : ℕ
max_ingest_batch = 1000

pub record IngestRequest (F : Type 0) : Type 0 where
  pub agent_version : String
  pub samples : List (SystemState F)

-- The status and the counts, or an error with its status.
pub data IngestAnswer : Type 0 where
  ingested : (status accepted rejected : ℕ) → IngestAnswer
  ingest_failure : ℕ → IngestAnswer

-- The part of `Server` that these handlers use, with all attempts to notify so far.
pub record Intake (F : Type 0) : Type 0 where
  pub metrics : List (SystemState F)
  pub alert_events : List (AlertEvent F)
  pub hosts : List (String × Host)
  pub fleet : Fleet
  pub overrides : Overrides F
  pub evaluator : Evaluator F
  pub notifiers : List Notifier
  pub attempts : List (Attempt F)

-- What fails during a call.
pub record Faults (F : Type 0) : Type 0 where
  pub up : ℕ → Bool
  pub bad : SystemState F → Bool
  pub saved : Alert F → Bool
  pub host_up : String → Bool
  pub overrides_up : String → Bool

module _ {F : Type 0} where
  -- Whether a rule is muted, by the overrides that are read; none are where the read fails.
  unfoldable pub muted_rule : Option (Overrides F) → Time → String → Bool
  muted_rule none now id = false
  muted_rule (some overrides) now id = elim (lookup id overrides) [
    | none ↦ false
    | some o ↦ is_muted o now
  ]

  -- With no rule muted this keeps everything.
  unfoldable pub notifiable : Option (Overrides F) → Time → List (Alert F) → List (Alert F)
  notifiable overrides now transitions =
      keep_if (λ t. not (muted_rule overrides now t.rule_id)) transitions

  abbrev pub event_of : Time → Alert F → AlertEvent F
  event_of now t = record {
    occurred_at = now;
    rule_id = t.rule_id;
    rule_name = t.rule_name;
    metric = t.metric;
    state = t.state;
    severity = t.severity;
    value = t.value;
    threshold = t.threshold;
    hostname = t.hostname;
    host_id = t.host_id;
  }

  -- The loop over the transitions; an event that cannot be stored is passed over.
  unfoldable pub record_events :
      (Alert F → Bool) → Time → List (Alert F) → List (AlertEvent F) → List (AlertEvent F)
  record_events saved now [] db = db
  record_events saved now (t ∷ rest) db =
      record_events saved now rest (save_alert_event (saved t) db (event_of now t)).0

  -- No host, no time, or a time too far ahead.
  abbrev pub is_refused : Time → SystemState F → Bool
  is_refused now sample =
      sample.host_id == ""
      || (is_zero sample.timestamp || after sample.timestamp (now + 15 * minute))

  -- `seenHosts`: the last sample of each host.
  unfoldable pub last_seen_samples :
      List (SystemState F) → List (String × SystemState F) → List (String × SystemState F)
  last_seen_samples [] seen = seen
  last_seen_samples (sample ∷ rest) seen =
      last_seen_samples rest (insert sample.host_id sample seen)

  -- The name that the first host visited goes by, if there is one.
  abbrev pub first_hostname : String → List (String × SystemState F) → String
  first_hostname known [] = known
  first_hostname known ((host, newest) ∷ rest) = newest.hostname

  unfoldable pub touch_credential :
      Bool → Option Agent → String → Time → List (String × SystemState F) → Intake F → Intake F
  touch_credential up none version now seen s = s
  touch_credential up (some agent) version now seen s = record s {
    fleet = (touch_agent up s.fleet agent.id (first_hostname agent.hostname seen) version now).0;
  }

module _ {F : Type 0} (ops : FloatOps F) where
  unfoldable pub evaluate_and_record : Faults F → SystemState F → Time → Intake F → Intake F
  unfolding record_events notifiable
  evaluate_and_record f state now s =
      let (evaluator, transitions) = evaluate ops s.evaluator state now in
      let overrides = list_rule_overrides (f.overrides_up state.host_id) s.overrides in
      record s {
        evaluator = evaluator;
        alert_events = record_events f.saved now transitions s.alert_events;
        attempts = s.attempts ++ dispatch s.notifiers (notifiable overrides now transitions);
      }

  -- The loop over the hosts that were seen.
  unfoldable pub visit_hosts :
      Faults F → String → Time → List (String × SystemState F) → Intake F → Intake F
  unfolding evaluate_and_record
  visit_hosts f version now [] s = s
  visit_hosts f version now ((host, newest) ∷ rest) s =
      let hosts = (upsert_host (f.host_up host) s.hosts host newest.hostname version now).0 in
      visit_hosts f version now rest (evaluate_and_record f newest now (record s { hosts = hosts }))

module _ {F : Type 0} (ops : FloatOps F)
    (visit : List (String × SystemState F) → List (String × SystemState F)) where
  -- From the answer of SaveBatch on.
  unfoldable pub finish_ingest :
      Faults F
      → Option Agent
      → IngestRequest F
      → Time
      → Intake F
      → List (SystemState F)
      → List (SystemState F) × Option ℕ
      → Intake F × IngestAnswer
  finish_ingest f agent req now s batch (metrics, none) = (s, ingest_failure 500)
  finish_ingest f agent req now s batch (metrics, some accepted) =
      let seen = visit (last_seen_samples batch []) in
      let s = visit_hosts ops f req.agent_version now seen (record s { metrics = metrics }) in
      (
        touch_credential (f.up 2) agent req.agent_version now seen s,
        ingested (if accepted == 0 then 400 else 200) accepted (length req.samples - accepted),
      )

  unfoldable pub handle_ingest :
      Faults F → Option Agent → Option (IngestRequest F) → Time → Intake F → Intake F × IngestAnswer
  handle_ingest f agent none now s = (s, ingest_failure 400)
  handle_ingest f agent (some req) now s =
      if is_empty req.samples
      then (s, ingest_failure 400)
      else if ltb max_ingest_batch (length req.samples)
      then (s, ingest_failure 413)
      else let batch = keep_if (λ x. not (is_refused now x)) req.samples in
        finish_ingest f agent req now s batch (save_batch f.up f.bad s.metrics batch)

  unfoldable pub handle_hosts : Bool → Intake F → Option (List Host)
  unfolding list_hosts
  handle_hosts up s = list_hosts up s.hosts
