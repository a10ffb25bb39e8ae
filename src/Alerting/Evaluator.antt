-- ===== src/Alerting/Evaluator.antt =====
-- internal/alerting/evaluator.go: the rule evaluator and the life of an alert.
-- The lock is held by every method from entry to exit, so a method is one step. The map of
-- alert pointers is an association list of alerts: a write through a pointer is an insertion.
pub mod Frame
pub mod Listing
pub mod Justify
pub mod History
pub mod Balance
pub mod Refine
pub mod Remembered
pub mod Settled
pub mod Sound
use sys_sentient.Models.{FloatOps, SystemState}
use sys_sentient.Alerting.Rule.{
  Rule, Alert, AlertState, pending, firing, resolved, matches, metric_value,
}
use sys_sentient.Prelude.{
  if◌then◌else◌, any, pos, ltb_ℤ, leb_ℤ, Keyed, ◌==◌, nat_key, string_key, lookup, insert, erase,
  retain, Time, Duration, since, is_zero, second, zero, ◌*◌, String, ◌≡◌, ◌↔◌, Bool, true, false,
  not, ◌&&◌, Option, none, some, List, [], ◌∷◌, ◌++◌, arith,
}

pub record AlertKey : Type 0 where
  pub host_id : String
  pub rule_id : String

abbrev pub key_beq : AlertKey → AlertKey → Bool
key_beq a b = a.host_id == b.host_id && a.rule_id == b.rule_id

pub key_beq_iff : (a b : AlertKey) → (key_beq a b ≡ true) ↔ (a ≡ b)
key_beq_iff a b =
    ground (arith, string_key.same_iff a.host_id b.host_id, string_key.same_iff a.rule_id b.rule_id)

instance abbrev pub alert_key : Keyed AlertKey
alert_key = record { same = key_beq; same_iff = key_beq_iff }

-- `map[alertKey]*Alert`.
abbrev pub ActiveMap : Type 0 → Type 0
ActiveMap F = List (AlertKey × Alert F)

pub record Evaluator (F : Type 0) : Type 0 where
  pub rules : List (Rule F)
  pub active : ActiveMap F
  pub resolve_after : Duration

abbrev pub default_resolve_after : Duration
default_resolve_after = pos (60 * second)

module _ {F : Type 0} where
  unfoldable pub new_evaluator : List (Rule F) → Evaluator F
  new_evaluator rules = record { rules = rules; active = []; resolve_after = default_resolve_after }

  -- Zero restores the default.
  unfoldable pub set_resolve_after : Evaluator F → Duration → Evaluator F
  set_resolve_after e (pos zero) = record e { resolve_after = default_resolve_after }
  set_resolve_after e d = record e { resolve_after = d }

  -- Whether `known[id]` holds, for `known` the set of the rules' ids.
  abbrev pub known_rule : List (Rule F) → String → Bool
  known_rule rules id = any (λ r. r.id == id) rules

  unfoldable pub replace_rules : Evaluator F → List (Rule F) → Evaluator F
  replace_rules e rules = record e {
    rules = rules;
    active = retain (λ k _. known_rule rules k.rule_id) e.active;
  }

  unfoldable pub acknowledge : Evaluator F → String → String → Evaluator F × Bool
  acknowledge e host rule =
      let key : AlertKey = record { host_id = host; rule_id = rule } in
      elim (lookup key e.active) [
        | none ↦ (e, false)
        | some alert ↦
            (record e { active = insert key (record alert { acknowledged = true }) e.active }, true)
      ]

  unfoldable pub forget_host : Evaluator F → String → Evaluator F
  forget_host e host = record e { active = retain (λ k _. not (k.host_id == host)) e.active }

abbrev pub is_firing : AlertState → Bool
is_firing firing = true
is_firing _ = false

abbrev pub is_pending : AlertState → Bool
is_pending pending = true
is_pending _ = false

module _ {F : Type 0} where
  -- `case breached && !tracked`: a new alert, which fires at once under a rule with no duration.
  unfoldable pub open_alert : SystemState F → Time → Rule F → F → Alert F
  open_alert s now rule value =
      let at_once = leb_ℤ rule.for (pos 0) in
      record {
        rule_id = rule.id;
        rule_name = rule.name;
        metric = rule.metric;
        state = if at_once then firing else pending;
        severity = rule.severity;
        value = value;
        threshold = rule.threshold;
        host_id = s.host_id;
        hostname = s.hostname;
        started_at = now;
        fired_at = if at_once then now else 0;
        resolved_at = 0;
        acknowledged = false;
        clear_since = 0;
      }

  -- `case breached && tracked`: whether the alert fires now, and the alert after the sample.
  unfoldable pub fires_now : Time → Rule F → Alert F → Bool
  fires_now now rule a = is_pending a.state && leb_ℤ rule.for (since now a.started_at)

  unfoldable pub breach_again : SystemState F → Time → Rule F → F → Alert F → Alert F
  unfolding fires_now
  breach_again s now rule value a =
      let a' = record a { value = value; hostname = s.hostname; clear_since = 0 } in
      if fires_now now rule a then record a' { state = firing; fired_at = now } else a'

  -- The start of the clear period: this sample, if none has been noted.
  abbrev pub cleared_at : Time → Alert F → Time
  cleared_at now a = if is_zero a.clear_since then now else a.clear_since

  -- `case !breached && tracked`: a firing alert that is not clear for long enough stays.
  unfoldable pub settling : Duration → Time → Alert F → Bool
  settling resolve_after now a =
      is_firing a.state && ltb_ℤ (since now (cleared_at now a)) resolve_after

  -- What one rule does to the alert of its key: the alert after the sample, if any is left, and
  -- the transition that is reported, if there is one.
  unfoldable pub next_alert :
      Duration
      → SystemState F
      → Time
      → Rule F
      → F
      → Bool
      → Option (Alert F)
      → Option (Alert F) × Option (Alert F)
  unfolding open_alert breach_again settling
  next_alert resolve_after s now rule value true none =
      let a = open_alert s now rule value in
      (some a, if leb_ℤ rule.for (pos 0) then some a else none)
  next_alert resolve_after s now rule value true (some a) =
      let a' = breach_again s now rule value a in
      (some a', if fires_now now rule a then some a' else none)
  next_alert resolve_after s now rule value false none = (none, none)
  next_alert resolve_after s now rule value false (some a) =
      if settling resolve_after now a
      then (some (record a { clear_since = cleared_at now a; value = value }), none)
      else (
        none,
        if is_firing a.state
            then some (record a {
              clear_since = cleared_at now a;
              state = resolved;
              value = value;
              resolved_at = now;
            })
            else none,
      )

  -- `e.active[key] = alert`, or `delete(e.active, key)`.
  unfoldable pub store_alert : AlertKey → Option (Alert F) → ActiveMap F → ActiveMap F
  store_alert key none m = erase key m
  store_alert key (some a) m = insert key a m

  abbrev pub emit : Option (Alert F) → List (Alert F)
  emit none = []
  emit (some a) = a ∷ []

module _ {F : Type 0} (ops : FloatOps F) where
  -- One round of the loop over the rules, on the map of alerts and the transitions so far.
  unfoldable pub eval_rule :
      Duration
      → SystemState F
      → Time
      → Rule F
      → ActiveMap F × List (Alert F)
      → ActiveMap F × List (Alert F)
  eval_rule resolve_after s now rule (m, out) =
      if not rule.enabled then (m, out) else elim (metric_value ops s rule.metric) [
        | none ↦ (m, out)
        | some value ↦
            let key : AlertKey = record { host_id = s.host_id; rule_id = rule.id } in
            let step =
              next_alert resolve_after s now rule value (matches ops rule value) (lookup key m) in
            (store_alert key step.0 m, out ++ emit step.1)
      ]

  unfoldable pub eval_rules :
      Duration
      → SystemState F
      → Time
      → List (Rule F)
      → ActiveMap F × List (Alert F)
      → ActiveMap F × List (Alert F)
  eval_rules resolve_after s now [] acc = acc
  eval_rules resolve_after s now (rule ∷ rest) acc =
      eval_rules resolve_after s now rest (eval_rule resolve_after s now rule acc)

  -- The evaluator after one sample, and the transitions that occurred.
  unfoldable pub evaluate : Evaluator F → SystemState F → Time → Evaluator F × List (Alert F)
  evaluate e s now =
      let (active, transitions) = eval_rules e.resolve_after s now e.rules (e.active, []) in
      (record e { active = active }, transitions)
