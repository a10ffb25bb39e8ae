-- ===== src/Server/RuleHandlers.antt =====
-- internal/server/rule_handlers.go: operators' changes of the alert rules. `up n` says whether the n-th
-- statement of a handler succeeds. There are a store and an evaluator.
pub mod Synced
use sys_sentient.Models.{FloatOps}
use sys_sentient.Alerting.Rule.{Rule, validate, default_rules}
use sys_sentient.Alerting.Evaluator.{Evaluator, replace_rules}
use sys_sentient.Storage.Accounts.{DbError, db_failed, not_found, duplicate_email}
use sys_sentient.Storage.RuleOverrides.{
  RuleOverride, Overrides, save_rule_override, delete_rule_override, list_rule_overrides,
}
use sys_sentient.Prelude.{
  if◌then◌else◌, is_some, ℤ, pos, negsuc, sub_ℕ, ltb_ℤ, ◌==◌, nat_key, string_key, lookup, Time,
  Duration, add_time, second, ℕ, ◌+◌, ◌*◌, String, Bool, false, ◌||◌, Option, none, some, List, [],
  ◌∷◌, arith,
}

-- The part of `Server` that these handlers use.
pub record Alarms (F : Type 0) : Type 0 where
  pub overrides : Overrides F
  pub evaluator : Evaluator F

pub record RuleUpdate (F : Type 0) : Type 0 where
  pub threshold : Option F
  pub for_secs : Option ℤ
  pub enabled : Option Bool
  pub mute_hours : Option F

-- The list of rules is written, or an error with its status.
pub data RuleResponse : Type 0 where
  rules_listed : RuleResponse
  rule_failure : ℕ → RuleResponse

-- float64 to time.Duration, as `time.Duration(h * float64(time.Hour))`, and `h == 0`.
pub record Hours (F : Type 0) : Type 0 where
  pub to_duration : F → Duration
  pub is_none : F → Bool

abbrev pub seconds : ℤ → Duration
seconds (pos n) = pos (n * second)
seconds (negsuc n) = sub_ℕ 0 ((n + 1) * second)

abbrev pub changed_to : {A : Type 0} → Option A → A → A
changed_to none old = old
changed_to (some new) old = new

-- A field that a request has, or else the one stored.
abbrev pub asked_or : {A : Type 0} → Option A → Option A → Option A
asked_or none old = old
asked_or (some new) old = some new

abbrev pub in_rule : Option ℤ → Duration → Duration
in_rule none old = old
in_rule (some n) old = seconds n

-- `*req.ForSecs < 0 || *req.ForSecs > 24*3600`.
abbrev pub bad_duration : Option ℤ → Bool
bad_duration none = false
bad_duration (some n) = ltb_ℤ n (pos 0) || ltb_ℤ (pos 86400) n

module _ {F : Type 0} where
  unfoldable pub override_rule : Option (RuleOverride F) → Rule F → Rule F
  override_rule none rule = rule
  override_rule (some o) rule = record rule {
    threshold = changed_to o.threshold rule.threshold;
    for = in_rule o.for_secs rule.for;
    enabled = changed_to o.enabled rule.enabled;
  }

  unfoldable pub apply_overrides : List (Rule F) → Overrides F → List (Rule F)
  unfolding override_rule
  apply_overrides [] overrides = []
  apply_overrides (rule ∷ rest) overrides =
      override_rule (lookup rule.id overrides) rule ∷ apply_overrides rest overrides

  abbrev pub find_rule : String → List (Rule F) → Option (Rule F)
  find_rule id [] = none
  find_rule id (rule ∷ rest) = if rule.id == id then some rule else find_rule id rest

  abbrev pub blank_override : String → RuleOverride F
  blank_override id = record {
    rule_id = id;
    threshold = none;
    for_secs = none;
    enabled = none;
    muted_until = none;
    updated_at = 0;
    updated_by = "";
  }

  -- `existing[ruleID]`: blank if there is none, or if the overrides could not be read.
  abbrev pub existing_override : Option (Overrides F) → String → RuleOverride F
  existing_override none id = blank_override id
  existing_override (some overrides) id = elim (lookup id overrides) [
    | none ↦ blank_override id
    | some o ↦ record o { rule_id = id }
  ]

module _ {F : Type 0} (ops : FloatOps F) (hours : Hours F) (is_blank : String → Bool) where
  -- A failed read leaves the evaluator as it is.
  unfoldable pub reload_rules : Bool → Alarms F → Alarms F
  unfolding apply_overrides
  reload_rules up s = elim (list_rule_overrides up s.overrides) [
    | none ↦ s
    | some overrides ↦ record s {
      evaluator = replace_rules s.evaluator (apply_overrides (default_rules ops) overrides);
    }
  ]

  abbrev pub candidate : Rule F → RuleUpdate F → Rule F
  candidate base req = record base {
    threshold = changed_to req.threshold base.threshold;
    for = in_rule req.for_secs base.for;
    enabled = changed_to req.enabled base.enabled;
  }

  abbrev pub bad_mute : Option F → Bool
  bad_mute none = false
  bad_mute (some h) = ops.lt h (ops.from_uint 0) || ops.lt (ops.from_uint 720) h

  abbrev pub mute_until : Option F → Option Time → Time → Option Time
  mute_until none old now = old
  mute_until (some h) old now =
      if hours.is_none h then none else some (add_time now (hours.to_duration h))

  abbrev pub new_override : RuleOverride F → RuleUpdate F → Time → String → RuleOverride F
  new_override o req now by = record {
    rule_id = o.rule_id;
    threshold = asked_or req.threshold o.threshold;
    for_secs = asked_or req.for_secs o.for_secs;
    enabled = asked_or req.enabled o.enabled;
    muted_until = mute_until req.mute_hours o.muted_until now;
    updated_at = now;
    updated_by = by;
  }

  unfoldable pub save_and_reload : Bool → Bool → Alarms F → RuleOverride F → Alarms F × RuleResponse
  unfolding reload_rules
  save_and_reload saved read s o =
      let (overrides, refusal) = save_rule_override saved s.overrides o in
      let s' = record s { overrides = overrides } in
      if is_some refusal then (s', rule_failure 500) else (reload_rules read s', rules_listed)

  -- A request is none if its body cannot be decoded.
  unfoldable pub handle_update_rule :
      (ℕ → Bool)
      → Alarms F
      → String
      → Option (RuleUpdate F)
      → Time
      → String
      → Alarms F × RuleResponse
  unfolding save_and_reload
  handle_update_rule up s id req now by = elim (find_rule id (default_rules ops)) [
    | none ↦ (s, rule_failure 404)
    | some base ↦ elim req [
      | none ↦ (s, rule_failure 400)
      | some u ↦
          if bad_duration u.for_secs || is_some (validate is_blank (candidate base u))
          then (s, rule_failure 400)
          else if bad_mute u.mute_hours
          then (s, rule_failure 400)
          else save_and_reload (up 1) (up 2) s (
              new_override (existing_override (list_rule_overrides (up 0) s.overrides) id) u now by)
    ]
  ]

  -- The answer to the deletion of an override.
  unfoldable pub finish_reset :
      Bool → Alarms F → Overrides F × Option DbError → Alarms F × RuleResponse
  unfolding reload_rules
  finish_reset up s (overrides, some db_failed) =
      (record s { overrides = overrides }, rule_failure 500)
  finish_reset up s (overrides, some duplicate_email) =
      (record s { overrides = overrides }, rule_failure 500)
  finish_reset up s (overrides, some not_found) =
      (reload_rules up (record s { overrides = overrides }), rules_listed)
  finish_reset up s (overrides, none) =
      (reload_rules up (record s { overrides = overrides }), rules_listed)

  unfoldable pub handle_reset_rule : (ℕ → Bool) → Alarms F → String → Alarms F × RuleResponse
  unfolding finish_reset
  handle_reset_rule up s id = finish_reset (up 1) s (delete_rule_override (up 0) s.overrides id)
