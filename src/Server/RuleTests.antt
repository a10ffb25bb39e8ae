-- ===== src/Server/RuleTests.antt =====
-- internal/server/rule_handlers.go: changes of the rule on the processor, and the theorems at them.
use sys_sentient.Models.{whole}
use sys_sentient.Alerting.Rule.{default_rules, validate}
use sys_sentient.Alerting.Evaluator.{default_resolve_after}
use sys_sentient.Storage.RuleOverrides.{RuleOverride, save_rule_override, list_rule_overrides}
use sys_sentient.Server.RuleHandlers.{
  Alarms, RuleUpdate, Hours, apply_overrides, handle_update_rule,
}
use mathlib.Core.Option
use sys_sentient.Prelude.{
  pos, ◌==◌, nat_key, string_key, lookup, insert, hour, ℕ, ◌*◌, String, ◌≡◌, refl, Bool, false, not,
  none, some, [], ◌∷◌,
}

abbrev whole_hours : Hours ℕ
whole_hours = record { to_duration = λ h. pos (h * hour); is_none = λ h. h == 0 }

abbrev never_blank : String → Bool
never_blank s = false

abbrev stored_change : RuleOverride ℕ
stored_change = record {
  rule_id = "cpu-high";
  threshold = some 70;
  for_secs = none;
  enabled = none;
  muted_until = none;
  updated_at = hour;
  updated_by = "ops@example.org";
}

abbrev alarms : Alarms ℕ
alarms = record {
  overrides = ("cpu-high", stored_change) ∷ [];
  evaluator = record {
    rules = apply_overrides (default_rules whole) (("cpu-high", stored_change) ∷ []);
    active = [];
    resolve_after = default_resolve_after;
  };
}

abbrev switched_off : RuleUpdate ℕ
switched_off = record { threshold = none; for_secs = none; enabled = some false; mute_hours = none }

-- The overrides cannot be read for a moment: switching the rule off loses its stored threshold.
abbrev first_fails : ℕ → Bool
first_fails n = not (n == 0)

update_forgets :
    Option.map
      (λ o. o.threshold)
      (lookup "cpu-high"
        (handle_update_rule whole whole_hours never_blank first_fails alarms "cpu-high"
          (some switched_off)
          hour
          "ops@example.org").0.overrides)
    ≡ some none
unfolding lookup handle_update_rule list_rule_overrides save_rule_override insert default_rules
    validate
update_forgets = refl
