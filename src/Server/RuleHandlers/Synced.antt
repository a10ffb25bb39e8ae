-- ===== src/Server/RuleHandlers/Synced.antt =====
-- internal/server/rule_handlers.go: the evaluator's rules follow the stored changes, and a change
-- touches one rule.
use sys_sentient.Models.{FloatOps}
use sys_sentient.Alerting.Rule.{default_rules, validate}
use sys_sentient.Alerting.Evaluator.{replace_rules}
use sys_sentient.Storage.Accounts.{DbError, not_found}
use sys_sentient.Storage.RuleOverrides.{
  RuleOverride, Overrides, save_rule_override, delete_rule_override, list_rule_overrides,
}
use sys_sentient.Server.RuleHandlers.{
  Alarms, RuleUpdate, Hours, apply_overrides, find_rule, existing_override, reload_rules, candidate,
  new_override, bad_mute, bad_duration, save_and_reload, handle_update_rule, finish_reset,
  handle_reset_rule,
}
use sys_sentient.Prelude.{
  Bool-cases, Option-cases, is_some, ◌==◌, nat_key, string_key, ==_refl, lookup, insert, erase,
  lookup-insert, lookup-erase, Time, ℕ, String, ◌≡◌, refl, sym, subst, ◌⊎◌, inl, inr, Bool, true,
  false, ◌||◌, Option, none, some, List, arith,
}

abbrev pub every : ℕ → Bool
every n = true

lookup-insert_other :
    {V : Type 0} (key k : String) (v : V) (m : List (String × V))
    → (key == k) ≡ false
    → lookup k (insert key v m) ≡ lookup k m
lookup-insert_other key k v m other = let found = lookup-insert key k v m in rw other at found

lookup-erase_other :
    {V : Type 0} (key k : String) (m : List (String × V))
    → (key == k) ≡ false
    → lookup k (erase key m) ≡ lookup k m
lookup-erase_other key k m other = let found = lookup-erase key k m in rw other at found

module _ {F : Type 0} (ops : FloatOps F) (hours : Hours F) (is_blank : String → Bool) where
  -- The evaluator's rules are the built-in ones with the stored changes, and no change but that of one
  -- rule differs from before.
  abbrev pub IsSynced : Alarms F → Type 0
  IsSynced s = (s.evaluator).rules ≡ apply_overrides (default_rules ops) s.overrides

  reload_rules-IsSynced : (s : Alarms F) → IsSynced (reload_rules ops hours is_blank true s)
  unfolding reload_rules list_rule_overrides replace_rules
  reload_rules-IsSynced s = refl

  reload_keeps : (s : Alarms F) → (reload_rules ops hours is_blank true s).overrides ≡ s.overrides
  unfolding reload_rules list_rule_overrides
  reload_keeps s = refl

  save_and_reload-IsSynced :
      (s : Alarms F) (o : RuleOverride F) (j : String)
      → (o.rule_id == j) ≡ false
      → let s' = (save_and_reload ops hours is_blank true true s o).0 in
        IsSynced s' × (lookup j s'.overrides ≡ lookup j s.overrides)
  unfolding save_and_reload save_rule_override reload_rules list_rule_overrides replace_rules
  save_and_reload-IsSynced s o j other = (refl, lookup-insert_other o.rule_id j _ s.overrides other)

  existing_override_id :
      (overrides : Overrides F) (id : String) → (existing_override (some overrides) id).rule_id ≡ id
  existing_override_id overrides id = elim (Option-cases (lookup id overrides)) [
    | inl e ↦ rw (e, existing_override) refl
    | inr (o, e) ↦ rw (e, existing_override) refl
  ]

  -- An update that reaches the store and one that does not.
  update_splits :
      (s : Alarms F) (id : String) (req : Option (RuleUpdate F)) (now : Time) (by : String)
      → ((handle_update_rule ops hours is_blank every s id req now by).0 ≡ s)
        ⊎ ((u : RuleUpdate F) × ((handle_update_rule ops hours is_blank every s id req now by).0
              ≡ (save_and_reload ops hours is_blank true true s (
                  new_override ops hours is_blank
                    (existing_override (some s.overrides) id)
                    u
                    now
                    by)).0))
  unfolding handle_update_rule list_rule_overrides
  update_splits s id none now by = inl (ground arith)
  update_splits s id (some u) now by = elim (Option-cases (find_rule id (default_rules ops))) [
    | inl e ↦ inl (ground arith)
    | inr (base, e) ↦
        elim (Bool-cases (
          bad_duration u.for_secs
          || is_some (validate is_blank (candidate ops hours is_blank base u)))) [
            | inl bad ↦ inl (ground arith)
            | inr good ↦ elim (Bool-cases (bad_mute ops hours is_blank u.mute_hours)) [
              | inl bad ↦ inl (ground arith)
              | inr fine ↦ inr (u, ground arith)
            ]
          ]
  ]

  -- With every statement done, and from a state in which the evaluator's rules are the built-in ones
  -- with the stored changes: they are so again after an update, however it is answered, and no stored
  -- change but that of its rule differs from before.
  pub handle_update_rule-IsSynced :
      (s : Alarms F) (id j : String) (req : Option (RuleUpdate F)) (now : Time) (by : String)
      → IsSynced s
      → (id == j) ≡ false
      → let s' = (handle_update_rule ops hours is_blank every s id req now by).0 in
        IsSynced s' × (lookup j s'.overrides ≡ lookup j s.overrides)
  handle_update_rule-IsSynced s id j req now by v other = elim (update_splits s id req now by) [
    | inl same ↦ rw same (v, refl)
    | inr (u, saved) ↦
        let o =
          new_override ops hours is_blank (existing_override (some s.overrides) id) u now by in
        let own = existing_override_id s.overrides id in
        rw saved (save_and_reload-IsSynced s o j (subst (λ k. (k == j) ≡ false) (sym own) other))
  ]

  delete_rule_override_done :
      (overrides : Overrides F) (id : String)
      → (delete_rule_override true overrides id ≡ (overrides, some not_found)
          × (lookup id overrides ≡ none))
        ⊎ (delete_rule_override true overrides id ≡ (erase id overrides, none))
  unfolding delete_rule_override
  delete_rule_override_done overrides id = elim (Option-cases (lookup id overrides)) [
    | inl e ↦ inl (rw (e, delete_rule_override) refl, e)
    | inr (o, e) ↦ inr (rw (e, delete_rule_override) refl)
  ]

  abbrev IsReset : Alarms F → String → String → Overrides F × Option DbError → Type 0
  IsReset s id j deleted =
      let s' = (finish_reset ops hours is_blank true s deleted).0 in
      IsSynced s' × (lookup id s'.overrides ≡ none) × (lookup j s'.overrides ≡ lookup j s.overrides)

  -- With every statement done, a reset leaves no stored change of its rule and every other as it was,
  -- and the evaluator's rules are the built-in ones with the stored changes.
  pub handle_reset_rule_lem :
      (s : Alarms F) (id j : String)
      → (id == j) ≡ false
      → let s' = (handle_reset_rule ops hours is_blank every s id).0 in
        IsSynced s'
        × (lookup id s'.overrides ≡ none)
        × (lookup j s'.overrides ≡ lookup j s.overrides)
  unfolding handle_reset_rule finish_reset reload_rules list_rule_overrides replace_rules
  handle_reset_rule_lem s id j other =
      let erased = lookup-erase id id s.overrides in
      let gone : lookup id (erase id s.overrides) ≡ none = rw (==_refl id) at erased in
      let kept = lookup-erase_other id j s.overrides other in
      elim (delete_rule_override_done s.overrides id) [
        | inl (step, e) ↦ subst (IsReset s id j) (sym step) (refl, e, refl)
        | inr step ↦ subst (IsReset s id j) (sym step) (refl, gone, kept)
      ]
