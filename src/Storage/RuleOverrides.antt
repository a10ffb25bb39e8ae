-- ===== src/Storage/RuleOverrides.antt =====
-- internal/storage/rules.go: what an operator has changed of the built-in rules. The table is an
-- association list by the rule's id; `up` says whether the statement succeeds.
use mathlib.Core.Option
use sys_sentient.Storage.SqlTime.{sql_time}
use sys_sentient.Storage.Accounts.{DbError, db_failed, not_found}
use sys_sentient.Prelude.{
  if◌then◌else◌, is_some, ℤ, nat_key, string_key, lookup, insert, erase, Time, after, String, Bool,
  false, not, Option, none, some, List,
}

pub record RuleOverride (F : Type 0) : Type 0 where
  pub rule_id : String
  pub threshold : Option F
  pub for_secs : Option ℤ
  pub enabled : Option Bool
  pub muted_until : Option Time
  pub updated_at : Time
  pub updated_by : String

abbrev pub Overrides : Type 0 → Type 0
Overrides F = List (String × RuleOverride F)

module _ {F : Type 0} where
  abbrev pub is_muted : RuleOverride F → Time → Bool
  is_muted o now = elim o.muted_until [ none ↦ false | some until ↦ after until now ]

  unfoldable pub save_rule_override :
      Bool → Overrides F → RuleOverride F → Overrides F × Option DbError
  save_rule_override up db o = if not up then (db, some db_failed) else (
    insert o.rule_id
        (record o {
          muted_until = Option.map sql_time o.muted_until;
          updated_at = sql_time o.updated_at;
        })
        db,
    none,
  )

  unfoldable pub delete_rule_override : Bool → Overrides F → String → Overrides F × Option DbError
  delete_rule_override up db id =
      if not up
      then (db, some db_failed)
      else if not (is_some (lookup id db))
      then (db, some not_found)
      else (erase id db, none)

  -- `none` is a failed read.
  unfoldable pub list_rule_overrides : Bool → Overrides F → Option (Overrides F)
  list_rule_overrides up db = if up then some db else none
