-- ===== src/Alerting/Evaluator/Balance.antt =====
-- internal/alerting/evaluator.go: notifications over whole histories. Every firing transition is
-- answered by one resolved transition, unless the alert is still firing.
use sys_sentient.Models.{FloatOps, SystemState}
use sys_sentient.Alerting.Rule.{metric_value, matches, Rule, Alert, AlertState, resolved}
use sys_sentient.Alerting.Evaluator.{
  store_alert, eval_rules, eval_rule, ActiveMap, AlertKey, alert_key, is_firing, next_alert, emit,
}
use sys_sentient.Alerting.Evaluator.Frame.{lookup-store_alert, at_key}
use sys_sentient.Alerting.Evaluator.Sound.{lookup-IsSound, eval_rule-IsSound, IsSound, IsLiveOption}
use sys_sentient.Prelude.{
  Option-cases, ==_eq, sym, inr, inl, subst, Bool-cases, lookup, refl, if◌then◌else◌, ◌==◌, nat_key,
  string_key, ==_refl, Time, Duration, ℕ, ◌+◌, ◌≡◌, Bool, true, false, ◌&&◌, Option, none, some,
  List, [], ◌∷◌, ◌++◌, arith,
}

abbrev pub is_resolved : AlertState → Bool
is_resolved resolved = true
is_resolved _ = false

module _ {F : Type 0} where
  abbrev pub key_of : Alert F → AlertKey
  key_of a = at_key a.host_id a.rule_id

  -- How many transitions of a list concern a key and are in a state that passes a test.
  abbrev pub tally : (AlertState → Bool) → AlertKey → List (Alert F) → ℕ
  tally p k [] = 0
  tally p k (a ∷ out) = (if key_of a == k && p a.state then 1 else 0) + tally p k out

  abbrev pub is_open : Option (Alert F) → ℕ
  is_open none = 0
  is_open (some a) = if is_firing a.state then 1 else 0

  pub tally-append :
      (p : AlertState → Bool) (k : AlertKey) (xs ys : List (Alert F))
      → tally p k (xs ++ ys) ≡ tally p k xs + tally p k ys
  tally-append p k [] ys = omega arith
  tally-append p k (x ∷ xs) ys = omega (arith, tally-append p k xs ys)

  -- At its own key the machine's step is balanced.
  next_alert_balance :
      (d : Duration) (s : SystemState F) (now : Time) (r : Rule F) (v : F) (b : Bool)
      (o : Option (Alert F))
      → IsLiveOption (at_key s.host_id r.id) o
      → let step = next_alert d s now r v b o in
        let key = at_key s.host_id r.id in
        tally is_firing key (emit step.1) + is_open o
        ≡ tally is_resolved key (emit step.1) + is_open step.0
  unfolding next_alert
  next_alert_balance d s now r v true none h = ground (arith, ==_refl s.host_id, ==_refl r.id)
  next_alert_balance d s now r v true (some a) h = ground (arith, ==_refl s.host_id, ==_refl r.id)
  next_alert_balance d s now r v false none h = omega arith
  next_alert_balance d s now r v false (some a) h = ground (arith, ==_refl s.host_id, ==_refl r.id)

  -- What the machine emits concerns its own key.
  next_alert_key :
      (d : Duration) (s : SystemState F) (now : Time) (r : Rule F) (v : F) (b : Bool)
      (o : Option (Alert F)) (a : Alert F)
      → IsLiveOption (at_key s.host_id r.id) o
      → (next_alert d s now r v b o).1 ≡ some a
      → key_of a ≡ at_key s.host_id r.id
  unfolding next_alert
  next_alert_key d s now r v true none a h e = ground arith
  next_alert_key d s now r v true (some x) a h e = ground arith
  next_alert_key d s now r v false none a h e = cc
  next_alert_key d s now r v false (some x) a h e = ground arith

  emit_other :
      (p : AlertState → Bool) (key k : AlertKey) (o : Option (Alert F))
      → ((a : Alert F) → o ≡ some a → key_of a ≡ key)
      → (key == k) ≡ false
      → tally p k (emit o) ≡ 0
  emit_other p key k none h e = refl
  emit_other p key k (some a) h e =
      subst (λ x. (if x == k && p a.state then 1 else 0) + 0 ≡ 0) (sym (h a refl))
        (rw e (omega arith))

  -- What an input adds to the count of firings, less what it adds to the count of endings, is what
  -- it adds to the number of open alerts.
  abbrev pub IsBalanced :
      AlertKey → ActiveMap F × List (Alert F) → ActiveMap F × List (Alert F) → Type 0
  IsBalanced k before_it after_it =
      tally is_firing k after_it.1
        + tally is_resolved k before_it.1
        + is_open (lookup k before_it.0)
      ≡ tally is_firing k before_it.1
        + tally is_resolved k after_it.1
        + is_open (lookup k after_it.0)

module _ {F : Type 0} (ops : FloatOps F) (d : Duration) (s : SystemState F) (now : Time) where
  eval_value_balance :
      (r : Rule F) (v : F) (m : ActiveMap F) (out : List (Alert F)) (k : AlertKey)
      → IsSound m
      → let key = at_key s.host_id r.id in
        let step = next_alert d s now r v (matches ops r v) (lookup key m) in
        IsBalanced k (m, out) (store_alert key step.0 m, out ++ emit step.1)
  eval_value_balance r v m out k h =
      let key : AlertKey = at_key s.host_id r.id in
      let live = lookup-IsSound key m h in
      let b = matches ops r v in
      let step = next_alert d s now r v b (lookup key m) in
      let emitted = next_alert_key d s now r v b (lookup key m) in
      elim (Bool-cases (key == k)) [
        | inl same ↦ rw (← ==_eq key k same) (
            rw (lookup-store_alert key key step.0 m, ==_refl key)
              (omega (
                arith,
                tally-append is_firing key out (emit step.1),
                tally-append is_resolved key out (emit step.1),
                next_alert_balance d s now r v b (lookup key m) live,
              )))
        | inr other ↦
            rw (lookup-store_alert key k step.0 m, other)
              (omega (
                arith,
                tally-append is_firing k out (emit step.1),
                tally-append is_resolved k out (emit step.1),
                emit_other is_firing key k step.1 (λ a e. emitted a live e) other,
                emit_other is_resolved key k step.1 (λ a e. emitted a live e) other,
              ))
      ]

  eval_rule_balance :
      (r : Rule F) (m : ActiveMap F) (out : List (Alert F)) (k : AlertKey)
      → IsSound m
      → IsBalanced k (m, out) (eval_rule ops d s now r (m, out))
  unfolding eval_rule
  eval_rule_balance r m out k h = elim (Bool-cases r.enabled) [
    | inr off ↦ rw off (omega arith)
    | inl on ↦ elim (Option-cases (metric_value ops s r.metric)) [
      | inl e ↦ rw (on, e) (omega arith)
      | inr (v, e) ↦ rw (on, e) (eval_value_balance r v m out k h)
    ]
  ]

  pub eval_rules_balance :
      (rs : List (Rule F)) (m : ActiveMap F) (out : List (Alert F)) (k : AlertKey)
      → IsSound m
      → IsBalanced k (m, out) (eval_rules ops d s now rs (m, out))
  unfolding eval_rules
  eval_rules_balance [] m out k h = omega arith
  eval_rules_balance (r ∷ rs) m out k h =
      let (m', out') = eval_rule ops d s now r (m, out) in
      omega (
        arith,
        eval_rule_balance r m out k h,
        eval_rules_balance rs m' out' k (eval_rule-IsSound ops d s now r m out h),
      )
