-- ===== src/Server/Ingest/Muted.antt =====
-- internal/server/ingest.go: a push while rules are muted.
use sys_sentient.Storage.Events.{upsert_host}
use mathlib.Core.List.{append_assoc, append-nil}
use sys_sentient.Prelude.{
  ltb, Bool-cases, Option-cases, length, keep_if, All, All-append, nat_key, string_key, Time,
  String, ◌≡◌, refl, sym, subst, ◌∙◌, inl, inr, Bool, true, false, not, Option, none, some, List,
  [], ◌∷◌, ◌++◌,
}
use sys_sentient.Models.{FloatOps, SystemState}
use sys_sentient.Alerting.Rule.{Alert}
use sys_sentient.Alerting.Evaluator.{evaluate}
use sys_sentient.Alerting.Notify.{Notifier, Attempt, dispatch, to_all}
use sys_sentient.Storage.Samples.{save_batch, is_empty}
use sys_sentient.Storage.Fleet.{Agent}
use sys_sentient.Storage.RuleOverrides.{list_rule_overrides, Overrides}
use sys_sentient.Server.Ingest.{
  Intake, Faults, IngestRequest, muted_rule, notifiable, evaluate_and_record, visit_hosts,
  touch_credential, handle_ingest, finish_ingest, last_seen_samples, is_refused, max_ingest_batch,
}

module _ {F : Type 0} (P : Alert F → Type 0) where
  All-to_all : (ns : List Notifier) (t : Alert F) → P t → All (λ a. P a.alert) (to_all ns t)
  All-to_all [] t h = tt
  All-to_all (n ∷ ns) t h = (h, All-to_all ns t h)

  All-dispatch :
      (ns : List Notifier) (ts : List (Alert F)) → All P ts → All (λ a. P a.alert) (dispatch ns ts)
  unfolding dispatch
  All-dispatch ns [] h = tt
  All-dispatch ns (t ∷ ts) (here, rest) = elim (Bool-cases t.acknowledged) [
    | inl e ↦ rw e (All-dispatch ns ts rest)
    | inr e ↦ simp e (
        All-append (λ a. P a.alert) (to_all ns t) (dispatch ns ts) (All-to_all ns t here)
          (All-dispatch ns ts rest))
  ]

module _ {F : Type 0} (now : Time) where
  notifiable_loud :
      (o : Option (Overrides F)) (ts : List (Alert F))
      → All (λ t. muted_rule o now t.rule_id ≡ false) (notifiable o now ts)
  unfolding notifiable
  notifiable_loud o [] = tt
  notifiable_loud o (t ∷ ts) = elim (Bool-cases (muted_rule o now t.rule_id)) [
    | inl e ↦ rw e (notifiable_loud o ts)
    | inr e ↦ rw e (e, notifiable_loud o ts)
  ]

  list_read : (up : Bool) (o : Overrides F) → up ≡ true → list_rule_overrides up o ≡ some o
  unfolding list_rule_overrides
  list_read up o e = rw e

module _ {F : Type 0} (ops : FloatOps F) (f : Faults F) (version : String) (now : Time) where
  abbrev IsLoud : Overrides F → Attempt F → Type 0
  IsLoud o a = muted_rule (some o) now a.alert.rule_id ≡ false

  -- The attempts that are made while the hosts are visited are for rules that are not muted.
  visit_hosts-IsLoud :
      (seen : List (String × SystemState F)) (s : Intake F)
      → ((host : String) → f.overrides_up host ≡ true)
      → (made : List (Attempt F)) × ((visit_hosts ops f version now seen s).attempts
          ≡ s.attempts ++ made)
        × All (IsLoud s.overrides) made
  unfolding visit_hosts
  visit_hosts-IsLoud [] s read = ([], sym (append-nil s.attempts), tt)
  visit_hosts-IsLoud ((host, newest) ∷ rest) s read =
      let o = list_rule_overrides (f.overrides_up newest.host_id) s.overrides in
      let found = (evaluate ops s.evaluator newest now).1 in
      let here = dispatch s.notifiers (notifiable o now found) in
      let s₁ : Intake F = evaluate_and_record ops f newest now (record s {
        hosts = (upsert_host (f.host_up host) s.hosts host newest.hostname version now).0;
      }) in
      let (made, same, loud) = visit_hosts-IsLoud rest s₁ read in
      let quiet : All (IsLoud s.overrides) here =
        All-dispatch (λ t. muted_rule (some s.overrides) now t.rule_id ≡ false) s.notifiers
          (notifiable o now found)
          (subst (λ x. All (λ t. muted_rule x now t.rule_id ≡ false) (notifiable o now found))
            (list_read now (f.overrides_up newest.host_id) s.overrides (read newest.host_id))
            (notifiable_loud now o found)) in
      (
        here ++ made,
        same ∙ append_assoc s.attempts here made,
        All-append (IsLoud s.overrides) here made quiet loud,
      )

  -- Two states that differ in the overrides and the attempts alone have the same alerts and events.
  visit_hosts_apart :
      (seen : List (String × SystemState F)) (s : Intake F) (o : Overrides F)
      (sent : List (Attempt F))
      → let s' = visit_hosts ops f version now seen (record s { overrides = o; attempts = sent }) in
        let s'' = visit_hosts ops f version now seen s in
        (s'.evaluator ≡ s''.evaluator) × (s'.alert_events ≡ s''.alert_events)
  unfolding visit_hosts
  visit_hosts_apart [] s o sent = (refl, refl)
  visit_hosts_apart ((host, newest) ∷ rest) s o sent =
      visit_hosts_apart rest
        (evaluate_and_record ops f newest now (record s {
          hosts = (upsert_host (f.host_up host) s.hosts host newest.hostname version now).0;
        }))
        o _

-- Noting that a credential is alive changes no alert.
touched :
    {F : Type 0} (up : Bool) (agent : Option Agent) (version : String) (now : Time)
    (seen : List (String × SystemState F)) (s s' loud : Intake F)
    → ((made : List (Attempt F)) × (s'.attempts ≡ s.attempts ++ made)
        × All (λ a. muted_rule (some s.overrides) now a.alert.rule_id ≡ false) made)
    → (loud.evaluator ≡ s'.evaluator) × (loud.alert_events ≡ s'.alert_events)
    → let t = touch_credential up agent version now seen s' in
      let u = touch_credential up agent version now seen loud in
      ((made : List (Attempt F)) × (t.attempts ≡ s.attempts ++ made)
        × All (λ a. muted_rule (some s.overrides) now a.alert.rule_id ≡ false) made)
      × (t.evaluator ≡ u.evaluator)
      × (t.alert_events ≡ u.alert_events)
unfolding touch_credential
touched up none version now seen s s' loud h (e, v) = (h, sym e, sym v)
touched up (some a) version now seen s s' loud h (e, v) = (h, sym e, sym v)

module _ {F : Type 0} (ops : FloatOps F)
    (visit : List (String × SystemState F) → List (String × SystemState F)) where
  -- While a push is handled, whatever it holds and whatever fails but the reads of the overrides, each attempt to
  -- notify that is made is for a rule that is not muted; and the alerts, and the events that
  -- are stored, are those that there would be if nothing were muted.
  pub handle_ingest_muted :
      (f : Faults F) (agent : Option Agent) (req : Option (IngestRequest F)) (now : Time)
      (s : Intake F)
      → ((host : String) → f.overrides_up host ≡ true)
      → let s' = (handle_ingest ops visit f agent req now s).0 in
        let loud = (handle_ingest ops visit f agent req now (record s { overrides = [] })).0 in
        ((made : List (Attempt F)) × (s'.attempts ≡ s.attempts ++ made)
          × All (λ a. muted_rule (some s.overrides) now a.alert.rule_id ≡ false) made)
        × (s'.evaluator ≡ loud.evaluator)
        × (s'.alert_events ≡ loud.alert_events)
  unfolding handle_ingest finish_ingest
  handle_ingest_muted f agent none now s read = (([], sym (append-nil s.attempts), tt), refl, refl)
  handle_ingest_muted f agent (some req) now s read =
      let batch = keep_if (λ x. not (is_refused now x)) req.samples in
      let saved = save_batch f.up f.bad s.metrics batch in
      let seen = visit (last_seen_samples batch []) in
      let s₁ : Intake F = record s { metrics = saved.0 } in
      elim (Bool-cases (is_empty req.samples)) [
        | inl e ↦ rw e (([], sym (append-nil s.attempts), tt), refl, refl)
        | inr e ↦ rw e (elim (Bool-cases (ltb max_ingest_batch (length req.samples))) [
          | inl e ↦ rw e (([], sym (append-nil s.attempts), tt), refl, refl)
          | inr e ↦ rw e (elim (Option-cases saved.1) [
            | inl e ↦ rw e (([], sym (append-nil s.attempts), tt), refl, refl)
            | inr (n, e) ↦ rw e (
                touched (f.up 2) agent req.agent_version now seen s₁
                  (visit_hosts ops f req.agent_version now seen s₁)
                  (visit_hosts ops f req.agent_version now seen (record s₁ { overrides = [] }))
                  (visit_hosts-IsLoud ops f req.agent_version now seen s₁ read)
                  (visit_hosts_apart ops f req.agent_version now seen s₁ [] s.attempts))
          ])
        ])
      ]
