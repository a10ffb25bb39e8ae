-- ===== src/Server/Ingest/Backlog.antt =====
-- internal/server/ingest.go: a backlog of samples from one host.
use mathlib.Core.Path.{ap₂}
use mathlib.Core.List.{append_assoc, append-nil}
use sys_sentient.Prelude.{
  ltb, if◌then◌else◌, length, keep_if, All, ◌==◌, nat_key, string_key, insert, Time, ℕ, suc, ◌+◌,
  ◌-◌, ◌≤◌, String, ◌≡◌, refl, sym, ap, ◌∙◌, Bool, true, false, not, Option, none, some, List, [],
  ◌∷◌, ◌++◌, map, arith,
}
use sys_sentient.Models.{FloatOps, SystemState}
use sys_sentient.Alerting.Evaluator.{evaluate}
use sys_sentient.Alerting.Notify.{dispatch}
use sys_sentient.Storage.Samples.{save_batch, save_each, save_sample, stored_sample, is_empty}
use sys_sentient.Storage.Fleet.{Agent}
use sys_sentient.Storage.RuleOverrides.{list_rule_overrides}
use sys_sentient.Server.Ingest.{
  finish_ingest, Intake, Faults, IngestRequest, IngestAnswer, ingested, notifiable, visit_hosts,
  touch_credential, handle_ingest, last_seen_samples, is_refused, max_ingest_batch, record_events,
}

not_over : (a b : ℕ) → a ≤ b → ltb b a ≡ false
not_over a b h = ground arith

some_status : (n : ℕ) → ◌≡◌ {A = ℕ} (if suc n == 0 then 400 else 200) 200
some_status n = ground arith

module _ {F : Type 0} where
  -- The last of a list that begins with `y`.
  abbrev pub last_from : SystemState F → List (SystemState F) → SystemState F
  last_from y [] = y
  last_from y (x ∷ xs) = last_from x xs

  first_seen :
      (y : SystemState F) (ys : List (SystemState F))
      → last_seen_samples (y ∷ ys) [] ≡ last_seen_samples ys ((y.host_id, y) ∷ [])
  unfolding last_seen_samples insert
  first_seen y ys = refl

  last_seen_one :
      (h : String) (y : SystemState F) (xs : List (SystemState F))
      → All (λ x. x.host_id ≡ h) xs
      → last_seen_samples xs ((h, y) ∷ []) ≡ (h, last_from y xs) ∷ []
  unfolding last_seen_samples insert
  last_seen_one h y [] all_h = refl
  last_seen_one h y (x ∷ xs) (same, all_h) =
      rw ((string_key.same_iff h x.host_id).1 (sym same))
        (ap (λ k. last_seen_samples xs ((k, x) ∷ [])) same ∙ last_seen_one h x xs all_h)

  -- Every sample that can be stored is, behind what there was.
  save_each-All :
      (bad : SystemState F → Bool) (db xs : List (SystemState F))
      → All (λ x. bad x ≡ false) xs
      → save_each bad db xs ≡ (db ++ map stored_sample xs, length xs)
  unfolding save_each save_sample
  save_each-All bad db [] h = ap (λ (l : List (SystemState F)). (l, 0)) (sym (append-nil db))
  save_each-All bad db (x ∷ xs) (here, h) = rw here (
      ap (λ (p : List (SystemState F) × ℕ). (p.0, p.1 + 1))
        (save_each-All bad (db ++ stored_sample x ∷ []) xs h)
      ∙ ap₂ (λ (l : List (SystemState F)) (n : ℕ). (l, n))
          (append_assoc db (stored_sample x ∷ []) (map stored_sample xs)) (omega arith))

  save_batch-All :
      (up : ℕ → Bool) (bad : SystemState F → Bool) (db : List (SystemState F)) (y : SystemState F)
      (ys : List (SystemState F))
      → up 0 ≡ true
      → up 1 ≡ true
      → All (λ x. bad x ≡ false) (y ∷ ys)
      → save_batch up bad db (y ∷ ys) ≡ (db ++ map stored_sample (y ∷ ys), some (length (y ∷ ys)))
  unfolding save_batch
  save_batch-All up bad db y ys up₀ up₁ good =
      rw (up₀, up₁)
        (ap (λ (p : List (SystemState F) × ℕ). (p.0, some p.1))
          (save_each-All bad db (y ∷ ys) good))

  not_empty :
      (p : SystemState F → Bool) (xs : List (SystemState F)) (y : SystemState F)
      (ys : List (SystemState F))
      → keep_if p xs ≡ y ∷ ys
      → is_empty xs ≡ false
  not_empty p [] y ys h = cc
  not_empty p (x ∷ xs) y ys h = refl

module _ {F : Type 0} (ops : FloatOps F)
    (visit : List (String × SystemState F) → List (String × SystemState F)) where
  -- Visiting one host evaluates its sample, and noting the credential changes nothing of that.
  visit_one :
      (f : Faults F) (agent : Option Agent) (version : String) (now : Time) (s : Intake F)
      (host : String) (newest : SystemState F) (seen : List (String × SystemState F))
      → let s' =
          touch_credential
            (f.up 2)
            agent
            version
            now
            seen
            (visit_hosts ops f version now ((host, newest) ∷ []) s) in
        let (evaluator, transitions) = evaluate ops s.evaluator newest now in
        let overrides = list_rule_overrides (f.overrides_up newest.host_id) s.overrides in
        (s'.metrics ≡ s.metrics)
        × (s'.evaluator ≡ evaluator)
        × (s'.alert_events ≡ record_events f.saved now transitions s.alert_events)
        × (s'.attempts ≡ s.attempts ++ dispatch s.notifiers (notifiable overrides now transitions))
  unfolding visit_hosts touch_credential
  visit_one f none version now s host newest seen = (refl, refl, refl, refl)
  visit_one f (some a) version now s host newest seen = (refl, refl, refl, refl)

  -- A push of a backlog from one host, of any length up to 1000, in which all that is not refused can be
  -- stored: every such sample is stored and counted, and the others are counted as rejected; but the
  -- alerts are evaluated once, on the last of them, so that no transition is recorded, and no one is
  -- notified, for any other. (A map of one host is visited in one way.)
  pub handle_ingest_backlog :
      (f : Faults F) (agent : Option Agent) (req : IngestRequest F) (now : Time) (s : Intake F)
      (y : SystemState F) (ys : List (SystemState F))
      → keep_if (λ x. not (is_refused now x)) req.samples ≡ y ∷ ys
      → All (λ x. x.host_id ≡ y.host_id) ys
      → All (λ x. f.bad x ≡ false) (y ∷ ys)
      → length req.samples ≤ max_ingest_batch
      → f.up 0 ≡ true
      → f.up 1 ≡ true
      → visit ((y.host_id, last_from y ys) ∷ []) ≡ (y.host_id, last_from y ys) ∷ []
      → let newest = last_from y ys in
        let (s', answer) = handle_ingest ops visit f agent (some req) now s in
        let (evaluator, transitions) = evaluate ops s.evaluator newest now in
        let overrides = list_rule_overrides (f.overrides_up newest.host_id) s.overrides in
        (answer ≡ ingested 200 (length (y ∷ ys)) (length req.samples - length (y ∷ ys)))
        × (s'.metrics ≡ s.metrics ++ map stored_sample (y ∷ ys))
        × (s'.evaluator ≡ evaluator)
        × (s'.alert_events ≡ record_events f.saved now transitions s.alert_events)
        × (s'.attempts ≡ s.attempts ++ dispatch s.notifiers (notifiable overrides now transitions))
  unfolding handle_ingest finish_ingest
  handle_ingest_backlog f agent req now s y ys batch one good few up₀ up₁ order =
      let newest = last_from y ys in
      let seen = (y.host_id, newest) ∷ [] in
      let metrics = s.metrics ++ map stored_sample (y ∷ ys) in
      let answer = ingested 200 (length (y ∷ ys)) (length req.samples - length (y ∷ ys)) in
      let visited : visit (last_seen_samples (y ∷ ys) []) ≡ seen =
        ap visit (first_seen y ys ∙ last_seen_one y.host_id y ys one) ∙ order in
      let end = λ (e : List (String × SystemState F)).
        touch_credential (f.up 2) agent req.agent_version now e
          (visit_hosts ops f req.agent_version now e (record s { metrics = metrics })) in
      let (stored, evaluated, recorded, notified) =
        visit_one f agent req.agent_version now (record s { metrics = metrics }) y.host_id newest
          seen in
      let done : handle_ingest ops visit f agent (some req) now s ≡ (end seen, answer) =
        rw
          (
            not_empty (λ x. not (is_refused now x)) req.samples y ys batch,
            not_over (length req.samples) max_ingest_batch few,
          )
          (ap (λ b. finish_ingest ops visit f agent req now s b (save_batch f.up f.bad s.metrics b))
              batch
            ∙ ap (finish_ingest ops visit f agent req now s (y ∷ ys))
                (save_batch-All f.up f.bad s.metrics y ys up₀ up₁ good)
            ∙ ap
                (λ status. (
                  end (visit (last_seen_samples (y ∷ ys) [])),
                  ingested status (length (y ∷ ys)) (length req.samples - length (y ∷ ys)),
                ))
                (some_status (length ys))
            ∙ ap (λ e. (end e, answer)) visited) in
      (
        ap (λ (p : Intake F × IngestAnswer). p.1) done,
        ap (λ (p : Intake F × IngestAnswer). p.0.metrics) done ∙ stored,
        ap (λ (p : Intake F × IngestAnswer). p.0.evaluator) done ∙ evaluated,
        ap (λ (p : Intake F × IngestAnswer). p.0.alert_events) done ∙ recorded,
        ap (λ (p : Intake F × IngestAnswer). p.0.attempts) done ∙ notified,
      )
