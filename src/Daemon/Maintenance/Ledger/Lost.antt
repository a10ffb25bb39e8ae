-- ===== src/Daemon/Maintenance/Ledger/Lost.antt =====
-- cmd/daemon/maintenance.go: what a cutoff within a minute does to the samples of the minute.
use sys_sentient.Prelude.{
  lt→ltb, ◌+◌, not, before, true, keep_if, ap, refl, ◌∙◌, ℕ, nat_key, string_key, Time, minute, ◌≤◌,
  ◌<◌, String, ◌≡◌, Bool,
}
use sys_sentient.Models.{FloatOps}
use sys_sentient.Storage.Rollup.{
  Calendar, rollup_key, days_before, raw_cutoff, RetentionPolicy, rollup, Aggregates, prune_tiers,
  History,
}
use sys_sentient.Storage.Rollup.Tally.{tally_over, tally_split, row_key, tally, recorded}
use sys_sentient.Daemon.Maintenance.{maintain_tiers}
use sys_sentient.Daemon.Maintenance.Ledger.{no_outage, pass_tiers}
use sys_sentient.Daemon.Maintenance.Ledger.Steps.{
  recorded-rollup, recorded-prune_tiers, done-rollup,
}

module _ ⦃calendar : Calendar⦄ {F : Type 0} (ops : FloatOps F) (agg : Aggregates F)
    (name : String → Time → String) (policy : RetentionPolicy) where
  pass_metrics :
      (now : Time) (db : History F)
      → (pass_tiers ops agg name policy no_outage now db).metrics
        ≡ keep_if (λ s. not (before s.timestamp (raw_cutoff policy now))) db.metrics
  unfolding maintain_tiers rollup prune_tiers
  pass_metrics now db = refl

  pass_recorded :
      (b : Time) (host : String) (now : Time) (db : History F)
      → days_before policy.minute_days now ≤ b
      → let k = row_key b host in
        let here = tally k (keep_if (λ s. before s.timestamp (raw_cutoff policy now)) db.metrics) in
        0 < here → recorded k (pass_tiers ops agg name policy no_outage now db) ≡ here
  unfolding maintain_tiers
  pass_recorded b host now db young some_ripe =
      let up : ℕ → Bool = λ _. true in
      let counted = recorded-rollup ops agg b host up policy now db in
      let left =
        recorded-prune_tiers b host up policy now (rollup ops agg up policy now db).0 young in
      rw (done-rollup ops agg b host up policy now db, pass_tiers)
        (left ∙ (rw (lt→ltb _ _ some_ripe) at counted))

  -- Where the cutoff of a pass lies within a minute, the next pass that the minute is old enough for
  -- does not complete the minute's row but replaces it: after the first pass the row counts the samples before
  -- the cutoff, which are deleted, and after the second only those after it. So the first are lost.
  pub straddled_minute_lost :
      (b : Time) (host : String) (now later : Time) (db : History F)
      → let c = raw_cutoff policy now in
        let k = row_key b host in
        let early = tally k (keep_if (λ s. before s.timestamp c) db.metrics) in
        let late = tally k (keep_if (λ s. not (before s.timestamp c)) db.metrics) in
        let first = pass_tiers ops agg name policy no_outage now db in
        0 < early
        → 0 < late
        → b + minute ≤ raw_cutoff policy later
        → days_before policy.minute_days now ≤ b
        → days_before policy.minute_days later ≤ b
        → (tally k db.metrics ≡ early + late)
          × (recorded k first ≡ early)
          × (recorded k (pass_tiers ops agg name policy no_outage later first) ≡ late)
  straddled_minute_lost b host now later db he hl old young young' =
      let k = row_key b host in
      let c = raw_cutoff policy now in
      let first = pass_tiers ops agg name policy no_outage now db in
      let ripe : tally k (keep_if (λ s. before s.timestamp (raw_cutoff policy later)) first.metrics)
          ≡ tally k (keep_if (λ s. not (before s.timestamp c)) db.metrics) =
        tally_over b (raw_cutoff policy later) host first.metrics old
        ∙ ap (tally k) (pass_metrics now db) in
      (
        tally_split k c db.metrics,
        pass_recorded b host now db young he,
        pass_recorded b host later first young' (rw ripe hl) ∙ ripe,
      )
