-- ===== src/Daemon/Maintenance/Ledger/Steps.antt =====
-- cmd/daemon/maintenance.go: what a pass does to the samples and the row of one minute and host.
use sys_sentient.Prelude.{
  before, keep_if, false, ap, refl, ◌∙◌, inl, inr, Bool-cases, ltb, if◌then◌else◌, arith, ℕ,
  nat_key, string_key, Time, minute, ◌%◌, ◌≤◌, String, ◌≡◌, Bool, ◌&&◌,
}
use sys_sentient.Models.{FloatOps}
use sys_sentient.Storage.Rollup.{
  Calendar, rollup_key, rollup_five_minute, rollup_minute, prune_buckets, prune_raw, rollup_minutes,
  days_before, raw_cutoff, RetentionPolicy, rollup, Aggregates, prune_tiers, History,
}
use sys_sentient.Storage.Rollup.Tally.{
  recorded-prune_buckets, recorded-prune_raw, tally-before, recorded-rollup_five_minutes,
  tally-after, recorded-rollup_minutes, row_key, tally, recorded,
}
use sys_sentient.Daemon.Maintenance.{maintain_tiers, Outage}
use sys_sentient.Daemon.Maintenance.Ledger.{prunes, pass_tiers, Outage}

module _ ⦃calendar : Calendar⦄ {F : Type 0} (ops : FloatOps F) (agg : Aggregates F) (b : Time)
    (host : String) where
  -- A Rollup leaves the samples as they are, and the row as its first statement leaves it.
  pub recorded-rollup :
      (up : ℕ → Bool) (policy : RetentionPolicy) (now : Time) (db : History F)
      → let ripe = keep_if (λ s. before s.timestamp (raw_cutoff policy now)) db.metrics in
        let here = tally (row_key b host) ripe in
        recorded (row_key b host) (rollup ops agg up policy now db).0
        ≡ (if up 0 && ltb 0 here then here else recorded (row_key b host) db)
  unfolding rollup
  recorded-rollup up policy now db =
      let c = raw_cutoff policy now in
      let k = row_key b host in
      let first = recorded-rollup_minutes ops agg k c db in
      let same =
        recorded-rollup_five_minutes ops agg b host (days_before policy.minute_days now)
          (rollup_minutes ops agg c db) in
      elim (Bool-cases (up 0)) [
        | inr fails ↦ rw fails
        | inl e ↦
            rw e (elim (Bool-cases (up 1)) [
              | inr fails ↦ rw fails first
              | inl e ↦ rw e (same ∙ first)
            ])
      ]

  metrics-rollup :
      (up : ℕ → Bool) (policy : RetentionPolicy) (now : Time) (db : History F)
      → (rollup ops agg up policy now db).0.metrics ≡ db.metrics
  unfolding rollup
  metrics-rollup up policy now db = ground arith

  pub done-rollup :
      (up : ℕ → Bool) (policy : RetentionPolicy) (now : Time) (db : History F)
      → (rollup ops agg up policy now db).1 ≡ (up 0 && up 1)
  unfolding rollup
  done-rollup up policy now db = ground arith

module _ ⦃calendar : Calendar⦄ {F : Type 0} (b : Time) (host : String) where
  pub recorded-prune_tiers :
      (up : ℕ → Bool) (policy : RetentionPolicy) (now : Time) (db : History F)
      → days_before policy.minute_days now ≤ b
      → recorded (row_key b host) (prune_tiers up policy now db).0 ≡ recorded (row_key b host) db
  unfolding prune_tiers
  recorded-prune_tiers up policy now db young =
      let five = days_before policy.five_minute_days now in
      let minutes = days_before policy.minute_days now in
      let db₁ = prune_raw (raw_cutoff policy now) db in
      let db₂ = prune_buckets rollup_minute minutes db₁ in
      let first = recorded-prune_raw (row_key b host) (raw_cutoff policy now) db in
      let second = recorded-prune_buckets rollup_minute b minutes host db₁ (inr young) in
      let third = recorded-prune_buckets rollup_five_minute b five host db₂ (inl refl) in
      elim (Bool-cases (up 0)) [
        | inr fails ↦ rw fails
        | inl e ↦ rw e (elim (Bool-cases (up 1)) [
          | inr fails ↦ rw fails first
          | inl e ↦ rw e (elim (Bool-cases (up 2)) [
            | inr fails ↦ rw fails (second ∙ first)
            | inl e ↦ rw e (third ∙ second ∙ first)
          ])
        ])
      ]

  tally-prune_tiers :
      (up : ℕ → Bool) (policy : RetentionPolicy) (now : Time) (db : History F)
      → raw_cutoff policy now % minute ≡ 0
      → tally (row_key b host) (prune_tiers up policy now db).0.metrics
        ≡ (if up 0 && ltb b (raw_cutoff policy now) then 0 else tally (row_key b host) db.metrics)
  unfolding prune_tiers
  tally-prune_tiers up policy now db whole =
      let after = tally-after b (raw_cutoff policy now) host db.metrics whole in
      elim (Bool-cases (up 0)) [
        | inr fails ↦ rw fails
        | inl e ↦ rw e (elim (Bool-cases (up 1)) [
          | inr fails ↦ rw fails after
          | inl e ↦
              rw e (elim (Bool-cases (up 2)) [ inr fails ↦ rw fails after | inl e ↦ rw e after ])
        ])
      ]

module _ ⦃calendar : Calendar⦄ {F : Type 0} (ops : FloatOps F) (agg : Aggregates F)
    (name : String → Time → String) (policy : RetentionPolicy) where
  pub pass_lem :
      (b : Time) (host : String) (o : Outage) (now : Time) (db : History F)
      → raw_cutoff policy now % minute ≡ 0
      → days_before policy.minute_days now ≤ b
      → let c = raw_cutoff policy now in
        let k = row_key b host in
        let here = if ltb b c then tally k db.metrics else 0 in
        (recorded k (pass_tiers ops agg name policy o now db)
          ≡ (if o.rollup_up 0 && ltb 0 here then here else recorded k db))
        × (tally k (pass_tiers ops agg name policy o now db).metrics
            ≡ (if prunes o && ltb b c then 0 else tally k db.metrics))
  unfolding maintain_tiers
  pass_lem b host o now db whole young =
      let k = row_key b host in
      let c = raw_cutoff policy now in
      let db' : History F = (rollup ops agg o.rollup_up policy now db).0 in
      let done = done-rollup ops agg b host o.rollup_up policy now db in
      let counted =
        rw (tally-before b c host db.metrics whole) at
          (recorded-rollup ops agg b host o.rollup_up policy now db) in
      let same : tally k db'.metrics ≡ tally k db.metrics =
        ap (tally k) (metrics-rollup ops agg b host o.rollup_up policy now db) in
      elim (Bool-cases (rollup ops agg o.rollup_up policy now db).1) [
        | inr fails ↦
            let kept : (prunes o && ltb b c) ≡ false = (ground arith) in
            rw (fails, pass_tiers) (counted, rw kept same)
        | inl e ↦
            let left = recorded-prune_tiers b host o.prune_up policy now db' young in
            let cut = tally-prune_tiers b host o.prune_up policy now db' whole in
            let all_run : prunes o ≡ o.prune_up 0 = (ground arith) in
            rw (e, pass_tiers) (left ∙ counted, rw (all_run, cut, same))
      ]
