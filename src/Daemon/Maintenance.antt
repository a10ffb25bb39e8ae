-- ===== src/Daemon/Maintenance.antt =====
-- cmd/daemon/maintenance.go: the hourly upkeep of the database. `up n` says whether the n-th step of a
-- pass succeeds, or its n-th statement where a step has several; the statements of a step are numbered
-- from 0 by functions of their own.
pub mod Ledger
use sys_sentient.Prelude.{
  if◌then◌else◌, keep_if, ℤ, pos, negsuc, sub_ℕ, ◌==◌, nat_key, string_key, Time, Duration,
  add_time, before, second, hour, ℕ, ◌+◌, ◌-◌, ◌*◌, ◌/◌, ◌%◌, String, Bool, not, ◌&&◌, List, arith,
}
use sys_sentient.Models.{FloatOps}
use sys_sentient.Storage.Accounts.{Accounts, prune_expired_sessions}
use sys_sentient.Storage.Fleet.{Fleet, prune_expired_join_tokens}
use sys_sentient.Storage.Events.{AlertEvent, prune_old_alert_events}
use sys_sentient.Storage.Archive.{Archives, archive_tier}
use sys_sentient.Storage.Rollup.{
  Calendar, Aggregates, RetentionPolicy, rollup, prune_tiers, rollup_minute, rollup_five_minute,
}

pub record Insight : Type 0 where
  pub id : ℕ
  pub timestamp : Time
  pub content : String
  pub host_id : String
  pub status : String

-- The tables that a pass works on.
pub record Database (F : Type 0) : Type 0 where
  pub archives : Archives F
  pub insights : List Insight
  pub alert_events : List (AlertEvent F)
  pub accounts : Accounts
  pub fleet : Fleet

pub record Maintenance (F : Type 0) : Type 0 where
  pub store : Database F
  pub insights_retention_hours : ℤ
  pub archive_path : String
  pub ticks : ℕ
  pub vacuums_run : ℕ

abbrev pub vacuum_every_n_ticks : ℕ
vacuum_every_n_ticks = 24

-- What fails in a pass: the statements of a Rollup and of a PruneTiers, the statements and the file steps
-- of the archiving of each tier, the other prunes, and the compaction.
pub record Outage : Type 0 where
  pub rollup_up : ℕ → Bool
  pub prune_up : ℕ → Bool
  pub archive_up : String → ℕ → Bool
  pub disk_up : String → ℕ → Bool
  pub others_up : ℕ → Bool
  pub compact_up : Bool

-- `-N hours`.
abbrev pub hours_back : ℤ → Duration
hours_back (pos n) = sub_ℕ 0 (n * hour)
hours_back (negsuc n) = pos ((n + 1) * hour)

-- `DELETE FROM insights WHERE timestamp < datetime('now', '-N hours')`, in whole seconds.
unfoldable pub prune_old_insights : Bool → List Insight → ℤ → Time → List Insight
prune_old_insights up db hours now =
    if not up
    then db
    else keep_if (λ i. not (before i.timestamp (add_time now (hours_back hours) / second * second)))
        db

module _ ⦃calendar : Calendar⦄ {F : Type 0} (ops : FloatOps F) (agg : Aggregates F)
    (name : String → Time → String) where
  unfoldable pub archive_tiers : Outage → String → RetentionPolicy → Time → Archives F → Archives F
  archive_tiers o path policy now s =
      if path == ""
      then s
      else let s =
          (archive_tier (o.archive_up rollup_minute) (o.disk_up rollup_minute) name rollup_minute
            path (calendar.days_ago policy.minute_days now) s).0 in
        (archive_tier (o.archive_up rollup_five_minute) (o.disk_up rollup_five_minute) name
          rollup_five_minute path (calendar.days_ago policy.five_minute_days now) s).0

  -- Roll up, archive, and prune; nothing is archived or pruned where the rollup fails.
  unfoldable pub maintain_tiers : Outage → String → RetentionPolicy → Time → Archives F → Archives F
  unfolding archive_tiers
  maintain_tiers o path policy now s =
      let (history, done) = rollup ops agg o.rollup_up policy now s.history in
      let s = record s { history = history } in
      if not done
      then s
      else let s = archive_tiers o path policy now s in
        record s { history = (prune_tiers o.prune_up policy now s.history).0 }

  -- One pass. The retention is what the runtime settings are at its start.
  unfoldable pub run : Outage → RetentionPolicy → Time → Maintenance F → Maintenance F
  unfolding maintain_tiers prune_old_insights
  run o policy now m =
      let db = m.store in
      let ticks = m.ticks + 1 in
      record m {
        store = record {
          archives = maintain_tiers o m.archive_path policy now db.archives;
          insights = prune_old_insights (o.others_up 0) db.insights m.insights_retention_hours now;
          alert_events =
              (prune_old_alert_events (o.others_up 1) db.alert_events m.insights_retention_hours
                now).0;
          accounts = (prune_expired_sessions (o.others_up 2) db.accounts now).0;
          fleet = (prune_expired_join_tokens (o.others_up 3) db.fleet now).0;
        };
        ticks = ticks;
        vacuums_run =
            if o.compact_up && ticks % vacuum_every_n_ticks == 0
            then m.vacuums_run + 1
            else m.vacuums_run;
      }
