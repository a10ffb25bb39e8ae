-- ===== src/Daemon/Maintenance/Ledger.antt =====
-- cmd/daemon/maintenance.go and internal/storage/rollup.go: a history of samples and passes, with the
-- samples that have arrived so far kept beside the tables.
pub mod Steps
pub mod Kept
pub mod Lost
use sys_sentient.Storage.SqlTime.{sql_time}
use sys_sentient.Storage.Samples.{stored_sample}
use sys_sentient.Prelude.{
  ◌+◌, true, [], ◌∷◌, ◌++◌, if◌then◌else◌, arith, nat_key, string_key, Time, minute, ◌%◌, ◌≤◌, ◌<◌,
  String, ◌≡◌, Bool, ◌&&◌, List,
}
use sys_sentient.Models.{FloatOps, SystemState}
use sys_sentient.Storage.Rollup.{
  Calendar, rollup_key, minute_key, days_before, raw_cutoff, RetentionPolicy, Aggregates, History,
}
use sys_sentient.Storage.Rollup.Tally.{row_key, tally, recorded}
use sys_sentient.Daemon.Maintenance.{maintain_tiers, Outage}

-- A history of the tables with all that has arrived so far, and the time up to which raw samples have
-- been pruned.
pub record Ledger (F : Type 0) : Type 0 where
  pub history : History F
  pub arrived : List (SystemState F)
  pub pruned_to : Time

pub data Event (F : Type 0) : Type 0 where
  sampled : SystemState F → Event F
  passed : Outage → Time → Event F

-- Whether a pass gets as far as to delete raw samples.
abbrev pub prunes : Outage → Bool
prunes o = o.rollup_up 0 && (o.rollup_up 1 && o.prune_up 0)

module _ {F : Type 0} (b : Time) (host : String) where
  -- What is known of a minute of a host: before `pruned_to` its row accounts for all that arrived, and
  -- after it all that arrived is still there.
  pub record Accounted (l : Ledger F) : Type 0 where
    pub whole : l.pruned_to % minute ≡ 0
    pub rolled :
        b < l.pruned_to → recorded (row_key b host) l.history ≡ tally (row_key b host) l.arrived
    pub kept :
        l.pruned_to ≤ b
        → tally (row_key b host) l.history.metrics ≡ tally (row_key b host) l.arrived
    pub gone : b < l.pruned_to → tally (row_key b host) l.history.metrics ≡ 0
    pub few :
        l.pruned_to ≤ b → recorded (row_key b host) l.history ≤ tally (row_key b host) l.arrived

-- A pass in which all goes well.
abbrev pub no_outage : Outage
no_outage = record {
  rollup_up = λ _. true;
  prune_up = λ _. true;
  archive_up = λ _ _. true;
  disk_up = λ _ _. true;
  others_up = λ _. true;
  compact_up = true;
}

-- The ledger after an event, with nothing archived.
module _ ⦃calendar : Calendar⦄ {F : Type 0} (ops : FloatOps F) (agg : Aggregates F)
    (name : String → Time → String) (policy : RetentionPolicy) where
  abbrev pub pass_tiers : Outage → Time → History F → History F
  pass_tiers o now db =
      (maintain_tiers ops agg name o "" policy now (record { history = db; files = [] })).history

  unfoldable pub apply_event : Event F → Ledger F → Ledger F
  apply_event (sampled s) l = record {
    history = record (l.history) { metrics = l.history.metrics ++ stored_sample s ∷ [] };
    arrived = l.arrived ++ stored_sample s ∷ [];
    pruned_to = l.pruned_to;
  }
  apply_event (passed o now) l = record {
    history = pass_tiers o now l.history;
    arrived = l.arrived;
    pruned_to = if prunes o then raw_cutoff policy now else l.pruned_to;
  }

  pub run_events : List (Event F) → Ledger F → Ledger F
  unfolding apply_event
  run_events [] l = l
  run_events (e ∷ rest) l = run_events rest (apply_event e l)

  -- An event keeps the books: a sample that is not older than what is pruned, a pass at a whole minute.
  abbrev pub Fits : Time → Event F → Ledger F → Type 0
  Fits b (sampled s) l = l.pruned_to ≤ sql_time s.timestamp
  Fits b (passed o now) l =
      (raw_cutoff policy now % minute ≡ 0)
      × (l.pruned_to ≤ raw_cutoff policy now)
      × (days_before policy.minute_days now ≤ b)

  -- Each event keeps the books of a minute when it comes.
  abbrev pub AllFit : Time → List (Event F) → Ledger F → Type 0
  AllFit b [] l = Unit
  AllFit b (e ∷ rest) l = Fits b e l × AllFit b rest (apply_event e l)
