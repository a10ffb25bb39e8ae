-- ===== src/Daemon/Tests.antt =====
-- cmd/daemon/maintenance.go: a machine's samples of two minutes, and the theorems at them.
use sys_sentient.Prelude.{
  ◌-◌, ltb, if◌then◌else◌, length, keep_if, nat_key, string_key, Time, before, second, minute, hour,
  ℕ, ◌+◌, ◌*◌, String, ◌≡◌, refl, false, not, List, [], ◌∷◌, arith,
}
use sys_sentient.Models.{SystemState, whole, blank_sample}
use sys_sentient.Storage.Rollup.{Calendar, History, Aggregates, default_retention, raw_cutoff}
use sys_sentient.Storage.Rollup.Tally.{row_key, tally, recorded}
use sys_sentient.Daemon.Maintenance.{Outage}
use sys_sentient.Daemon.Maintenance.Ledger.{
  apply_event, Ledger, Event, sampled, passed, no_outage, pass_tiers, run_events,
}
use sys_sentient.Daemon.Maintenance.Ledger.Kept.{minute_history_kept}
use sys_sentient.Daemon.Maintenance.Ledger.Lost.{straddled_minute_lost}

-- Days of 24 hours.
instance abbrev utc : Calendar
utc = record { days_ago = λ days t. t - days * (24 * hour) }

abbrev how_many : Aggregates ℕ
how_many = record { avg = length; greatest = length; weighted = length }

abbrev day : ℕ
day = 24 * hour

abbrev at : Time → SystemState ℕ
at t = record (blank_sample "web-1") { timestamp = t }

abbrev archive_name : String → Time → String
archive_name resolution t = resolution

-- The first pass rolls up and then fails to prune; the second one prunes.
abbrev half_done : Outage
half_done = record no_outage { prune_up = λ _. false }

abbrev two_passes : List (Event ℕ)
two_passes =
    sampled (at (40 * day))
    ∷ sampled (at (40 * day + second))
    ∷ passed half_done (41 * day + minute)
    ∷ sampled (at (40 * day + minute))
    ∷ passed no_outage (41 * day + minute)
    ∷ []

abbrev at_start : Ledger ℕ
at_start = record { history = record { metrics = []; rollups = [] }; arrived = []; pruned_to = 0 }

minute_history_kept_example :
    let l = run_events whole how_many archive_name default_retention two_passes at_start in
    (if ltb (40 * day) l.pruned_to
      then recorded (row_key (40 * day) "web-1") l.history
      else tally (row_key (40 * day) "web-1") l.history.metrics)
    ≡ tally (row_key (40 * day) "web-1") l.arrived
unfolding apply_event
minute_history_kept_example =
    minute_history_kept whole how_many archive_name default_retention (40 * day) "web-1" two_passes
      (
        omega arith,
        (
          omega arith,
          ((refl, omega arith, omega arith), (omega arith, ((refl, omega arith, omega arith), tt))),
        ),
      )

abbrev straddled : History ℕ
straddled = record { metrics = at (40 * day) ∷ at (40 * day + 30 * second) ∷ []; rollups = [] }

straddled_minute_lost_example :
    let c = raw_cutoff default_retention (41 * day + 15 * second) in
    let k = row_key (40 * day) "web-1" in
    let early = tally k (keep_if (λ s. before s.timestamp c) straddled.metrics) in
    let late = tally k (keep_if (λ s. not (before s.timestamp c)) straddled.metrics) in
    let first =
      pass_tiers whole how_many archive_name default_retention no_outage
        (41 * day + 15 * second)
        straddled in
    (tally k straddled.metrics ≡ early + late)
    × (recorded k first ≡ early)
    × (recorded k (
          pass_tiers whole how_many archive_name default_retention no_outage
            (41 * day + hour)
            first)
        ≡ late)
unfolding tally
straddled_minute_lost_example =
    straddled_minute_lost whole how_many archive_name default_retention (40 * day) "web-1"
      (41 * day + 15 * second) (41 * day + hour) straddled (omega arith) (omega arith) (omega arith)
      (omega arith) (omega arith)
