-- ===== src/Daemon/Maintenance/Ledger/Kept.antt =====
-- cmd/daemon/maintenance.go: what becomes of the samples of a minute over a history.
use sys_sentient.Storage.SqlTime.{sql_time}
use sys_sentient.Storage.Samples.{stored_sample}
use sys_sentient.Prelude.{
  ltb, if◌then◌else◌, nat_beq_iff, ltb→lt, Bool-cases, ◌==◌, nat_key, string_key, Time, ◌<◌, String,
  ◌≡◌, refl, inl, inr, false, List, [], ◌∷◌, ◌++◌, arith,
}
use sys_sentient.Models.{FloatOps}
use sys_sentient.Storage.Rollup.{
  Calendar, rollup_key, minute_key, minute_of, RetentionPolicy, Aggregates,
}
use sys_sentient.Storage.Rollup.Tally.{
  tally-append, recorded-metrics, recorded_none, row_key, tally, recorded,
}
use sys_sentient.Daemon.Maintenance.Ledger.{
  passed, sampled, Fits, AllFit, Ledger, Event, run_events, apply_event, Accounted,
}
use sys_sentient.Daemon.Maintenance.Ledger.Steps.{pass_lem}

module _ ⦃calendar : Calendar⦄ {F : Type 0} (ops : FloatOps F) (agg : Aggregates F)
    (name : String → Time → String) (policy : RetentionPolicy) where
  apply_event-Accounted :
      (b : Time) (host : String) (e : Event F) (l : Ledger F)
      → Fits ops agg name policy b e l
      → Accounted b host l
      → Accounted b host (apply_event ops agg name policy e l)
  unfolding apply_event
  apply_event-Accounted b host (sampled s) l fits a =
      let k = row_key b host in
      let here = tally-append k l.history.metrics (stored_sample s) in
      let there = tally-append k l.arrived (stored_sample s) in
      let same = nat_beq_iff (minute_of (sql_time s.timestamp)) b in
      let unread = recorded-metrics k l.history (l.history.metrics ++ stored_sample s ∷ []) in
      let elsewhere : b < l.pruned_to → (minute_key (stored_sample s) == k) ≡ false =
        λ old. ground arith in
      let whole = a.whole in
      record {
        whole = whole;
        rolled = λ old. ground arith;
        kept = λ young. ground arith;
        gone = λ old. ground arith;
        few = λ young. ground arith;
      }
  apply_event-Accounted b host (passed o now) l (whole, later, young) a =
      let (counted, left) = pass_lem ops agg name policy b host o now l.history whole young in
      record {
        whole = ground arith;
        rolled = λ old. ground arith;
        kept = λ young. ground arith;
        gone = λ old. ground arith;
        few = λ young. ground arith;
      }

  run_events-Accounted :
      (b : Time) (host : String) (es : List (Event F)) (l : Ledger F)
      → AllFit ops agg name policy b es l
      → Accounted b host l
      → Accounted b host (run_events ops agg name policy es l)
  unfolding run_events
  run_events-Accounted b host [] l fits a = a
  run_events-Accounted b host (e ∷ rest) l fits a =
      run_events-Accounted b host rest (apply_event ops agg name policy e l) fits.1
        (apply_event-Accounted b host e l fits.0 a)

  -- Over any history of samples and maintenance passes that starts with empty tables and archives
  -- nothing, whatever fails in each pass: for each minute of each host, what the minute's row counts once
  -- the minute is pruned from the raw table, and what stands in the raw table until then, is all the
  -- samples that ever arrived. This holds for the minutes that the minute tier still keeps, provided that
  -- no sample arrives that is older than what is pruned, that the cutoffs do not go back, and that each
  -- cutoff is at a whole minute.
  pub minute_history_kept :
      (b : Time) (host : String) (es : List (Event F))
      → AllFit ops agg name policy b es
          (record { history = record { metrics = []; rollups = [] }; arrived = []; pruned_to = 0 })
      → let l = run_events ops agg name policy es (record {
        history = record { metrics = []; rollups = [] };
        arrived = [];
        pruned_to = 0;
      }) in
        (if ltb b l.pruned_to
          then recorded (row_key b host) l.history
          else tally (row_key b host) l.history.metrics)
        ≡ tally (row_key b host) l.arrived
  minute_history_kept b host es fits =
      let a = run_events-Accounted b host es _ fits (record {
        whole = refl;
        rolled = λ old. absurd (omega arith);
        kept = λ _. refl;
        gone = λ old. absurd (omega arith);
        few = λ _. omega (arith, recorded_none (row_key b host) _ refl);
      }) in
      let end =
        run_events ops agg name policy es (record {
          history = record { metrics = []; rollups = [] };
          arrived = [];
          pruned_to = 0;
        }) in
      elim (Bool-cases (ltb b end.pruned_to)) [
        | inl old ↦ rw old (a.rolled (ltb→lt b end.pruned_to old))
        | inr young ↦ rw young (a.kept (ground arith))
      ]
