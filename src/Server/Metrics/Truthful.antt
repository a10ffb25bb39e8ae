-- ===== src/Server/Metrics/Truthful.antt =====
-- internal/server/metrics_range.go and handleMetrics of internal/server/server.go: what a bounded answer
-- says of itself.
use sys_sentient.Prelude.{
  if◌then◌else◌, ltb→lt, Bool-cases, All, pos, ◌==◌, nat_key, string_key, Time, after, before, ℕ,
  ◌-◌, ◌≤◌, String, ◌≡◌, refl, sym, subst, ◌≢◌, ◌⊎◌, inl, inr, Bool, true, false, Option, none,
  some, List, [], arith,
}
use sys_sentient.Models.{SystemState, Process}
use sys_sentient.Config.Runtime.{Runtime}
use sys_sentient.Storage.Samples.{is_empty}
use sys_sentient.Storage.Rollup.{History, RollupPoint}
use sys_sentient.Storage.TimeRange.{
  Range, Rows, rows, invalid_range, query_failed, resolution_raw, query_range,
}
use sys_sentient.Server.Metrics.{
  answer_recent, MetricsParams, ParamOps, RangeQuery, parse_range_query, raw_retention_of,
  RangeResponse, MetricsAnswer, recent, ranged, metrics_failure, covered_by_raw, sampled_response,
  bucket_response, raw_instead, covered_rows, answer_range, answer_recent, handle_metrics,
}
use sys_sentient.Server.Metrics.Within.{
  IsWithin, IsBucketWithin, AllWithin, rows_of_metrics, AllRows, if_any, query_range-IsWithin,
  get_rollups_range-IsBucketWithin,
}

-- A part of a window, from a later start on, and from a given instant on.
abbrev IsPart : Time → Range → Option Range → Type 0
IsPart start r none = Unit
IsPart start r (some c) = (r.from ≤ c.from) × (start ≤ c.from) × (c.to ≡ r.to)

covered-IsPart :
    (raw_retention : ℕ) (now : Time) (r : Range)
    → IsPart (now - raw_retention) r (covered_by_raw raw_retention now r)
covered-IsPart raw_retention now r =
    if_any (IsPart (now - raw_retention) r) (after r.to (now - raw_retention)) _ _
      (elim (Bool-cases (before r.from (now - raw_retention))) [
        | inl late ↦
            rw late (omega (arith, ltb→lt r.from (now - raw_retention) late), omega arith, refl)
        | inr early ↦ rw early (omega arith, ground (arith, early), refl)
      ])
      tt

if_known {κ} :
    {A : Type 0} (P : A → Type κ) (b : Bool) (x y : A)
    → (b ≡ true → P x)
    → P y
    → P (if b then x else y)
if_known P true x y p q = p refl
if_known P false x y p q = q

-- `start` is where the raw tier begins, `asked` the resolution that was asked for or chosen.
module _ {F : Type 0} (start : Time) (asked host : String) (r : Range) where
  -- The window that an answer names is the one asked for, at the resolution asked for, or a later part of
  -- it that the raw tier holds; every row lies in it, is of the host asked for and of the resolution that
  -- is named; and the count is that of the rows.
  pub record IsTruthful (a : RangeResponse F) : Type 0 where
    pub counted : a.count ≡ rows_of_metrics a.metrics
    pub not_before : r.from ≤ a.from
    pub same_end : a.to ≡ r.to
    pub whole_or_held : ((a.resolution ≡ asked) × (a.from ≡ r.from)) ⊎ (start ≤ a.from)
    pub within : AllWithin a.resolution host (record { from = a.from; to = a.to }) a.metrics

  sampled_response-IsTruthful :
      (c : Range) (found : List (SystemState F))
      → r.from ≤ c.from
      → c.to ≡ r.to
      → ((resolution_raw ≡ asked) × (c.from ≡ r.from)) ⊎ (start ≤ c.from)
      → All (IsWithin host c) found
      → IsTruthful (sampled_response c found)
  sampled_response-IsTruthful c found later same held h = record {
    counted = refl;
    not_before = later;
    same_end = same;
    whole_or_held = held;
    within = (refl, h);
  }

  bucket_response-IsTruthful :
      (points : List (RollupPoint F))
      → All (IsBucketWithin asked host r) points
      → IsTruthful (bucket_response asked r points)
  bucket_response-IsTruthful points h = record {
    counted = refl;
    not_before = omega arith;
    same_end = refl;
    whole_or_held = inl (refl, refl);
    within = h;
  }

  raw_instead-IsTruthful :
      (c : Range) (found : Rows (SystemState F))
      → IsPart start r (some c)
      → AllRows (IsWithin host c) found
      → IsTruthful (raw_instead asked r (some c) found)
  unfolding raw_instead
  raw_instead-IsTruthful c (rows found) p h =
      if_any IsTruthful (is_empty found) _ _ (bucket_response-IsTruthful [] tt)
        (sampled_response-IsTruthful c found p.0 p.2 (inr p.1) h)
  raw_instead-IsTruthful c invalid_range p h = bucket_response-IsTruthful [] tt
  raw_instead-IsTruthful c query_failed p h = bucket_response-IsTruthful [] tt

  covered_rows-IsTruthful :
      (covered : Option Range) (query : Range → Rows (SystemState F))
      → IsPart start r covered
      → ((c : Range) → AllRows (IsWithin host c) (query c))
      → IsTruthful (raw_instead asked r covered (covered_rows query covered))
  unfolding raw_instead
  covered_rows-IsTruthful none query p h = bucket_response-IsTruthful [] tt
  covered_rows-IsTruthful (some c) query p h = raw_instead-IsTruthful c (query c) p (h c)

  -- An answer that names a window is truthful; the others name none.
  abbrev Tells : MetricsAnswer F → Type 0
  Tells (ranged a) = IsTruthful a
  Tells (recent found) = Unit
  Tells (metrics_failure status) = Unit

  answer_samples :
      (found : Rows (SystemState F))
      → resolution_raw ≡ asked
      → AllRows (IsWithin host r) found
      → Tells (elim found [
        | rows xs ↦ ranged (sampled_response r xs)
        | invalid_range ↦ metrics_failure 500
        | query_failed ↦ metrics_failure 500
      ])
  answer_samples (rows xs) raw h =
      sampled_response-IsTruthful r xs (omega arith) refl (inl (raw, refl)) h
  answer_samples invalid_range raw h = tt
  answer_samples query_failed raw h = tt

  answer_buckets :
      (instead : RangeResponse F) (found : Rows (RollupPoint F))
      → IsTruthful instead
      → AllRows (IsBucketWithin asked host r) found
      → Tells (elim found [
        | rows points ↦
            if is_empty points then ranged instead else ranged (bucket_response asked r points)
        | invalid_range ↦ metrics_failure 500
        | query_failed ↦ metrics_failure 500
      ])
  answer_buckets instead (rows points) t h =
      if_any Tells (is_empty points) _ _ t (bucket_response-IsTruthful points h)
  answer_buckets instead invalid_range t h = tt
  answer_buckets instead query_failed t h = tt

module _ {F : Type 0} where
  answer_range-Tells :
      (summary : List (Process F) → String) (up : ℕ → Bool) (db : History F) (q : RangeQuery)
      (r : Range) (raw_retention : ℕ) (now : Time)
      → Tells
          (now - raw_retention)
          q.resolution
          q.host_id
          r
          (answer_range summary up db q r raw_retention now)
  unfolding answer_range
  answer_range-Tells summary up db q r raw_retention now =
      let start = now - raw_retention in
      if_known (Tells start q.resolution q.host_id r) (q.resolution == resolution_raw) _ _
        (λ raw.
          answer_samples start q.resolution q.host_id r _
            (sym ((string_key.same_iff q.resolution resolution_raw).0 raw))
            (query_range-IsWithin summary (up 0) db q.host_id r (pos q.limit)))
        (answer_buckets start q.resolution q.host_id r _ _
          (covered_rows-IsTruthful start q.resolution q.host_id r
            (covered_by_raw raw_retention now r)
            (λ c. query_range summary (up 1) db q.host_id c (pos q.limit))
            (covered-IsPart raw_retention now r)
            (λ c. query_range-IsWithin summary (up 1) db q.host_id c (pos q.limit)))
          (get_rollups_range-IsBucketWithin (up 0) db q.resolution q.host_id r (pos q.limit)))

  recent_or_failure :
      (found : Option (List (SystemState F))) (a : RangeResponse F)
      → (elim found [ none ↦ metrics_failure 500 | some xs ↦ recent xs ]) ≢ ranged a
  recent_or_failure none a e = cc
  recent_or_failure (some xs) a e = cc

  -- Which answers name a window.
  ranged_range :
      (summary : List (Process F) → String) (up : ℕ → Bool) (db : History F) (q : RangeQuery)
      (raw_retention : ℕ) (now : Time) (range : Option Range) (a : RangeResponse F)
      → (elim range [
        | none ↦ answer_recent summary up db q
        | some r ↦ answer_range summary up db q r raw_retention now
      ])
        ≡ ranged a
      → (r : Range) × (range ≡ some r) × IsTruthful (now - raw_retention) q.resolution q.host_id r a
  unfolding answer_recent
  ranged_range summary up db q raw_retention now none a e = absurd (recent_or_failure _ a e)
  ranged_range summary up db q raw_retention now (some r) a e = (
    r,
    refl,
    subst (Tells (now - raw_retention) q.resolution q.host_id r) e
        (answer_range-Tells summary up db q r raw_retention now),
  )

  ranged_query :
      (summary : List (Process F) → String) (up : ℕ → Bool) (db : History F) (raw_retention : ℕ)
      (now : Time) (parsed : Option RangeQuery) (a : RangeResponse F)
      → (elim parsed [
        | none ↦ metrics_failure 400
        | some q ↦ elim q.range [
          | none ↦ answer_recent summary up db q
          | some r ↦ answer_range summary up db q r raw_retention now
        ]
      ])
        ≡ ranged a
      → (q : RangeQuery) × (r : Range) × (parsed ≡ some q)
        × (q.range ≡ some r)
        × IsTruthful (now - raw_retention) q.resolution q.host_id r a
  ranged_query summary up db raw_retention now none a e = cc
  ranged_query summary up db raw_retention now (some q) a e =
      let (r, found, truthful) = ranged_range summary up db q raw_retention now q.range a e in
      (q, r, refl, found, truthful)

  -- An answer that names a window tells the truth, whichever tier it is from, the raw samples that stand in
  -- for a tier without rows included: the query was well formed and bounded; the named window is the one
  -- asked for, at the resolution asked for, or a later part of it with the same end that begins no
  -- earlier than the raw samples that are kept; every row lies in it, is of the host asked for, and is of
  -- the named resolution; and the count is that of the rows.
  pub handle_metrics-IsTruthful :
      (text : ParamOps) (summary : List (Process F) → String) (up : ℕ → Bool)
      (runtime : Option Runtime) (db : History F) (params : MetricsParams) (now : Time)
      (a : RangeResponse F)
      → handle_metrics text summary up runtime db params now ≡ ranged a
      → (q : RangeQuery) × (r : Range) × (parse_range_query text params
            (raw_retention_of runtime)
            now
          ≡ some q)
        × (q.range ≡ some r)
        × IsTruthful (now - raw_retention_of runtime) q.resolution q.host_id r a
  unfolding handle_metrics
  handle_metrics-IsTruthful text summary up runtime db params now a e =
      ranged_query summary up db (raw_retention_of runtime) now
        (parse_range_query text params (raw_retention_of runtime) now) a e
