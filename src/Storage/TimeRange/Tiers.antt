-- ===== src/Storage/TimeRange/Tiers.antt =====
-- internal/storage/timerange.go: whether the tier that ResolveResolution picks can answer the window,
-- with the tiers pruned as in internal/storage/rollup.go.
use sys_sentient.Storage.TimeRange.Spread.{not_inverted}
use sys_sentient.Prelude.{
  map, if◌then◌else◌, Bool-cases, length, take, keep_if, ℤ, Keyed, ◌==◌, nat_key, string_key,
  retain, Time, before, hour, ℕ, zero, suc, ◌+◌, ◌-◌, ◌*◌, ◌≤◌, ◌<◌, String, ◌≡◌, refl, ap, ◌∙◌,
  ◌⊎◌, inl, inr, Bool, true, false, not, ◌&&◌, List, [], ◌∷◌, arith, sort_by, keep_if-keep_if,
}
use sys_sentient.Models.{Process, SystemState}
use sys_sentient.Storage.Samples.{restore_top_processes}
use sys_sentient.Storage.SqlTime.{sql_time, sql_time_mono}
use sys_sentient.Storage.Rollup.{
  Calendar, point_of, History, RetentionPolicy, RollupKey, RollupRow, Rollups, rollup_minute,
  rollup_five_minute, raw_cutoff, days_before, prune_raw, prune_buckets, prune_tiers,
}
use sys_sentient.Storage.TimeRange.{
  invalid_range, Range, rows, resolution_raw, raw_horizon, resolve_resolution, clamp_limit, every,
  stride, window, query_range, tier_window, get_rollups_range, is_inverted, lies_in, is_of_host,
}

pub retain-keep_if :
    {K V : Type 0} ⦃e : Keyed K⦄ (p : K → V → Bool) (m : List (K × V))
    → retain p m ≡ keep_if (λ entry. p entry.0 entry.1) m
unfolding retain
retain-keep_if p [] = refl
retain-keep_if p (entry ∷ m) = ground (arith, retain-keep_if p m)

pub keep_if_none :
    {A : Type 0} (p q : A → Bool) (xs : List A)
    → ((x : A) → p x ≡ true → q x ≡ false)
    → keep_if p (keep_if q xs) ≡ []
keep_if_none p q [] h = refl
keep_if_none p q (x ∷ xs) h = elim (Bool-cases (q x)) [
  | inr gone ↦ rw gone (keep_if_none p q xs h)
  | inl kept ↦ elim (Bool-cases (p x)) [
    | inl hit ↦ cc (h x hit)
    | inr miss ↦ rw (kept, miss) (keep_if_none p q xs h)
  ]
]

-- The raw tier is picked for young windows only.
raw_is_young :
    (r : Range) (retention : ℕ) (now : Time)
    → resolve_resolution r retention now ≡ resolution_raw
    → raw_horizon retention now < r.from
unfolding resolve_resolution
raw_is_young r retention now h = ground (
  arith,
  string_key.same_iff rollup_minute resolution_raw,
  string_key.same_iff rollup_five_minute resolution_raw,
)

young_cutoff :
    (retention now later from : Time)
    → raw_horizon retention now < from
    → later ≤ now + hour
    → sql_time (later - retention) ≤ sql_time from
young_cutoff retention now later from young soon =
    sql_time_mono (later - retention) from (ground arith)

below_horizon :
    (from to now hours cutoff : ℕ)
    → from ≤ to
    → sql_time to < cutoff
    → cutoff ≤ sql_time (now - hours * hour)
    → from ≤ raw_horizon (hours * hour) now
below_horizon from to now hours cutoff ordered old h = ground arith

resolve_minute :
    (r : Range) (retention : ℕ) (now : Time)
    → r.from ≤ raw_horizon retention now
    → r.from ≤ r.to
    → r.to ≤ r.from + 36 * hour
    → resolve_resolution r retention now ≡ rollup_minute
unfolding resolve_resolution
resolve_minute r retention now old ordered short = ground arith

module _ {F : Type 0} (db : History F) (host : String) (r : Range) where
  -- What is old enough to be pruned lies in no window that starts later.
  window-prune_raw :
      (cutoff : Time)
      → cutoff ≤ sql_time r.from
      → window (prune_raw cutoff db) host r ≡ window db host r
  unfolding window prune_raw
  window-prune_raw cutoff h = ap (sort_by (λ s. s.timestamp)) (
      keep_if-keep_if (λ (s : SystemState F). lies_in r s.timestamp && is_of_host host s.host_id)
        (λ (s : SystemState F). not (before s.timestamp cutoff)) db.metrics (λ s hit. ground arith))

  tier_window-prune_buckets :
      (tier pruned : String) (cutoff : Time)
      → ((tier == pruned) ≡ false) ⊎ (cutoff ≤ sql_time r.from)
      → tier_window (prune_buckets pruned cutoff db) tier host r ≡ tier_window db tier host r
  unfolding tier_window prune_buckets
  tier_window-prune_buckets tier pruned cutoff h =
      let old : RollupKey → Bool = λ k. k.resolution == pruned && before k.bucket cutoff in
      rw (retain-keep_if (λ k (_ : RollupRow F). not (old k)) db.rollups) (
        ap (sort_by (λ (e : RollupKey × RollupRow F). e.0.bucket)) (
          keep_if-keep_if
            (λ (e : RollupKey × RollupRow F).
              e.0.resolution == tier && (lies_in r e.0.bucket && is_of_host host e.0.host_id))
            (λ (e : RollupKey × RollupRow F). not (old e.0)) db.rollups
            (λ e hit. ground (arith, string_key.same_iff e.0.resolution tier))))

  -- The statements that fail leave the window as it is, too.
  window-prune_tiers :
      ⦃calendar : Calendar⦄ (policy : RetentionPolicy) (up : ℕ → Bool) (now : Time)
      → raw_cutoff policy now ≤ sql_time r.from
      → window (prune_tiers up policy now db).0 host r ≡ window db host r
  unfolding prune_tiers window
  window-prune_tiers policy up now h =
      let pruned = window-prune_raw (raw_cutoff policy now) h in
      elim (Bool-cases (up 0)) [
        | inr fails ↦ rw fails
        | inl e ↦ rw e (elim (Bool-cases (up 1)) [
          | inr fails ↦ rw fails pruned
          | inl e ↦
              rw e (elim (Bool-cases (up 2)) [ inr fails ↦ rw fails pruned | inl e ↦ rw e pruned ])
        ])
      ]

  tier_window_emptied :
      (cutoff : Time)
      → sql_time r.to < cutoff
      → tier_window (prune_buckets rollup_minute cutoff db) rollup_minute host r ≡ []
  unfolding tier_window prune_buckets sort_by
  tier_window_emptied cutoff h =
      let old : RollupKey → Bool = λ k. k.resolution == rollup_minute && before k.bucket cutoff in
      rw (retain-keep_if (λ k (_ : RollupRow F). not (old k)) db.rollups) (
        ap (sort_by (λ (e : RollupKey × RollupRow F). e.0.bucket)) (
          keep_if_none
            (λ (e : RollupKey × RollupRow F).
              e.0.resolution == rollup_minute
              && (lies_in r e.0.bucket && is_of_host host e.0.host_id))
            (λ (e : RollupKey × RollupRow F). not (old e.0)) db.rollups (λ e hit. ground arith)))

query_range-window :
    {F : Type 0} (summary : List (Process F) → String) (db db' : History F) (host : String)
    (r : Range) (limit : ℤ)
    → window db host r ≡ window db' host r
    → query_range summary true db host r limit ≡ query_range summary true db' host r limit
unfolding query_range
query_range-window summary db db' host r limit e =
    let capped = clamp_limit limit in
    ap
      (λ found.
        if is_inverted r
        then invalid_range
        else rows (
            map (restore_top_processes summary)
              (take capped (every (stride (length found) capped) 0 found))))
      e

take_nil : {A : Type 0} (n : ℕ) → take {A = A} n [] ≡ []
take_nil zero = refl
take_nil (suc n) = refl

get_rollups_range-none :
    {F : Type 0} (db : History F) (host : String) (r : Range) (limit : ℤ)
    → r.from ≤ r.to
    → tier_window db rollup_minute host r ≡ []
    → get_rollups_range true db rollup_minute host r limit ≡ rows []
unfolding get_rollups_range
get_rollups_range-none {F} db host r limit ordered e = rw (not_inverted r.from r.to ordered) (
    ap (λ (found : Rollups F). rows (map point_of (take (clamp_limit limit) found))) e
    ∙ ap (λ (found : Rollups F). rows (map point_of found)) (take_nil (clamp_limit limit)))

-- Where ResolveResolution picks the raw tier, the answer is not affected by pruning: a PruneTiers
-- that runs at any time in the hour after the choice, however far it gets, leaves every sample of
-- the window, so the same query has the same answer.
pub raw_tier_answers :
    ⦃calendar : Calendar⦄ {F : Type 0} (summary : List (Process F) → String)
    (policy : RetentionPolicy) (db : History F) (host : String) (r : Range) (now later : Time)
    (up : ℕ → Bool) (limit : ℤ)
    → resolve_resolution r (policy.raw_hours * hour) now ≡ resolution_raw
    → now ≤ later
    → later ≤ now + hour
    → query_range summary true (prune_tiers up policy later db).0 host r limit
      ≡ query_range summary true db host r limit
raw_tier_answers summary policy db host r now later up limit picked h k =
    query_range-window summary (prune_tiers up policy later db).0 db host r limit (
      window-prune_tiers db host r policy up later (
        young_cutoff (policy.raw_hours * hour) now later r.from
          (raw_is_young r (policy.raw_hours * hour) now picked) k))

-- Where raw samples are kept no longer than the minute tier: a window of at most 36 hours that ends before
-- the minute tier begins, and starts no earlier than the five minute tier does, is sent to the minute
-- tier, where nothing of it is left once the tiers have been pruned, although its rows of the five
-- minute tier are all kept. ResolveResolution does not ask how long the minute tier is kept.
pub old_window_unanswered :
    ⦃calendar : Calendar⦄ {F : Type 0} (policy : RetentionPolicy) (db : History F) (host : String)
    (r : Range) (now : Time) (limit : ℤ)
    → r.from ≤ r.to
    → r.to ≤ r.from + 36 * hour
    → sql_time r.to < days_before policy.minute_days now
    → days_before policy.five_minute_days now ≤ sql_time r.from
    → days_before policy.minute_days now ≤ raw_cutoff policy now
    → let db' = (prune_tiers (λ _. true) policy now db).0 in
      (resolve_resolution r (policy.raw_hours * hour) now ≡ rollup_minute)
      × (get_rollups_range true db' rollup_minute host r limit ≡ rows [])
      × (tier_window db' rollup_five_minute host r ≡ tier_window db rollup_five_minute host r)
unfolding prune_tiers
old_window_unanswered policy db host r now limit ordered short old kept hours =
    let five = days_before policy.five_minute_days now in
    let minutes = days_before policy.minute_days now in
    let db₁ = prune_raw (raw_cutoff policy now) db in
    let db₂ = prune_buckets rollup_minute minutes db₁ in
    (
      resolve_minute r (policy.raw_hours * hour) now
          (below_horizon r.from r.to now policy.raw_hours minutes ordered old hours) ordered short,
      get_rollups_range-none (prune_buckets rollup_five_minute five db₂) host r limit ordered (
          tier_window-prune_buckets db₂ host r rollup_minute rollup_five_minute five (inl refl)
          ∙ tier_window_emptied db₁ host r minutes old),
      tier_window-prune_buckets db₂ host r rollup_five_minute rollup_five_minute five (inr kept)
          ∙ tier_window-prune_buckets db₁ host r rollup_five_minute rollup_minute minutes (inl refl)
          ∙ unfold tier_window prune_raw in refl,
    )
