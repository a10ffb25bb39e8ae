-- ===== src/Storage/Rollup/Idempotent.antt =====
-- internal/storage/rollup.go: a Rollup run again, also after one that was cut short, as after a restart.
use sys_sentient.Prelude.{
  String, if◌then◌else◌, Bool-cases, keep_if, any, All, ◌==◌, nat_key, string_key, lookup, insert,
  Time, before, ℕ, ◌≡◌, refl, ap, ◌∙◌, inl, inr, Bool, true, false, some, List, [], ◌∷◌, arith,
}
use sys_sentient.Models.{FloatOps, SystemState}
use sys_sentient.Storage.Rollup.{
  minute_of, RollupKey, RollupRow, Rollups, Aggregates, History, RetentionPolicy, rollup_key,
  insert_groups, minute_key, five_minute_key, rollup_minute, minute_row, five_minute_row,
  rollup_minutes, rollup_five_minutes, is_ripe_minute, rollup, raw_cutoff, days_before, Calendar,
}
use sys_sentient.Storage.Rollup.Groups.{
  insert_groups_self, insert_groups-stands, lookup-insert_groups,
}

-- Each item of a list is found in it.
pub any_self {ℓ} :
    {A : Type ℓ} (key : A → RollupKey) (xs ys : List A)
    → ((k : RollupKey) → any (λ y. key y == k) xs ≡ true → any (λ y. key y == k) ys ≡ true)
    → All (λ x. any (λ y. key y == key x) ys ≡ true) xs
any_self key [] ys sub = tt
any_self key (x ∷ xs) ys sub = (
  sub (key x) (rw ((rollup_key.same_iff (key x) (key x)).1 refl)),
  any_self key xs ys (λ k h. sub k (ground (arith, h))),
)

module _ {F : Type 0} where
  -- A row that no ripe minute may have leaves the ripe minutes as they are.
  keep_if-insert :
      (cutoff : Time) (k : RollupKey) (r : RollupRow F) (m : Rollups F)
      → (k.resolution == rollup_minute) ≡ false
      → keep_if (is_ripe_minute cutoff) (insert k r m) ≡ keep_if (is_ripe_minute cutoff) m
  unfolding insert
  keep_if-insert cutoff k r [] h = rw h
  keep_if-insert cutoff k r ((j, w) ∷ m) h = elim (Bool-cases (j == k)) [
    | inl hit ↦
        let other : (j.resolution == rollup_minute) ≡ false =
          rw ((rollup_key.same_iff j k).0 hit) h in
        rw (hit, h, other)
    | inr miss ↦ rw miss (
        ap (λ (l : Rollups F). if is_ripe_minute cutoff (j, w) then (j, w) ∷ l else l)
          (keep_if-insert cutoff k r m h))
  ]

  keep_if-insert_groups :
      (cutoff : Time) (row : Rollups F → RollupRow F) (whole xs m : Rollups F)
      → keep_if (is_ripe_minute cutoff) (insert_groups (λ e. five_minute_key e.0) row whole xs m)
        ≡ keep_if (is_ripe_minute cutoff) m
  unfolding insert_groups
  keep_if-insert_groups cutoff row whole [] m = refl
  keep_if-insert_groups cutoff row whole (x ∷ xs) m =
      keep_if-insert cutoff _ _ _ refl ∙ keep_if-insert_groups cutoff row whole xs m

  -- No five minutes have the key of a minute.
  pub not-five :
      (b : Time) (host : String) (xs : Rollups F)
      → any
          (λ e.
            five_minute_key e.0
            == record { bucket = b; resolution = rollup_minute; host_id = host })
          xs
        ≡ false
  not-five b host [] = refl
  not-five b host (x ∷ xs) = ground (arith, not-five b host xs)

module _ {F : Type 0} (ops : FloatOps F) (agg : Aggregates F) where
  -- The minute rows of `xs` stand in a table.
  abbrev Stand : List (SystemState F) → List (SystemState F) → Rollups F → Type 0
  Stand whole xs t =
      All
        (λ s.
          lookup (minute_key s) t
          ≡ some (minute_row ops agg (keep_if (λ y. minute_key y == minute_key s) whole)))
        xs

  Stand-five :
      (cutoff : Time) (db : History F) (whole xs : List (SystemState F))
      → Stand whole xs db.rollups
      → Stand whole xs (rollup_five_minutes ops agg cutoff db).rollups
  unfolding rollup_five_minutes
  Stand-five cutoff db whole [] h = tt
  Stand-five cutoff db whole (s ∷ xs) h =
      let ripe = keep_if (is_ripe_minute cutoff) db.rollups in
      (
        rw
            (
              lookup-insert_groups (λ (e : RollupKey × RollupRow F). five_minute_key e.0)
                  (five_minute_row ops agg) ripe ripe db.rollups (minute_key s),
              not-five (minute_of s.timestamp) s.host_id ripe,
            )
            h.0,
        Stand-five cutoff db whole xs h.1,
      )

  rollup_minutes-Stand :
      (cutoff : Time) (db : History F)
      → let ripe = keep_if (λ (s : SystemState F). before s.timestamp cutoff) db.metrics in
        Stand ripe ripe (rollup_minutes ops agg cutoff db).rollups
  unfolding rollup_minutes
  rollup_minutes-Stand cutoff db =
      let ripe = keep_if (λ (s : SystemState F). before s.timestamp cutoff) db.metrics in
      insert_groups-stands minute_key (minute_row ops agg) ripe ripe ripe db.rollups
        (any_self minute_key ripe ripe (λ k h. h))

  rollup_minutes_self :
      (cutoff : Time) (db : History F)
      → (let ripe = keep_if (λ (s : SystemState F). before s.timestamp cutoff) db.metrics in
          Stand ripe ripe db.rollups)
      → rollup_minutes ops agg cutoff db ≡ db
  unfolding rollup_minutes
  rollup_minutes_self cutoff db h =
      ap (λ t. record db { rollups = t })
        (insert_groups_self minute_key (minute_row ops agg) _ _ db.rollups h)

  rollup_five_minutes-twice :
      (cutoff : Time) (db : History F)
      → rollup_five_minutes ops agg cutoff (rollup_five_minutes ops agg cutoff db)
        ≡ rollup_five_minutes ops agg cutoff db
  unfolding rollup_five_minutes
  rollup_five_minutes-twice cutoff db =
      let key = λ (e : RollupKey × RollupRow F). five_minute_key e.0 in
      let row = five_minute_row ops agg in
      let ripe = keep_if (is_ripe_minute cutoff) db.rollups in
      rw (keep_if-insert_groups cutoff row ripe ripe db.rollups) (
        ap (λ t. record db { rollups = t })
          (insert_groups_self key row ripe ripe (insert_groups key row ripe ripe db.rollups) (
            insert_groups-stands key row ripe ripe ripe db.rollups
              (any_self key ripe ripe (λ k h. h)))))

  rollup_minutes-twice :
      (cutoff : Time) (db : History F)
      → rollup_minutes ops agg cutoff (rollup_minutes ops agg cutoff db)
        ≡ rollup_minutes ops agg cutoff db
  unfolding rollup_minutes
  rollup_minutes-twice cutoff db =
      rollup_minutes_self cutoff (rollup_minutes ops agg cutoff db) (rollup_minutes-Stand cutoff db)

  both-twice :
      (cutoff minutes : Time) (db : History F)
      → (let once = rollup_five_minutes ops agg minutes (rollup_minutes ops agg cutoff db) in
          rollup_five_minutes ops agg minutes (rollup_minutes ops agg cutoff once) ≡ once)
  unfolding rollup_minutes rollup_five_minutes
  both-twice cutoff minutes db =
      let first = rollup_minutes ops agg cutoff db in
      ap (rollup_five_minutes ops agg minutes) (
        rollup_minutes_self cutoff (rollup_five_minutes ops agg minutes first)
          (Stand-five minutes first _ _ (rollup_minutes-Stand cutoff db)))
      ∙ rollup_five_minutes-twice minutes first

-- A Rollup that succeeds leaves the same tables if another one with the same cutoffs ran before it,
-- whether that one succeeded, or stopped at either of its statements.
pub rollup_again :
    ⦃calendar : Calendar⦄ {F : Type 0} (ops : FloatOps F) (agg : Aggregates F) (up : ℕ → Bool)
    (policy : RetentionPolicy) (now : Time) (db : History F)
    → rollup ops agg (λ _. true) policy now (rollup ops agg up policy now db).0
      ≡ rollup ops agg (λ _. true) policy now db
unfolding rollup
rollup_again ops agg up policy now db =
    let cutoff = raw_cutoff policy now in
    let minutes = days_before policy.minute_days now in
    elim (Bool-cases (up 0)) [
      | inr stopped ↦ rw stopped
      | inl first ↦ rw first (elim (Bool-cases (up 1)) [
        | inr stopped ↦ rw stopped (
            ap (λ t. (rollup_five_minutes ops agg minutes t, true))
              (rollup_minutes-twice ops agg cutoff db))
        | inl done ↦ rw done (ap (λ t. (t, true)) (both-twice ops agg cutoff minutes db))
      ])
    ]
