-- ===== src/Storage/Rollup/Tally.antt =====
-- internal/storage/rollup.go: how many samples of a minute and host the tables hold, through each
-- statement of a Rollup and of a PruneTiers.
use sys_sentient.Prelude.{
  ltb, if◌then◌else◌, nat_beq_iff, Bool-cases, length, keep_if, any, ◌==◌, nat_key, string_key,
  lookup, lookup-retain_key, Time, before, minute, ℕ, ◌+◌, ◌%◌, ◌≤◌, String, ◌≡◌, refl, ◌⊎◌, inl,
  inr, Bool, false, not, ◌&&◌, Option, none, some, List, [], ◌∷◌, ◌++◌, arith,
}
use sys_sentient.Models.{FloatOps, SystemState}
use sys_sentient.Storage.Rollup.{
  RollupKey, RollupRow, Aggregates, History, rollup_key, minute_key, five_minute_key, rollup_minute,
  minute_row, five_minute_row, rollup_minutes, rollup_five_minutes, is_ripe_minute, prune_raw,
  prune_buckets, minute_of,
}
use sys_sentient.Storage.Rollup.Groups.{lookup-insert_groups}
use sys_sentient.Storage.Rollup.Idempotent.{not-five}

-- The key of the row for a minute of a host.
abbrev pub row_key : Time → String → RollupKey
row_key b host = record { bucket = b; resolution = rollup_minute; host_id = host }

any-keep_if {ℓ} :
    {A : Type ℓ} (p : A → Bool) (xs : List A) → any p xs ≡ ltb 0 (length (keep_if p xs))
any-keep_if p [] = refl
any-keep_if p (x ∷ xs) = ground (arith, any-keep_if p xs)

not-ltb : (a b : ℕ) → b ≤ a → ltb a b ≡ false
not-ltb a b h = ground arith

module _ {F : Type 0} where
  -- The samples of a minute and host in a list.
  unfoldable pub tally : RollupKey → List (SystemState F) → ℕ
  tally k xs = length (keep_if (λ s. minute_key s == k) xs)

  -- The samples that a row accounts for, if there is one.
  abbrev pub samples_in : Option (RollupRow F) → ℕ
  samples_in none = 0
  samples_in (some r) = r.samples

  -- The samples that the row of a minute and host accounts for.
  pub recorded : RollupKey → History F → ℕ
  recorded k db = samples_in (lookup k db.rollups)

  pub tally-append :
      (k : RollupKey) (xs : List (SystemState F)) (s : SystemState F)
      → tally k (xs ++ s ∷ []) ≡ tally k xs + (if minute_key s == k then 1 else 0)
  unfolding tally
  tally-append k [] s = ground arith
  tally-append k (x ∷ xs) s = ground (arith, tally-append k xs s)

  -- Whole minutes lie on one side of a cutoff that is a whole minute.
  pub tally-before :
      (b cutoff : Time) (host : String) (xs : List (SystemState F))
      → cutoff % minute ≡ 0
      → tally (row_key b host) (keep_if (λ s. before s.timestamp cutoff) xs)
        ≡ (if ltb b cutoff then tally (row_key b host) xs else 0)
  unfolding tally
  tally-before b cutoff host [] h = ground arith
  tally-before b cutoff host (s ∷ xs) h =
      ground (arith, tally-before b cutoff host xs h, nat_beq_iff (minute_of s.timestamp) b)

  pub tally-after :
      (b cutoff : Time) (host : String) (xs : List (SystemState F))
      → cutoff % minute ≡ 0
      → tally (row_key b host) (keep_if (λ s. not (before s.timestamp cutoff)) xs)
        ≡ (if ltb b cutoff then 0 else tally (row_key b host) xs)
  unfolding tally
  tally-after b cutoff host [] h = ground arith
  tally-after b cutoff host (s ∷ xs) h =
      ground (arith, tally-after b cutoff host xs h, nat_beq_iff (minute_of s.timestamp) b)

  -- A minute that is over before the cutoff lies before it.
  pub tally_over :
      (b cutoff : Time) (host : String) (xs : List (SystemState F))
      → b + minute ≤ cutoff
      → tally (row_key b host) (keep_if (λ s. before s.timestamp cutoff) xs)
        ≡ tally (row_key b host) xs
  unfolding tally
  tally_over b cutoff host [] h = refl
  tally_over b cutoff host (s ∷ xs) h =
      ground (arith, tally_over b cutoff host xs h, nat_beq_iff (minute_of s.timestamp) b)

  pub tally_split :
      (k : RollupKey) (cutoff : Time) (xs : List (SystemState F))
      → tally k xs
        ≡ tally k (keep_if (λ s. before s.timestamp cutoff) xs)
          + tally k (keep_if (λ s. not (before s.timestamp cutoff)) xs)
  unfolding tally
  tally_split k cutoff [] = omega arith
  tally_split k cutoff (s ∷ xs) = ground (arith, tally_split k cutoff xs)

  pub tally_none : (k : RollupKey) (xs : List (SystemState F)) → xs ≡ [] → tally k xs ≡ 0
  unfolding tally
  tally_none k xs e = rw e

  pub recorded_none : (k : RollupKey) (db : History F) → db.rollups ≡ [] → recorded k db ≡ 0
  unfolding recorded lookup
  recorded_none k db e = rw e

  pub recorded-metrics :
      (k : RollupKey) (db : History F) (metrics : List (SystemState F))
      → recorded k (record db { metrics = metrics }) ≡ recorded k db
  unfolding recorded
  recorded-metrics k db metrics = refl

  pub recorded-prune_raw :
      (k : RollupKey) (cutoff : Time) (db : History F)
      → recorded k (prune_raw cutoff db) ≡ recorded k db
  unfolding recorded prune_raw
  recorded-prune_raw k cutoff db = refl

  -- A row that is old enough to be pruned is not looked at again.
  pub recorded-prune_buckets :
      (resolution : String) (b cutoff : Time) (host : String) (db : History F)
      → ((rollup_minute == resolution) ≡ false) ⊎ (cutoff ≤ b)
      → recorded (row_key b host) (prune_buckets resolution cutoff db)
        ≡ recorded (row_key b host) db
  unfolding recorded prune_buckets
  recorded-prune_buckets resolution b cutoff host db h =
      rw
        (lookup-retain_key (λ k. not (k.resolution == resolution && before k.bucket cutoff))
          (row_key b host) db.rollups)
        (elim h [
          | inl other ↦ rw other
          | inr young ↦
              rw (not-ltb b cutoff young)
                (elim (Bool-cases (rollup_minute == resolution)) [ inl e ↦ rw e | inr e ↦ rw e ])
        ])

module _ {F : Type 0} (ops : FloatOps F) (agg : Aggregates F) where
  -- A minute's row counts the samples that are ripe, if there are any, and nothing else.
  pub recorded-rollup_minutes :
      (k : RollupKey) (cutoff : Time) (db : History F)
      → (let n = tally k (keep_if (λ s. before s.timestamp cutoff) db.metrics) in
          recorded k (rollup_minutes ops agg cutoff db) ≡ (if ltb 0 n then n else recorded k db))
  unfolding recorded rollup_minutes tally minute_row
  recorded-rollup_minutes k cutoff db =
      let ripe = keep_if (λ s. before s.timestamp cutoff) db.metrics in
      rw
        (
          lookup-insert_groups minute_key (minute_row ops agg) ripe ripe db.rollups k,
          any-keep_if (λ s. minute_key s == k) ripe,
        )
        (elim (Bool-cases (ltb 0 (tally k ripe))) [
          | inl some_ripe ↦ rw some_ripe
          | inr none_ripe ↦ rw none_ripe
        ])

  pub recorded-rollup_five_minutes :
      (b : Time) (host : String) (cutoff : Time) (db : History F)
      → recorded (row_key b host) (rollup_five_minutes ops agg cutoff db)
        ≡ recorded (row_key b host) db
  unfolding recorded rollup_five_minutes
  recorded-rollup_five_minutes b host cutoff db =
      let ripe = keep_if (is_ripe_minute cutoff) db.rollups in
      rw (
        lookup-insert_groups (λ (e : RollupKey × RollupRow F). five_minute_key e.0)
            (five_minute_row ops agg) ripe ripe db.rollups (row_key b host),
        not-five b host ripe,
      )
