-- ===== src/Storage/Archive/Moved.antt =====
-- internal/storage/archive.go: what an archiving without a failure moves out of the table.
use sys_sentient.Storage.Archive.Order.{sort_by-IsUnique, lookup-sort_by}
use sys_sentient.Prelude.{
  keep_if-All, All-sort_by, not, leb, if◌then◌else◌, length, take, All, ◌==◌, nat_key, string_key,
  lookup, insert, retain, lookup-retain_key, Time, ◌≤◌, ◌<◌, String, ◌≡◌, refl, ap, ◌∙◌, Bool, true,
  false, ◌&&◌, none, [], ◌∷◌, map, arith, IsUnique, retain-IsUnique, sort_by,
}
use sys_sentient.Storage.SqlTime.{sql_time}
use sys_sentient.Storage.Rollup.{History, RollupKey, RollupRow, Rollups, rollup_key, point_of}
use sys_sentient.Storage.TimeRange.{
  get_rollups_range, max_range_rows, tier_window, lies_in, is_of_host, clamp_limit,
}
use sys_sentient.Storage.TimeRange.Spread.{not_inverted}
use sys_sentient.Storage.TimeRange.Tiers.{keep_if_none, retain-keep_if}
use sys_sentient.Storage.Archive.{
  Archives, archived, unix_epoch, up_to, archive_tier, write_and_delete, delete_archived,
}

sql_time_epoch : sql_time unix_epoch ≡ unix_epoch
sql_time_epoch = refl

module _ (resolution : String) (t : Time) where
  -- What is archived, and deleted, of a tier.
  abbrev pub is_old : RollupKey → Bool
  is_old k = k.resolution == resolution && leb k.bucket (sql_time t)

  abbrev pub is_archived : RollupKey → Bool
  is_archived k =
      k.resolution == resolution && (lies_in (up_to t) k.bucket && is_of_host "" k.host_id)

  pub archived-old : (k : RollupKey) → unix_epoch ≤ k.bucket → is_archived k ≡ is_old k
  archived-old k young = ground (arith, sql_time_epoch)

module _ {F : Type 0} (resolution : String) (t : Time) where
  pub lookup-tier_window :
      (k : RollupKey) (db : History F)
      → IsUnique db.rollups
      → lookup k (tier_window db resolution "" (up_to t))
        ≡ (if is_archived resolution t k then lookup k db.rollups else none)
  unfolding tier_window
  lookup-tier_window k db u =
      let q : RollupKey → RollupRow F → Bool = λ k _. is_archived resolution t k in
      rw (← retain-keep_if q db.rollups) (
        lookup-sort_by (λ (e : RollupKey × RollupRow F). e.0.bucket) k (retain q db.rollups)
          (retain-IsUnique q db.rollups u)
        ∙ lookup-retain_key (is_archived resolution t) k db.rollups)

  pub lookup-delete_archived :
      (k : RollupKey) (db : History F)
      → lookup k (delete_archived resolution t db).rollups
        ≡ (if not (is_old resolution t k) then lookup k db.rollups else none)
  unfolding delete_archived
  lookup-delete_archived k db = lookup-retain_key (λ j. not (is_old resolution t j)) k db.rollups

  pub tier_window-IsUnique :
      (db : History F) → IsUnique db.rollups → IsUnique (tier_window db resolution "" (up_to t))
  unfolding tier_window
  tier_window-IsUnique db u =
      let q : RollupKey → RollupRow F → Bool = λ k _. is_archived resolution t k in
      rw (← retain-keep_if q db.rollups) (
        sort_by-IsUnique (λ (e : RollupKey × RollupRow F). e.0.bucket) (retain q db.rollups)
          (retain-IsUnique q db.rollups u))

  pub tier_window-All :
      (P : RollupKey × RollupRow F → Type 0) (db : History F)
      → All P db.rollups
      → All P (tier_window db resolution "" (up_to t))
  unfolding tier_window
  tier_window-All P db h =
      All-sort_by P (λ e. e.0.bucket) _
        (keep_if-All P (λ e. is_archived resolution t e.0) db.rollups h)

  -- What an archiving without a failure leaves: the file, the rows, and the count.
  pub archive_tier_lem :
      (name : String → Time → String) (dir : String) (s : Archives F)
      → (dir == "") ≡ false
      → unix_epoch ≤ t
      → 0 < length (tier_window s.history resolution "" (up_to t))
      → let points =
          map point_of (take max_range_rows (tier_window s.history resolution "" (up_to t))) in
        archive_tier (λ _. true) (λ _. true) name resolution dir t s ≡ (
          record {
            history = delete_archived resolution t s.history;
            files = insert (name resolution t) points s.files;
          },
          archived (length points),
        )
  unfolding archive_tier get_rollups_range clamp_limit
  archive_tier_lem name dir s there late some_rows =
      rw (there, not_inverted unix_epoch t late)
        (go (tier_window s.history resolution "" (up_to t)) some_rows)
    where
      go :
          (w : Rollups F)
          → 0 < length w
          → write_and_delete
              (λ _. true)
              (λ _. true)
              (name resolution t)
              resolution
              t
              (map point_of (take max_range_rows w))
              s
            ≡ (
              record {
                history = delete_archived resolution t s.history;
                files = insert (name resolution t) (map point_of (take max_range_rows w)) s.files;
              },
              archived (length (map point_of (take max_range_rows w))),
            )
      go [] h = absurd (omega arith)
      go (x ∷ w) h = refl

  pub deleted_window :
      (db : History F) → tier_window (delete_archived resolution t db) resolution "" (up_to t) ≡ []
  unfolding tier_window delete_archived sort_by
  deleted_window db =
      let old = is_old resolution t in
      rw (retain-keep_if (λ k (_ : RollupRow F). not (old k)) db.rollups) (
        ap (sort_by (λ (e : RollupKey × RollupRow F). e.0.bucket)) (
          keep_if_none (λ (e : RollupKey × RollupRow F). is_archived resolution t e.0)
            (λ (e : RollupKey × RollupRow F). not (old e.0)) db.rollups (λ e hit. ground arith)))
