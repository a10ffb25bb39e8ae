-- ===== src/Storage/Archive/Overflow.antt =====
-- internal/storage/archive.go: an archiving of more rows than one file takes.
use sys_sentient.Server.AccountHandlers.SignIn.{lookup-insert_self}
use sys_sentient.Storage.Archive.Moved.{deleted_window, archive_tier_lem}
use sys_sentient.Prelude.{
  length-map, length-take, length, take, ◌==◌, nat_key, string_key, lookup, Time, ◌≤◌, ◌<◌, String,
  ◌≡◌, ap, true, false, some, [], map, arith,
}
use sys_sentient.Storage.Rollup.{rollup_key, point_of}
use sys_sentient.Storage.TimeRange.{max_range_rows, tier_window}
use sys_sentient.Storage.Archive.{Archives, archived, unix_epoch, up_to, archive_tier}

module _ {F : Type 0} (resolution : String) (t : Time) where
  -- Where more than 20000 rows of a tier are old enough, exactly 20000 are written to the file, the
  -- oldest ones, and all of them are deleted. So every further row is lost.
  pub archive_overflow_lost :
      (name : String → Time → String) (dir : String) (s : Archives F)
      → (dir == "") ≡ false
      → unix_epoch ≤ t
      → max_range_rows < length (tier_window s.history resolution "" (up_to t))
      → let old = tier_window s.history resolution "" (up_to t) in
        let (s', result) = archive_tier (λ _. true) (λ _. true) name resolution dir t s in
        (result ≡ archived max_range_rows)
        × (lookup (name resolution t) s'.files ≡ some (map point_of (take max_range_rows old)))
        × (tier_window s'.history resolution "" (up_to t) ≡ [])
  archive_overflow_lost name dir s there late many =
      let old = tier_window s.history resolution "" (up_to t) in
      let all_taken : length (map (point_of {F = F}) (take max_range_rows old)) ≡ max_range_rows =
        (omega (
          arith,
          length-map (point_of {F = F}) (take max_range_rows old),
          length-take max_range_rows old,
        )) in
      rw (archive_tier_lem resolution t name dir s there late (omega arith)) (
        ap archived all_taken,
        lookup-insert_self (name resolution t) _ s.files,
        deleted_window resolution t s.history,
      )
