-- ===== src/Storage/Archive/Kept.antt =====
-- internal/storage/archive.go: what of an archived tier can be put back, and what cannot.
use sys_sentient.Server.AccountHandlers.SignIn.{lookup-insert_self}
use sys_sentient.Storage.Archive.Moved.{
  lookup-delete_archived, lookup-tier_window, archive_tier_lem, tier_window-All,
  tier_window-IsUnique, archived-old, is_old, is_archived,
}
use mathlib.Core.Path.{ap₂}
use sys_sentient.Prelude.{
  take_all, lookup-All, Option-cases, not, if◌then◌else◌, Bool-cases, length, take, All, ◌==◌,
  nat_key, string_key, lookup, insert, lookup-insert, Time, ◌≤◌, ◌<◌, String, ◌≡◌, refl, ap, subst,
  ◌∙◌, inl, inr, Bool, true, false, Option, none, some, List, [], ◌∷◌, map, IsUnique,
}
use mathlib.Core.Option
use sys_sentient.Models.{FloatOps}
use sys_sentient.Storage.SqlTime.{sql_time}
use sys_sentient.Storage.Rollup.{RollupPoint, RollupKey, RollupRow, Rollups, rollup_key, point_of}
use sys_sentient.Storage.TimeRange.{max_range_rows, tier_window}
use sys_sentient.Storage.Archive.{
  restore_archive, Archives, unix_epoch, up_to, archive_tier, delete_archived, restore_points,
  row_of_point, point_key,
}

module _ {F : Type 0} (ops : FloatOps F) where
  -- What a row becomes, in the file and back.
  abbrev pub thin : RollupKey → RollupRow F → RollupRow F
  thin k r = row_of_point ops (point_of (k, r))

  abbrev IsAligned : RollupKey × RollupRow F → Type 0
  IsAligned e = (sql_time e.0.bucket ≡ e.0.bucket) × (unix_epoch ≤ e.0.bucket)

  point_key-point_of :
      (j : RollupKey) (r : RollupRow F)
      → sql_time j.bucket ≡ j.bucket
      → point_key ops (point_of (j, r)) ≡ j
  unfolding point_of
  point_key-point_of j r aligned = λ i. record j { bucket = aligned i }

  abbrev put_back : RollupKey → Option (RollupRow F) → Option (RollupRow F) → Option (RollupRow F)
  put_back k none old = old
  put_back k (some r) old = some (thin k r)

  lookup-restore_points :
      (k : RollupKey) (w : Rollups F) (t : Rollups F)
      → IsUnique w
      → All IsAligned w
      → lookup k (restore_points ops (map point_of w) t) ≡ put_back k (lookup k w) (lookup k t)
  unfolding restore_points lookup
  lookup-restore_points k [] t u a = refl
  lookup-restore_points k ((j, r) ∷ w) t (absent, u) (aligned, a) =
      ap (λ x. lookup k (restore_points ops (map point_of w) (insert x (thin j r) t)))
        (point_key-point_of j r aligned.0)
      ∙ (lookup-restore_points k w (insert j (thin j r) t) u a ∙ (elim (Bool-cases (j == k)) [
        | inl hit ↦
            let same : j ≡ k = (rollup_key.same_iff j k).0 hit in
            let gone : lookup k w ≡ none = subst (λ x. lookup x w ≡ none) same absent in
            rw (lookup-insert, hit, gone) (ap (λ x. some (thin x r)) same)
        | inr miss ↦ rw (lookup-insert, miss)
      ]))

  restore_archive_lem :
      (path : String) (points : List (RollupPoint F)) (s : Archives F)
      → lookup path s.files ≡ some points
      → (restore_archive ops true path s).0.history.rollups
        ≡ restore_points ops points s.history.rollups
  unfolding restore_archive
  restore_archive_lem path points s e = rw (e, restore_archive)

  -- What stands for a key after the restore reads as what stood for it before.
  same_read :
      (resolution : String) (t : Time) (k : RollupKey) (m : Rollups F)
      → All (IsAligned) m
      → Option.map
          (λ r. point_of (k, r))
          (put_back k
            (if is_archived resolution t k then lookup k m else none)
            (if not (is_old resolution t k) then lookup k m else none))
        ≡ Option.map (λ r. point_of (k, r)) (lookup k m)
  unfolding point_of row_of_point
  same_read resolution t k m aligned = elim (Option-cases (lookup k m)) [
    | inl absent ↦ rw absent (elim (Bool-cases (is_archived resolution t k)) [
      | inl a ↦ rw a (elim (Bool-cases (is_old resolution t k)) [ inl o ↦ rw o | inr o ↦ rw o ])
      | inr a ↦ rw a (elim (Bool-cases (is_old resolution t k)) [ inl o ↦ rw o | inr o ↦ rw o ])
    ])
    | inr (r, e) ↦
        let young = (lookup-All (IsAligned) k r m aligned e).1 in
        rw (e, archived-old resolution t k young)
          (elim (Bool-cases (is_old resolution t k)) [ inl o ↦ rw o | inr o ↦ rw o ])
  ]

  -- A tier that is archived without a failure can be put back: after restoring the file, a read of any
  -- key gives what it gave before, provided that no more than 20000 rows of the tier were old enough.
  -- (Keys stand once in the table, and buckets are whole milliseconds from 1970 on, as all that are
  -- written.)
  pub archive_restored :
      (resolution : String) (t : Time) (name : String → Time → String) (dir : String)
      (s : Archives F) (k : RollupKey)
      → (dir == "") ≡ false
      → unix_epoch ≤ t
      → IsUnique s.history.rollups
      → All (IsAligned) s.history.rollups
      → 0 < length (tier_window s.history resolution "" (up_to t))
      → length (tier_window s.history resolution "" (up_to t)) ≤ max_range_rows
      → let s' = (archive_tier (λ _. true) (λ _. true) name resolution dir t s).0 in
        let s'' = (restore_archive ops true (name resolution t) s').0 in
        Option.map (λ r. point_of (k, r)) (lookup k s''.history.rollups)
        ≡ Option.map (λ r. point_of (k, r)) (lookup k s.history.rollups)
  archive_restored resolution t name dir s k there late unique aligned some_rows few =
      let m = s.history.rollups in
      let q : RollupKey → RollupRow F → Bool = λ k _. is_archived resolution t k in
      let file = name resolution t in
      let w = tier_window s.history resolution "" (up_to t) in
      let kept = take_all max_range_rows w few in
      let w_unique : IsUnique w = tier_window-IsUnique resolution t s.history unique in
      let w_aligned : All (IsAligned) w =
        tier_window-All resolution t (IsAligned) s.history aligned in
      let gone = (delete_archived resolution t s.history).rollups in
      let points = map point_of (take max_range_rows w) in
      let s' : Archives F = record {
        history = delete_archived resolution t s.history;
        files = insert file points s.files;
      } in
      let as_points : Option (RollupRow F) → Option (RollupPoint F) =
        Option.map (λ r. point_of (k, r)) in
      rw (archive_tier_lem resolution t name dir s there late some_rows) (
        ap (λ (t : Rollups F). as_points (lookup k t))
          (restore_archive_lem file points s' (lookup-insert_self file points s.files))
        ∙ ap
            (λ (taken : Rollups F).
              as_points (lookup k (restore_points ops (map point_of taken) gone)))
            kept
        ∙ ap as_points (lookup-restore_points k w gone w_unique w_aligned)
        ∙ ap₂ (λ new old. as_points (put_back k new old))
            (lookup-tier_window resolution t k s.history unique)
            (lookup-delete_archived resolution t k s.history)
        ∙ same_read resolution t k m aligned)
