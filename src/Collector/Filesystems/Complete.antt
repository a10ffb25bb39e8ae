-- ===== src/Collector/Filesystems/Complete.antt =====
-- internal/collector/collector.go: no disk is missing from the list of filesystems.
use mathlib.Core.List.{Memᴰ, Permᴰ}
use sys_sentient.Models.{FloatOps, Filesystem}
use sys_sentient.Collector.Processes.{Orders}
use sys_sentient.Collector.Order.{IsOrders, length-perm, any-perm}
use sys_sentient.Collector.Filesystems.{
  Partition, Usage, Mounted, max_filesystems, has, is_pseudo, mount_partition, mount_each, fuller,
  nothing_mounted, collect_filesystems,
}
use sys_sentient.Prelude.{
  none, leb, Bool-cases, length, ◌==◌, nat_key, string_key, ==_refl, ◌≤◌, String, ◌≡◌, sym, subst,
  ◌∙◌, ◌⊎◌, inl, inr, false, not, ◌&&◌, Option, some, List, [], ◌∷◌, arith,
}
use sys_sentient.Collector.Filesystems.Seen.{
  IsShown, IsSeen, any-append, mount_partition-IsSeen, mount_each-grows, mount_partition_fits,
  length-mount_each-le,
}

module _ {F : Type 0} (to_lower : String → String) (usage : String → Option (Usage F)) where
  module _ (p : Partition) (u : Usage F) (real : is_pseudo to_lower p ≡ false)
      (used : usage p.mountpoint ≡ some u) (full : (u.total == 0) ≡ false) where
    mount_partition-IsShown :
        (s : Mounted F) → IsSeen s → IsShown (mount_partition to_lower usage p s).filesystems p
    mount_partition-IsShown s h = elim (Bool-cases (has s.seen_mount p.mountpoint)) [
      | inl m ↦ rw (real, m) (inl (h.mounts p.mountpoint m))
      | inr m ↦ elim (Bool-cases (not (p.device == "") && has s.seen_device p.device)) [
        | inl d ↦ rw (real, m, d) (inr (ground arith, h.devices p.device (ground arith)))
        | inr d ↦
            rw (real, m, d, used, full) (inl (rw any-append (ground (arith, ==_refl p.mountpoint))))
      ]
    ]

    -- What the rest of the loop makes of `s`.
    IsServed : List Partition → Mounted F → Type 0
    IsServed ps s =
        (length (mount_each to_lower usage ps s).filesystems ≡ max_filesystems)
        ⊎ IsShown (mount_each to_lower usage ps s).filesystems p

    lasts : (ps : List Partition) (s : Mounted F) → IsShown s.filesystems p → IsServed ps s
    unfolding IsServed
    lasts ps s (inl mount) =
        inr (inl (mount_each-grows to_lower usage (λ f. f.mountpoint == p.mountpoint) ps s mount))
    lasts ps s (inr (named, device)) =
        inr (inr (named, mount_each-grows to_lower usage (λ f. f.device == p.device) ps s device))

    mount_each-IsServed :
        (ps : List Partition) (s : Mounted F)
        → IsSeen s
        → length s.filesystems ≤ max_filesystems
        → Memᴰ p ps
        → IsServed ps s
    unfolding mount_each IsServed
    mount_each-IsServed [] s h b m = elim m [ ]
    mount_each-IsServed (q ∷ ps) s h b (Memᴰ.head e) =
        elim (Bool-cases (leb max_filesystems (length s.filesystems))) [
          | inl stop ↦ rw stop (inl (ground arith))
          | inr go ↦ rw go (
              lasts ps (mount_partition to_lower usage q s) (
                subst (λ r. IsShown (mount_partition to_lower usage r s).filesystems p) e
                  (mount_partition-IsShown s h)))
        ]
    mount_each-IsServed (q ∷ ps) s h b (Memᴰ.tail n) =
        let next = mount_partition to_lower usage q s in
        elim (Bool-cases (leb max_filesystems (length s.filesystems))) [
          | inl stop ↦ rw stop (inl (ground arith))
          | inr go ↦ rw go (
              mount_each-IsServed ps next (mount_partition-IsSeen to_lower usage q s h)
                (mount_partition_fits to_lower usage q s go) n)
        ]

module _ {F : Type 0} (float : FloatOps F) (to_lower : String → String)
    (usage : String → Option (Usage F)) where
  pub length-collect_filesystems-le :
      (orders : Orders)
      → IsOrders orders
      → (ps : Option (List Partition))
      → length (collect_filesystems float to_lower usage orders ps) ≤ max_filesystems
  unfolding collect_filesystems
  length-collect_filesystems-le orders laws none = omega arith
  length-collect_filesystems-le orders laws (some ps) =
      let found = (mount_each to_lower usage ps nothing_mounted).filesystems in
      omega (
        arith,
        length-mount_each-le to_lower usage ps nothing_mounted (omega arith),
        length-perm (laws.permutes (fuller float) found),
      )

  -- The list of filesystems is never longer than 24, and it leaves out no disk unless it is full:
  -- whatever order the system lists the partitions in, each one that is not of a pseudo type and
  -- whose usage can be read and is not of size 0 has a row for its mount point, or for its device,
  -- or there are 24 rows.
  pub collect_filesystems_complete :
      (orders : Orders) (laws : IsOrders orders) (ps : List Partition) (p : Partition) (u : Usage F)
      → Memᴰ p ps
      → is_pseudo to_lower p ≡ false
      → usage p.mountpoint ≡ some u
      → (u.total == 0) ≡ false
      → let rows = collect_filesystems float to_lower usage orders (some ps) in
        (length rows ≤ max_filesystems) × ((length rows ≡ max_filesystems) ⊎ IsShown rows p)
  unfolding collect_filesystems IsServed
  collect_filesystems_complete orders laws ps p u m real used full =
      let found = (mount_each to_lower usage ps nothing_mounted).filesystems in
      let sorted = laws.permutes (fuller float) found in
      let same = length-perm sorted in
      (
        omega (arith, length-mount_each-le to_lower usage ps nothing_mounted (omega arith)),
        moved found _ sorted (
            mount_each-IsServed to_lower usage p u real used full ps nothing_mounted seen_none
              (omega arith) m),
      )
    where
      seen_none : IsSeen {F = F} nothing_mounted
      seen_none = record { mounts = λ m h. cc; devices = λ d h. cc }

      moved :
          (xs ys : List (Filesystem F))
          → Permᴰ xs ys
          → (length xs ≡ max_filesystems) ⊎ IsShown xs p
          → (length ys ≡ max_filesystems) ⊎ IsShown ys p
      moved xs ys d (inl n) = inl (sym (length-perm d) ∙ n)
      moved xs ys d (inr (inl mount)) =
          inr (inl (sym (any-perm (λ f. f.mountpoint == p.mountpoint) d) ∙ mount))
      moved xs ys d (inr (inr (named, device))) =
          inr (inr (named, sym (any-perm (λ f. f.device == p.device) d) ∙ device))
