-- ===== src/Collector/Filesystems/Seen.antt =====
-- internal/collector/collector.go: the rounds of collectFilesystems' loop.
use sys_sentient.Models.{Filesystem}
use sys_sentient.Collector.Filesystems.{
  Partition, Usage, Mounted, max_filesystems, has, is_pseudo, filesystem_of, mount_used,
  mount_partition, mount_each,
}
use sys_sentient.Prelude.{
  leb, if◌then◌else◌, Bool-cases, length, any, length-append, ◌==◌, nat_key, string_key, ℕ, suc,
  ◌≤◌, String, ◌≡◌, refl, ◌⊎◌, inl, inr, Bool, true, false, not, ◌&&◌, ◌||◌, Option, none, some,
  List, [], ◌∷◌, ◌++◌, arith,
}

module _ {F : Type 0} where
  abbrev pub on_mount : List (Filesystem F) → String → Bool
  on_mount fs m = any (λ f. f.mountpoint == m) fs

  abbrev pub on_device : List (Filesystem F) → String → Bool
  on_device fs d = any (λ f. f.device == d) fs

  -- A partition's mount point has a row, or its device has.
  abbrev pub IsShown : List (Filesystem F) → Partition → Type 0
  IsShown fs p =
      (on_mount fs p.mountpoint ≡ true)
      ⊎ (((p.device == "") ≡ false) × (on_device fs p.device ≡ true))

  -- What has been seen has a row.
  pub record IsSeen (s : Mounted F) : Type 0 where
    pub mounts : (m : String) → has s.seen_mount m ≡ true → on_mount s.filesystems m ≡ true
    pub devices : (d : String) → has s.seen_device d ≡ true → on_device s.filesystems d ≡ true

  pub any-append :
      (t : Filesystem F → Bool) (xs ys : List (Filesystem F))
      → any t (xs ++ ys) ≡ (any t xs || any t ys)
  any-append t [] ys = refl
  any-append t (x ∷ xs) ys = ground (arith, any-append t xs ys)

module _ {F : Type 0} where
  mount_used-IsSeen :
      (p : Partition) (o : Option (Usage F)) (s : Mounted F) → IsSeen s → IsSeen (mount_used p o s)
  mount_used-IsSeen p none s h = h
  mount_used-IsSeen p (some u) s h = elim (Bool-cases (u.total == 0)) [
    | inl empty ↦ rw empty h
    | inr full ↦ rw full (record {
      mounts = λ m seen. rw any-append (ground (arith, h.mounts m));
      devices = λ d seen. rw any-append (ground (arith, h.devices d));
    })
  ]

module _ {F : Type 0} (to_lower : String → String) (usage : String → Option (Usage F)) where
  -- A round leaves the variables alone or mounts the partition.
  mount_partition_cases :
      (P : Mounted F → Type 0) (p : Partition) (s : Mounted F)
      → P s
      → P (mount_used p (usage p.mountpoint) s)
      → P (mount_partition to_lower usage p s)
  mount_partition_cases P p s old new =
      branches (is_pseudo to_lower p) (has s.seen_mount p.mountpoint)
        (not (p.device == "") && has s.seen_device p.device)
    where
      branches :
          (x y z : Bool)
          → P (
              if x
              then s
              else if y
              then s
              else if z
              then s
              else mount_used p (usage p.mountpoint) s)
      branches true y z = old
      branches false true z = old
      branches false false true = old
      branches false false false = new

  pub mount_partition-IsSeen :
      (p : Partition) (s : Mounted F) → IsSeen s → IsSeen (mount_partition to_lower usage p s)
  mount_partition-IsSeen p s h =
      mount_partition_cases IsSeen p s h (mount_used-IsSeen p (usage p.mountpoint) s h)

  module _ (t : Filesystem F → Bool) where
    mount_used-grows :
        (p : Partition) (o : Option (Usage F)) (s : Mounted F)
        → any t s.filesystems ≡ true
        → any t (mount_used p o s).filesystems ≡ true
    mount_used-grows p none s h = h
    mount_used-grows p (some u) s h = elim (Bool-cases (u.total == 0)) [
      | inl empty ↦ rw empty h
      | inr full ↦ rw full (rw (any-append, h) refl)
    ]

    pub mount_each-grows :
        (ps : List Partition) (s : Mounted F)
        → any t s.filesystems ≡ true
        → any t (mount_each to_lower usage ps s).filesystems ≡ true
    unfolding mount_each
    mount_each-grows [] s h = h
    mount_each-grows (p ∷ ps) s h = elim (Bool-cases (leb max_filesystems (length s.filesystems))) [
      | inl stop ↦ rw stop h
      | inr go ↦ rw go (
          mount_each-grows ps (mount_partition to_lower usage p s) (
            mount_partition_cases (λ r. any t r.filesystems ≡ true) p s h
              (mount_used-grows p (usage p.mountpoint) s h)))
    ]

  length-mount_used-le :
      (p : Partition) (o : Option (Usage F)) (s : Mounted F)
      → length (mount_used p o s).filesystems ≤ suc (length s.filesystems)
  length-mount_used-le p none s = omega arith
  length-mount_used-le p (some u) s = elim (Bool-cases (u.total == 0)) [
    | inl empty ↦ rw empty (omega arith)
    | inr full ↦ rw full (omega (arith, length-append s.filesystems (filesystem_of p u ∷ [])))
  ]

  room : (n m : ℕ) → leb max_filesystems n ≡ false → m ≤ suc n → m ≤ max_filesystems
  room n m go h = ground arith

  pub mount_partition_fits :
      (p : Partition) (s : Mounted F)
      → leb max_filesystems (length s.filesystems) ≡ false
      → length (mount_partition to_lower usage p s).filesystems ≤ max_filesystems
  mount_partition_fits p s go = room (length s.filesystems) _ go (
      mount_partition_cases (λ r. length r.filesystems ≤ suc (length s.filesystems)) p s
        (omega arith) (length-mount_used-le p (usage p.mountpoint) s))

  pub length-mount_each-le :
      (ps : List Partition) (s : Mounted F)
      → length s.filesystems ≤ max_filesystems
      → length (mount_each to_lower usage ps s).filesystems ≤ max_filesystems
  unfolding mount_each
  length-mount_each-le [] s h = h
  length-mount_each-le (p ∷ ps) s h =
      elim (Bool-cases (leb max_filesystems (length s.filesystems))) [
        | inl stop ↦ rw stop h
        | inr go ↦ rw go (
            length-mount_each-le ps (mount_partition to_lower usage p s)
              (mount_partition_fits p s go))
      ]
