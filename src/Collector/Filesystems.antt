-- ===== src/Collector/Filesystems.antt =====
-- internal/collector/collector.go: collectFilesystems. disk.Partitions and disk.Usage are
-- parameters: `none` is an error, and for a usage also no answer.
pub mod Seen
pub mod Complete
use sys_sentient.Models.{FloatOps, Filesystem}
use sys_sentient.Collector.Processes.{Orders}
use sys_sentient.Prelude.{
  leb, if◌then◌else◌, length, any, ◌==◌, nat_key, string_key, ℕ, ◌+◌, ◌-◌, String, Bool, not, ◌&&◌,
  Option, none, some, List, [], ◌∷◌, ◌++◌, arith,
}

pub record Partition : Type 0 where
  pub mountpoint : String
  pub device : String
  pub fstype : String

pub record Usage (F : Type 0) : Type 0 where
  pub total : ℕ
  pub used : ℕ
  pub free : ℕ
  pub used_percent : F
  pub inodes_used_percent : F

-- The loop's variables; a set is the list of its members.
pub record Mounted (F : Type 0) : Type 0 where
  pub filesystems : List (Filesystem F)
  pub seen_mount : List String
  pub seen_device : List String

abbrev pub max_filesystems : ℕ
max_filesystems = 24

abbrev pub pseudo_fs_types : List String
pseudo_fs_types =
    "autofs" ∷ "bpf" ∷ "cgroup" ∷ "cgroup2" ∷ "configfs" ∷ "debugfs" ∷ "devpts" ∷ "devtmpfs"
    ∷ "efivarfs" ∷ "fuse.gvfsd-fuse" ∷ "fuse.portal" ∷ "fusectl" ∷ "hugetlbfs" ∷ "mqueue" ∷ "nsfs"
    ∷ "overlay" ∷ "proc" ∷ "pstore" ∷ "ramfs" ∷ "securityfs" ∷ "selinuxfs" ∷ "squashfs" ∷ "sysfs"
    ∷ "tracefs" ∷ []

abbrev pub has : List String → String → Bool
has set s = any (λ member. member == s) set

abbrev pub is_pseudo : (String → String) → Partition → Bool
is_pseudo to_lower p = has pseudo_fs_types (to_lower p.fstype)

abbrev pub fuller : {F : Type 0} → FloatOps F → Filesystem F → Filesystem F → Bool
fuller float x y = float.lt y.used_percent x.used_percent

module _ {F : Type 0} where
  abbrev pub filesystem_of : Partition → Usage F → Filesystem F
  filesystem_of p u = record {
    mountpoint = p.mountpoint;
    device = p.device;
    fs_type = p.fstype;
    total_bytes = u.total;
    used_bytes = u.used;
    free_bytes = u.free;
    used_percent = u.used_percent;
    inodes_used_percent = u.inodes_used_percent;
  }

  abbrev pub nothing_mounted : Mounted F
  nothing_mounted = record { filesystems = []; seen_mount = []; seen_device = [] }

  abbrev pub mount_used : Partition → Option (Usage F) → Mounted F → Mounted F
  mount_used p none s = s
  mount_used p (some u) s = if u.total == 0 then s else record {
    filesystems = s.filesystems ++ filesystem_of p u ∷ [];
    seen_mount = p.mountpoint ∷ s.seen_mount;
    seen_device = if p.device == "" then s.seen_device else p.device ∷ s.seen_device;
  }

module _ {F : Type 0} (to_lower : String → String) (usage : String → Option (Usage F)) where
  -- One round of the loop that does not break.
  abbrev pub mount_partition : Partition → Mounted F → Mounted F
  mount_partition p s =
      if is_pseudo to_lower p
      then s
      else if has s.seen_mount p.mountpoint
      then s
      else if not (p.device == "") && has s.seen_device p.device
      then s
      else mount_used p (usage p.mountpoint) s

  unfoldable pub mount_each : List Partition → Mounted F → Mounted F
  mount_each [] s = s
  mount_each (p ∷ ps) s =
      let rest = mount_each ps (mount_partition p s) in
      if leb max_filesystems (length s.filesystems) then s else rest

module _ {F : Type 0} (float : FloatOps F) (to_lower : String → String)
    (usage : String → Option (Usage F)) where
  unfoldable pub collect_filesystems : Orders → Option (List Partition) → List (Filesystem F)
  unfolding mount_each
  collect_filesystems orders none = []
  collect_filesystems orders (some ps) =
      orders.sort (fuller float) (mount_each to_lower usage ps nothing_mounted).filesystems
