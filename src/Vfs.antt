-- ===== src/Vfs.antt =====
-- What the VFS keeps of an inode, with the part that kern/aufs.h adds to it.
use aufs_enabled.Base.{ℕ, Bool, List, ◌%◌, ◌/◌, ◌^◌, ◌==◌}
use aufs_enabled.Kernel.{Errno}

-- `ZONE_PTR_IN_INODE_NUM`.
abbrev pub zone_ptr_in_inode_num : ℕ
zone_ptr_in_inode_num = 9

pub record Timespec : Type 0 where
  pub tv_sec : ℕ
  pub tv_nsec : ℕ

-- The operation tables that an inode can be given.
pub data OpTable : Type 0 where
  no_ops file_ops dir_ops : OpTable

-- `struct aufs_inode`, with the fields of its `struct inode` that the file system uses.
pub record AufsInode : Type 0 where
  pub ai_zone_ptr : List ℕ
  pub i_ino : ℕ
  pub i_mode : ℕ
  pub i_size : ℕ
  pub i_blocks : ℕ
  pub i_uid : ℕ
  pub i_gid : ℕ
  pub i_nlink : ℕ
  pub i_ctime : Timespec
  pub i_mtime : Timespec
  pub i_atime : Timespec
  pub i_op : OpTable
  pub dirty : Bool

-- A pointer that may be an error.
pub data Outcome {ℓ} (A : Type ℓ) : Type ℓ where
  ok : A → Outcome A
  err : Errno → Outcome A

-- `S_ISREG`, `S_ISDIR` and `S_ISLNK`: the file type is the four bits from bit 12.
abbrev pub file_type : ℕ → ℕ
file_type mode = mode / 2 ^ 12 % 16

abbrev pub s_isreg : ℕ → Bool
s_isreg mode = file_type mode == 8

abbrev pub s_isdir : ℕ → Bool
s_isdir mode = file_type mode == 4

abbrev pub s_islnk : ℕ → Bool
s_islnk mode = file_type mode == 10
