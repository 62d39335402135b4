-- ===== src/Super.antt =====
-- The in-core super block of kern/aufs.h and the place of an inode in the inode table.
pub mod Mount
pub mod Module
pub mod Calls
use aufs_enabled.Base.{ℕ, ◌+◌, ◌*◌, ◌/◌, ◌%◌, List, u64}
use aufs_enabled.Kernel.{BufferHead}

-- `struct aufs_super_block`; `B` is what a buffer of a bitmap holds.
pub record AufsSuperBlock (B : Type 0) : Type 0 where
  pub asb_magic : ℕ
  pub asb_inode_blocks : ℕ
  pub asb_zone_size : ℕ
  pub asb_root_inode : ℕ
  pub asb_inodes_in_block : ℕ
  pub asb_inode_map_blocks : ℕ
  pub asb_zone_map_blocks : ℕ
  pub asb_blocks_per_zone : ℕ
  pub asb_alignment_num_blocks : ℕ
  pub s_zmap : List (BufferHead B)
  pub s_imap : List (BufferHead B)

-- `sizeof(struct aufs_disk_inode)`: nine zone pointers, five words and an aligned 64-bit time.
abbrev pub sizeof_disk_inode : ℕ
sizeof_disk_inode = 64

module _ {B : Type 0} where
  unfoldable pub aufs_inode_block : AufsSuperBlock B → ℕ → ℕ
  aufs_inode_block asb inode_no =
      u64 (
        1 + asb.asb_inode_map_blocks + asb.asb_zone_map_blocks + inode_no / asb.asb_inodes_in_block)

  unfoldable pub aufs_inode_offset : AufsSuperBlock B → ℕ → ℕ
  aufs_inode_offset asb inode_no = u64 (sizeof_disk_inode * (inode_no % asb.asb_inodes_in_block))
