-- ===== src/Inode/Block.antt =====
-- `aufs_get_block` of kern/inode.c, with MULTI_BLOCK_PTR_SCHEME as kern/aufs.h defines it.
pub mod Ownership
pub mod Step
pub mod Mapping
pub mod Sharing
pub mod History
pub mod Limits
use aufs_enabled.Base.{
  ℕ, ◌+◌, ◌/◌, ◌%◌, true, false, not, ◌&&◌, Option, none, some, List, ltb, ◌==◌, if◌then◌else◌, u32,
  u64, int_to_ulong, get_or, get_elem?, set,
}
use aufs_enabled.Kernel.{BitOps, Errno, eio}
use aufs_enabled.Vfs.{AufsInode, zone_ptr_in_inode_num}
use aufs_enabled.Super.{AufsSuperBlock}
use aufs_enabled.Bitmap.{aufs_new_zone}

-- `ai_zone_ptr[idx]`. The code reads it before it tests `idx`: `beyond` is what the memory behind
-- the array holds.
unfoldable pub zone_ptr_at : (beyond : ℕ → ℕ) → List ℕ → ℕ → ℕ
zone_ptr_at beyond ptrs idx = elim (get_elem? ptrs idx) [ none ↦ beyond idx | some p ↦ p ]

-- The file system in memory: the super block and every inode, by its number.
pub record FsState (B : Type 0) : Type 0 where
  pub sbi : AufsSuperBlock B
  pub inodes : ℕ → AufsInode

-- What `aufs_get_block` comes to: the block that it maps, an error, or the trap of a division by 0.
pub data Mapped : Type 0 where
  ok : ℕ → Mapped
  err : Errno → Mapped
  trapped : Mapped

-- Zone pointer `i` of inode `k`; 0 means none.
abbrev pub zone_ptr : {B : Type 0} → FsState B → ℕ → ℕ → ℕ
zone_ptr st k i = get_or (st.inodes k).ai_zone_ptr i 0

module _ (ops : BitOps) (beyond : ℕ → ℕ) where
  open ops use {Bits}

  -- Fills the zone pointer `block_idx` if it is empty, and maps the block at `block_offset` of the
  -- zone. The first result is the super block, the second the inode, the third the mapped block.
  unfoldable pub map_zone :
      (s_blocksize : ℕ)
      → AufsSuperBlock Bits
      → AufsInode
      → (block_idx block_offset : ℕ) → AufsSuperBlock Bits × AufsInode × Mapped
  unfolding zone_ptr_at
  map_zone s_blocksize sbi inode block_idx block_offset =
      let ptr = zone_ptr_at beyond inode.ai_zone_ptr block_idx in
      let (sbi', block) = aufs_new_zone ops s_blocksize sbi in
      if ptr == 0
      then if ltb block_idx zone_ptr_in_inode_num
        then elim block [
          | none ↦ (sbi', inode, trapped)
          | some id ↦ (
            sbi',
            record inode { ai_zone_ptr = set inode.ai_zone_ptr block_idx (int_to_ulong id) },
            ok (u64 (block_offset + int_to_ulong id)),
          )
        ]
        else (sbi, inode, err eio)
      else (sbi, inode, ok (u64 (block_offset + ptr)))

  -- `aufs_get_block` for block `iblock` of the file, into a buffer of `b_size` bytes, by which the
  -- code divides. It does not look at its argument `create`.
  unfoldable pub aufs_get_block :
      (s_blocksize : ℕ)
      → AufsSuperBlock Bits
      → AufsInode
      → (iblock b_size : ℕ) → AufsSuperBlock Bits × AufsInode × Mapped
  aufs_get_block s_blocksize sbi inode iblock b_size =
      let zone_size = u32 sbi.asb_zone_size in
      if ltb zone_size b_size
      then (sbi, inode, err eio)
      else if b_size == 0
      then (sbi, inode, trapped)
      else if ltb b_size zone_size && not (zone_size % b_size == 0)
      then (sbi, inode, err eio)
      else map_zone s_blocksize sbi inode (u32 (iblock / (zone_size / b_size)))
          (u32 (iblock % (zone_size / b_size)))

  -- `aufs_get_block` on inode `k`, in the file system.
  unfoldable pub get_block_step :
      (s_blocksize : ℕ) → FsState Bits → (k iblock b_size : ℕ) → FsState Bits × Mapped
  get_block_step s_blocksize st k iblock b_size =
      let (sbi, inode, block) = aufs_get_block s_blocksize st.sbi (st.inodes k) iblock b_size in
      (record { sbi = sbi; inodes = λ n. if n == k then inode else st.inodes n }, block)
