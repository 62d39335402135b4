-- ===== src/Inode/Table.antt =====
-- The inode table on disk: kern/inode.c, `minix_V2_raw_inode` of kern/bitmap.c and
-- `struct aufs_disk_inode` of kern/aufs.h. A block of the table is the array of its raw inodes.
pub mod Place
pub mod RoundTrip
pub mod Sync
use aufs_enabled.Base.{
  ℕ, zero, suc, ◌+◌, ◌/◌, ◌%◌, ◌^◌, Bool, true, false, ◌&&◌, Option, none, some, List, ◌==◌,
  if◌then◌else◌, u32, u64, int_to_ulong, get_elem?, get_or, set,
}
use aufs_enabled.Kernel.{BufferHead, ByteOrder, LowIds, Errno, eio, enomem, einval}
use aufs_enabled.Vfs.{
  AufsInode, Timespec, OpTable, file_ops, dir_ops, Outcome, ok, err, zone_ptr_in_inode_num, s_isreg,
  s_isdir, s_islnk,
}
use aufs_enabled.Super.{AufsSuperBlock, sizeof_disk_inode, aufs_inode_block, aufs_inode_offset}

pub record DiskInode : Type 0 where
  pub di_zone_ptr : List ℕ
  pub di_blocks : ℕ
  pub di_size : ℕ
  pub di_gid : ℕ
  pub di_uid : ℕ
  pub di_mode : ℕ
  pub di_ctime : ℕ

-- The buffers of the device by block number; `none` where `sb_bread` fails.
abbrev pub BufferCache : Type 0
BufferCache = ℕ → Option (BufferHead (List DiskInode))

-- The loops of `aufs_inode_fill` and `V2_minix_update_inode` over the zone pointers, from index `i`
-- with `left` rounds to go.
unfoldable pub copy_ptrs : (convert : ℕ → ℕ) (left i : ℕ) (from to : List ℕ) → List ℕ
copy_ptrs convert zero i from to = to
copy_ptrs convert (suc left) i from to =
    copy_ptrs convert left (suc i) from (set to i (convert (get_or from i 0)))

module _ (order : ByteOrder) where
  open order use {cpu_to_be32, be32_to_cpu, cpu_to_be64, be64_to_cpu}

  -- `aufs_inode_fill`; `i_mode` has 16 bits.
  unfoldable pub aufs_inode_fill : AufsInode → DiskInode → AufsInode
  unfolding copy_ptrs
  aufs_inode_fill ai di =
      let time : Timespec = record { tv_sec = be64_to_cpu di.di_ctime; tv_nsec = 0 } in
      record ai {
        ai_zone_ptr = copy_ptrs be32_to_cpu zone_ptr_in_inode_num 0 di.di_zone_ptr ai.ai_zone_ptr;
        i_mode = be32_to_cpu di.di_mode % 2 ^ 16;
        i_size = be32_to_cpu di.di_size;
        i_blocks = be32_to_cpu di.di_blocks;
        i_ctime = time;
        i_mtime = time;
        i_atime = time;
        i_uid = be32_to_cpu di.di_uid;
        i_gid = be32_to_cpu di.di_gid;
      }

  -- What `V2_minix_update_inode` writes over a raw inode.
  pub raw_of_inode : LowIds → AufsInode → DiskInode → DiskInode
  unfolding copy_ptrs
  raw_of_inode ids inode raw = record raw {
    di_mode = cpu_to_be32 inode.i_mode;
    di_uid = cpu_to_be32 (u32 (ids.fs_high2lowuid inode.i_uid));
    di_gid = cpu_to_be32 (u32 (ids.fs_high2lowgid inode.i_gid));
    di_size = cpu_to_be32 (u32 inode.i_size);
    di_blocks = cpu_to_be32 (u32 inode.i_blocks);
    di_ctime = cpu_to_be64 (u64 inode.i_ctime.tv_sec);
    di_zone_ptr =
        copy_ptrs (λ p. cpu_to_be32 (u32 p)) zone_ptr_in_inode_num 0 inode.ai_zone_ptr
          raw.di_zone_ptr;
  }

-- `minix_V2_raw_inode`: the block and the slot of the raw inode in it, with the buffer. `none` is
-- the NULL for number 0 and for a block that cannot be read. `block` and `offset` are `int`s.
pub minix_v2_raw_inode :
    {B : Type 0}
    → AufsSuperBlock B
    → BufferCache
    → (ino : ℕ) → Option (ℕ × ℕ × BufferHead (List DiskInode))
minix_v2_raw_inode sbi cache ino =
    let block = int_to_ulong (u32 (aufs_inode_block sbi ino)) in
    let offset = u32 (aufs_inode_offset sbi ino) in
    if ino == 0
    then none
    else elim (cache block) [ none ↦ none | some bh ↦ some (block, offset / sizeof_disk_inode, bh) ]

-- The buffer of `block` replaced.
abbrev pub put_buffer : BufferCache → ℕ → BufferHead (List DiskInode) → BufferCache
put_buffer cache block bh b = if b == block then some bh else cache b

-- The buffer of `block` as it is read from the device.
abbrev pub invalidate : BufferCache → ℕ → (device : BufferCache) → BufferCache
invalidate cache block device b = if b == block then device b else cache b

-- `minix_set_inode`: the tables for the inode's type, or -EINVAL.
unfoldable pub minix_set_inode : AufsInode → AufsInode × Option Errno
minix_set_inode inode =
    if s_isreg inode.i_mode
    then (record inode { i_op = file_ops }, none)
    else if s_isdir inode.i_mode
    then (record inode { i_op = dir_ops }, none)
    else if s_islnk inode.i_mode
    then (inode, some einval)
    else (inode, some einval)

-- What `iget_locked` answers: no memory, an inode that is in memory already, or a new one.
pub data Iget : Type 0 where
  no_memory : Iget
  cached fresh : AufsInode → Iget

-- The part of `aufs_inode_get` that gives a new inode its tables.
unfoldable pub inode_by_type : AufsInode → Outcome AufsInode
inode_by_type inode =
    if s_isreg inode.i_mode
    then ok (record inode { i_op = file_ops })
    else if s_isdir inode.i_mode
    then ok (record inode { i_op = dir_ops })
    else err eio

module _ (order : ByteOrder) where
  -- `V2_minix_update_inode`: the block that was written, with its buffer. A slot behind the end of
  -- the block is not written.
  pub v2_minix_update_inode :
      {B : Type 0}
      → LowIds
      → AufsSuperBlock B
      → BufferCache
      → AufsInode
      → Option (ℕ × BufferHead (List DiskInode))
  unfolding minix_v2_raw_inode
  v2_minix_update_inode ids sbi cache inode = elim (minix_v2_raw_inode sbi cache inode.i_ino) [
    | none ↦ none
    | some (block, slot, bh) ↦ elim (get_elem? bh.b_data slot) [
      | none ↦ some (block, record bh { dirty = true })
      | some raw ↦ some (
        block,
        record { b_data = set bh.b_data slot (raw_of_inode order ids inode raw); dirty = true },
      )
    ]
  ]

  -- `minix_write_inode`: `sync_all` tells `WB_SYNC_ALL`, and `io_ok` that `sync_dirty_buffer`
  -- brings the buffer to the device, which leaves it clean. A buffer that it could not bring there is
  -- no longer up to date, so that the next `sb_bread` of its block reads the device again: `device`
  -- is what that finds.
  pub minix_write_inode :
      {B : Type 0}
      → LowIds
      → (sync_all io_ok : Bool) → AufsSuperBlock B
      → (cache device : BufferCache) → AufsInode
      → BufferCache × Option Errno
  unfolding v2_minix_update_inode
  minix_write_inode ids sync_all io_ok sbi cache device inode =
      elim (v2_minix_update_inode ids sbi cache inode) [
        | none ↦ (cache, some eio)
        | some (block, bh) ↦
            if sync_all && bh.dirty
            then if io_ok
              then (put_buffer cache block (record bh { dirty = false }), none)
              else (invalidate cache block device, some eio)
            else (put_buffer cache block bh, none)
      ]

  -- `aufs_inode_get` for number `ino`.
  unfoldable pub aufs_inode_get :
      {B : Type 0} → AufsSuperBlock B → BufferCache → Iget → (ino : ℕ) → Outcome AufsInode
  unfolding inode_by_type
  aufs_inode_get asb cache no_memory ino = err enomem
  aufs_inode_get asb cache (cached inode) ino = ok inode
  aufs_inode_get asb cache (fresh inode) ino = elim (cache (aufs_inode_block asb ino)) [
    | none ↦ err eio
    | some bh ↦ elim (get_elem? bh.b_data (aufs_inode_offset asb ino / sizeof_disk_inode)) [
      | none ↦ err eio
      | some di ↦ inode_by_type (aufs_inode_fill order inode di)
    ]
  ]
