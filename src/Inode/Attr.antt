-- ===== src/Inode/Attr.antt =====
-- `minix_setattr` of kern/file.c, `nblocks` and `V2_minix_blocks` of kern/itree_common.c, and
-- `minix_getattr` of kern/inode.c.
pub mod Kept
use aufs_enabled.Base.{
  ℕ, ◌+◌, ◌-◌, ◌*◌, ◌/◌, ◌^◌, List, Bool, true, false, not, ◌&&◌, Option, none, some, ◌==◌,
  if◌then◌else◌, u32, u64, ◌≡◌,
}
use aufs_enabled.Kernel.{Errno}
use aufs_enabled.Vfs.{AufsInode}

-- `struct iattr`: whether ATTR_SIZE is among the attributes to be set, the size, and the others.
pub record Iattr : Type 0 where
  pub attr_size : Bool
  pub ia_size : ℕ
  pub ia_mode : ℕ
  pub ia_uid : ℕ
  pub ia_gid : ℕ

-- `struct kstat`, as far as the file system fills it.
pub record Kstat : Type 0 where
  pub size : ℕ
  pub blocks : ℕ
  pub blksize : ℕ

-- What the kernel does with attributes. It knows nothing of the zones, and copies no size.
pub record Attributes : Type 0 where
  pub setattr_prepare : AufsInode → Iattr → Option Errno
  pub inode_newsize_ok : AufsInode → ℕ → Option Errno
  pub truncate_setsize : AufsInode → ℕ → AufsInode
  pub setattr_copy : AufsInode → Iattr → AufsInode
  pub generic_fillattr : AufsInode → Kstat
  pub truncate_setsize_lem :
      (inode : AufsInode) (size : ℕ) → truncate_setsize inode size ≡ record inode { i_size = size }
  pub setattr_copy-size :
      (inode : AufsInode) (attr : Iattr) → (setattr_copy inode attr).i_size ≡ inode.i_size
  pub setattr_copy-zones :
      (inode : AufsInode) (attr : Iattr) → (setattr_copy inode attr).ai_zone_ptr ≡ inode.ai_zone_ptr
  pub generic_fillattr-size : (inode : AufsInode) → (generic_fillattr inode).size ≡ inode.i_size

module _ (kernel : Attributes) where
  open kernel use {
    setattr_prepare, inode_newsize_ok, truncate_setsize, setattr_copy, generic_fillattr,
  }

  -- The end of `minix_setattr`: `setattr_copy` and `mark_inode_dirty`.
  unfoldable pub copy_attr : AufsInode → Iattr → AufsInode
  copy_attr inode attr = record (setattr_copy inode attr) { dirty = true }

  unfoldable pub minix_setattr : AufsInode → Iattr → Option Errno × AufsInode
  unfolding copy_attr
  minix_setattr inode attr = elim (setattr_prepare inode attr) [
    | some e ↦ (some e, inode)
    | none ↦
        if attr.attr_size && not (attr.ia_size == inode.i_size)
        then elim (inode_newsize_ok inode attr.ia_size) [
          | some e ↦ (some e, inode)
          | none ↦ (none, copy_attr (truncate_setsize inode attr.ia_size) attr)
        ]
        else (none, copy_attr inode attr)
  ]

-- The blocks of a file, as an `unsigned`; BLOCK_SIZE_BITS is 10.
unfoldable pub nblocks : (size s_blocksize s_blocksize_bits : ℕ) → ℕ
nblocks size s_blocksize s_blocksize_bits =
    u32 ((size + s_blocksize - 1) / 2 ^ (10 + s_blocksize_bits - 10))

unfoldable pub v2_minix_blocks : (size s_blocksize s_blocksize_bits : ℕ) → ℕ
unfolding nblocks
v2_minix_blocks = nblocks

unfoldable pub minix_getattr : Attributes → (s_blocksize s_blocksize_bits : ℕ) → AufsInode → Kstat
unfolding v2_minix_blocks
minix_getattr kernel s_blocksize s_blocksize_bits inode =
    let stat = kernel.generic_fillattr inode in
    record stat {
      blocks = u64 (s_blocksize / 512 * v2_minix_blocks stat.size s_blocksize s_blocksize_bits);
      blksize = s_blocksize;
    }
