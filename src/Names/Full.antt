-- ===== src/Names/Full.antt =====
-- `minix_mknod` when no inode number is left.
use aufs_enabled.Base.{
  ℕ, ◌*◌, ◌<◌, ◌^◌, true, Option, List, length, ◌≡◌, ◌∙◌, inl, inr, ap, arith, Option-cases,
}
use aufs_enabled.Kernel.{BitOps, Errno, enomem, enospc, Paging}
use aufs_enabled.Vfs.{AufsInode, Outcome, err}
use aufs_enabled.Super.{AufsSuperBlock}
use aufs_enabled.Bitmap.{aufs_new_inode}
use aufs_enabled.Bitmap.Maps.{map_bit, IsFull}
use aufs_enabled.Bitmap.Inodes.{aufs_new_inode-outcome}
use aufs_enabled.Dir.{Directory, crashed}
use aufs_enabled.Names.{LinkCounts, Surroundings, minix_mknod}

module _ (ops : BitOps) (paging : Paging) (links : LinkCounts) (around : Surroundings)
    (s_blocksize : ℕ) (sbi : AufsSuperBlock ops.Bits)
    (whole_map : length sbi.s_imap ≡ sbi.asb_inode_map_blocks)
    (fits : sbi.asb_inode_map_blocks * (8 * s_blocksize) < 2 ^ 31)
    (reserved : map_bit ops (8 * s_blocksize) sbi.s_imap 0 ≡ true) (dir : Directory) (name : List ℕ)
    (mode : ℕ) where
  abbrev allotted : Option AufsInode → AufsSuperBlock ops.Bits × Outcome AufsInode
  allotted fresh = aufs_new_inode ops s_blocksize sbi fresh (around.init_owner mode) around.now

  allotted-crashed :
      (e : Errno)
      → allotted around.fresh ≡ (sbi, err e)
      → (minix_mknod ops paging links around s_blocksize sbi dir name mode true).result ≡ crashed
  unfolding minix_mknod
  allotted-crashed e eq = rw (minix_mknod, eq)

  -- With an inode map as long as the super block says, counted by an `int`, and with every bit set:
  -- making a file with a valid device number crashes, whatever the directory and the name are, where
  -- -ENOSPC or -ENOMEM is meant.
  pub minix_mknod-full :
      IsFull ops (8 * s_blocksize) sbi.s_imap
      → (minix_mknod ops paging links around s_blocksize sbi dir name mode true).result ≡ crashed
  minix_mknod-full full = elim (Option-cases around.fresh) [
    | inl e ↦ allotted-crashed enomem (
        ap allotted e
        ∙ (aufs_new_inode-outcome ops s_blocksize sbi whole_map fits reserved dir.inode
            (around.init_owner mode) around.now).0)
    | inr (inode, e) ↦
        elim (aufs_new_inode-outcome ops s_blocksize sbi whole_map fits reserved inode
          (around.init_owner mode) around.now).1 [
            | inl (_, new) ↦ allotted-crashed enospc (ap allotted e ∙ new)
            | inr (n, _, takes, _) ↦ absurd (ground (arith, full n, takes.clear))
          ]
  ]
